-- ===== src/Tun/Closing.antt =====
-- What NewConnectionEx leaves: every connection closed. And what it sends for other ports.
use gecit_unofficial.Base.{
  ◌≡◌, subst, List, [], ◌∷◌, ok, bind-ok, ok-injective, All, sym, inl, inr, ◌++◌, Bool-cases,
  Option-cases, All-append, arith, Outcome, Bool, true, false, ◌&&◌, none, some, refl, map, ap, ◌∙◌,
}
use gecit_unofficial.Fake.Hello.{Reads}
use gecit_unofficial.Tun.Pipe.{Round, IsFine, relay_packets-map}
use gecit_unofficial.Tun.Handler.{
  Shared, TunConfig, ServerAnswers, AppAnswers, HandlerCall, fake_sent, both, close_server,
  close_app, on_close, closing, Arrival, forwarded, new_connection_ex, resolved,
  new_packet_connection_ex,
}
use gecit_unofficial.Capture.Packet.{has_port}
use gecit_unofficial.Tun.Calls.{plain-All, forwarded-All}

-- Not one of the deferred calls
abbrev pub IsWork : HandlerCall → Type 0
IsWork close_server = ⊥
IsWork close_app = ⊥
IsWork on_close = ⊥
IsWork call = Unit

abbrev pub IsNoFake : HandlerCall → Type 0
IsNoFake (fake_sent conn payload ttl) = ⊥
IsNoFake call = Unit

abbrev pub is_open : Arrival → Bool
is_open arrival = arrival.has_conn && arrival.destination.is_valid

abbrev pub is_dialled : Arrival → Bool
is_dialled arrival = is_open arrival && elim arrival.dialled [ none ↦ false | some server ↦ true ]

-- The work, and what is deferred
closed :
    (P : HandlerCall → Type 0) (cfg : TunConfig) (rand : Reads) (shared : Shared)
    (arrival : Arrival) (app : AppAnswers) (r : List HandlerCall × Shared)
    → ((now : Shared) (server : ServerAnswers) (q : List HandlerCall × Shared)
        → forwarded cfg rand now arrival.destination.port app server ≡ ok q
        → All P q.0)
    → new_connection_ex cfg rand shared arrival app ≡ ok r
    → (work : List HandlerCall) × (r.0
        ≡ work ++ closing (is_dialled arrival) (is_open arrival) arrival.has_on_close)
      × All P work
unfolding new_connection_ex
closed P cfg rand shared arrival app r each h = elim (Bool-cases (is_open arrival)) [
  | inr shut ↦ ([], ground (arith, h, shut), tt)
  | inl opened ↦ elim (Option-cases arrival.dialled) [
    | inl failed ↦ ([], ground (arith, h, opened, failed), tt)
    | inr (server, dialled) ↦
        let finish : List HandlerCall × Shared → Outcome (List HandlerCall × Shared) =
          λ q. ok (q.0 ++ closing true true arrival.has_on_close, q.1) in
        let (q, f, e) =
          bind-ok (forwarded cfg rand (resolved shared arrival) arrival.destination.port app server)
            finish r (ground (arith, h, opened, dialled)) in
        (
          q.0,
          ground (
            arith,
            ok-injective (q.0 ++ closing true true arrival.has_on_close, q.1) r e,
            opened,
            dialled,
          ),
          each (resolved shared arrival) server q f,
        )
  ]
]

-- What is to come last, for each of the cases
abbrev pub last_calls : Bool → Bool → Bool → List HandlerCall
last_calls true opened true = close_server ∷ close_app ∷ on_close ∷ []
last_calls true opened false = close_server ∷ close_app ∷ []
last_calls false true true = close_app ∷ on_close ∷ []
last_calls false true false = close_app ∷ []
last_calls false false true = on_close ∷ []
last_calls false false false = []

closing-last_calls :
    (arrival : Arrival)
    → closing (is_dialled arrival) (is_open arrival) arrival.has_on_close
      ≡ last_calls (is_dialled arrival) (is_open arrival) arrival.has_on_close
closing-last_calls arrival = ground arith

-- Where NewConnectionEx returns, in whatever way: it closes last of all the server's connection
-- if the dialer gave one, then the application's if there is one with a valid destination, and
-- then calls onClose if it is not nil: each once, and nothing of it before.
pub new_connection_ex-closing :
    (cfg : TunConfig) (rand : Reads) (shared : Shared) (arrival : Arrival) (app : AppAnswers)
    (r : List HandlerCall × Shared)
    → new_connection_ex cfg rand shared arrival app ≡ ok r
    → (work : List HandlerCall) × (r.0
        ≡ work ++ last_calls (is_dialled arrival) (is_open arrival) arrival.has_on_close)
      × All IsWork work
new_connection_ex-closing cfg rand shared arrival app r h =
    let (work, same, all) =
      closed IsWork cfg rand shared arrival app r
        (λ now server q.
          forwarded-All IsWork (λ b. tt) (λ b. tt) (λ c b t. tt) tt tt cfg rand now
            arrival.destination.port app server q)
        h in
    (work, same ∙ ap (◌++◌ work) (closing-last_calls arrival), all)

closing-IsNoFake : (dialled opened called : Bool) → All IsNoFake (closing dialled opened called)
closing-IsNoFake true true true = (tt, (tt, (tt, tt)))
closing-IsNoFake true true false = (tt, (tt, tt))
closing-IsNoFake true false true = (tt, (tt, tt))
closing-IsNoFake true false false = (tt, tt)
closing-IsNoFake false true true = (tt, (tt, tt))
closing-IsNoFake false true false = (tt, tt)
closing-IsNoFake false false true = (tt, tt)
closing-IsNoFake false false false = tt

-- A connection to a port that is not a target gets no fake, whatever is read from it.
pub new_connection_ex-IsNoFake :
    (cfg : TunConfig) (rand : Reads) (shared : Shared) (arrival : Arrival) (app : AppAnswers)
    (r : List HandlerCall × Shared)
    → has_port arrival.destination.port cfg.ports ≡ false
    → new_connection_ex cfg rand shared arrival app ≡ ok r
    → All IsNoFake r.0
new_connection_ex-IsNoFake cfg rand shared arrival app r plain h =
    let (work, same, free) =
      closed IsNoFake cfg rand shared arrival app r
        (λ now server q.
          plain-All IsNoFake (λ b. tt) (λ b. tt) cfg rand now arrival.destination.port app server q
            plain)
        h in
    let last = closing (is_dialled arrival) (is_open arrival) arrival.has_on_close in
    subst (All IsNoFake) (sym same) (
      All-append IsNoFake work last free
        (closing-IsNoFake (is_dialled arrival) (is_open arrival) arrival.has_on_close))

-- A UDP connection with a valid destination that could be dialled: each packet read before its
-- direction's first failed Read is written to the other side unchanged, in order and once, where
-- the writes succeed; then both connections are closed and onClose is called.
pub new_packet_connection_ex-both :
    (has_on_close : Bool) (fine_up fine_down rest_up rest_down : List Round)
    (last_up last_down : Round)
    → All IsFine fine_up
    → last_up.read_failed ≡ true
    → All IsFine fine_down
    → last_down.read_failed ≡ true
    → new_packet_connection_ex true true has_on_close true
        (fine_up ++ last_up ∷ rest_up)
        (fine_down ++ last_down ∷ rest_down)
      ≡ ok (
          both (map (λ r. r.got) fine_up) (map (λ r. r.got) fine_down)
          ++ closing true true has_on_close)
unfolding new_packet_connection_ex
new_packet_connection_ex-both called fine_up fine_down rest_up rest_down last_up last_down fu lu fd
      ld =
    rw
      (
        relay_packets-map fine_up last_up rest_up fu lu,
        relay_packets-map fine_down last_down rest_down fd ld,
      )
      refl
