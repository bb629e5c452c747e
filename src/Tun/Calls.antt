-- ===== src/Tun/Calls.antt =====
-- A predicate of calls that holds for each call the handler can make holds for all that it makes.
use gecit_unofficial.Base.{
  ℕ, ◌≡◌, sym, subst, inl, inr, false, Option, List, [], ◌∷◌, ◌++◌, arith, if◌then◌else◌,
  Bool-cases, Option-cases, Outcome, ok, ◌>>=◌, bind-ok, ok-injective, All, All-append,
  All-replicate, Bytes,
}
use gecit_unofficial.Base.Int.{ℤ}
use gecit_unofficial.Fake.Hello.{Reads, random_tls_client_hello}
use gecit_unofficial.Fake.Sni.{parse_sni}
use gecit_unofficial.Capture.Packet.{has_port}
use gecit_unofficial.Capture.Tracker.{Conns, get_seq_ack}
use gecit_unofficial.Tun.Pipe.{cp}
use gecit_unofficial.Tun.Fakes.{sent_times}
use gecit_unofficial.Tun.Handler.{
  Shared, TunConfig, ServerAnswers, AppAnswers, HandlerCall, set_hello_deadline, clear_deadline,
  fake_sent, write_server, write_app, send_fakes, both, pipe, name_destination, conn_info,
  inject_hello, local_port_of, inject_to, inject_and_forward, forwarded,
}
use gecit_unofficial.Rawsock.Packet.{ConnInfo}

-- A predicate of the calls that holds for those of the two streams
module _ (P : HandlerCall → Type 0) (to_server : (b : Bytes) → P (write_server b))
    (to_app : (b : Bytes) → P (write_app b)) where
  both-All : (ups downs : List Bytes) → All P (both ups downs)
  both-All [] [] = tt
  both-All [] (b ∷ downs) = (to_app b, both-All [] downs)
  both-All (b ∷ ups) downs = (to_server b, both-All ups downs)

  pipe-All : (app : AppAnswers) (calls : List HandlerCall) → pipe app ≡ ok calls → All P calls
  unfolding pipe
  pipe-All app calls h =
      let (ups, u, g) =
        bind-ok (cp app.up) (λ ups. cp app.down >>= (λ downs. ok (both ups downs))) calls h in
      let (downs, d, e) = bind-ok (cp app.down) (λ downs. ok (both ups downs)) calls g in
      subst (All P) (ok-injective (both ups downs) calls e) (both-All ups downs)

  pub plain-All :
      (cfg : TunConfig) (rand : Reads) (shared : Shared) (port : ℕ) (app : AppAnswers)
      (server : ServerAnswers) (r : List HandlerCall × Shared)
      → has_port port cfg.ports ≡ false
      → forwarded cfg rand shared port app server ≡ ok r
      → All P r.0
  plain-All cfg rand shared port app server r plain h =
      let (calls, c, e) = bind-ok (pipe app) (λ calls. ok (calls, shared)) r (rw plain at h) in
      subst (λ k. All P k.0) (ok-injective (calls, shared) r e) (pipe-All app calls c)

  -- and for what comes before them
  module _ (fake : (c : ConnInfo) (b : Bytes) (t : ℤ) → P (fake_sent c b t))
      (deadline : P set_hello_deadline) (clear : P clear_deadline) where
    inject_hello-All :
        (cfg : TunConfig) (payload hello : Bytes) (conn : ConnInfo) (app : AppAnswers)
        (server : ServerAnswers) (calls : List HandlerCall)
        → inject_hello cfg payload hello conn app server ≡ ok calls
        → All P calls
    unfolding inject_hello
    inject_hello-All cfg payload hello conn app server calls h =
        let first =
          send_fakes 3 0 server.sent conn payload cfg.fake_ttl ++ write_server hello ∷ [] in
        let (k, few, some_sent, same) = sent_times 3 0 server.sent conn payload cfg.fake_ttl in
        let before : All P first =
          All-append P (send_fakes 3 0 server.sent conn payload cfg.fake_ttl)
            (write_server hello ∷ [])
            (subst (All P) (sym same) (
              All-replicate P k (fake_sent conn payload cfg.fake_ttl)
                (fake conn payload cfg.fake_ttl)))
            (to_server hello, tt) in
        let (rest, o, e) =
          bind-ok (if server.hello_written then pipe app else ok []) (λ rest. ok (first ++ rest))
            calls h in
        let behind : All P rest = elim (Bool-cases server.hello_written) [
          | inl w ↦ pipe-All app rest (rw w at o)
          | inr w ↦ subst (All P) (ok-injective [] rest (rw w at o)) tt
        ] in
        subst (All P) (ok-injective (first ++ rest) calls e) (All-append P first rest before behind)

    inject_to-All :
        (cfg : TunConfig) (rand : Reads) (shared : Shared) (hello : Bytes) (numbers : ℕ × ℕ)
        (app : AppAnswers) (server : ServerAnswers) (r : List HandlerCall × Shared)
        → inject_to cfg rand shared hello numbers app server ≡ ok r
        → All P r.0
    unfolding inject_to
    inject_to-All cfg rand shared hello numbers app server r h =
        elim (Option-cases server.local_addr) [
          | inl missing ↦
              let e : ([], shared) ≡ r = ground (arith, h, missing) in subst (λ k. All P k.0) e tt
          | inr (l, at_l) ↦ elim (Option-cases server.remote_addr) [
            | inl missing ↦
                let e : ([], shared) ≡ r = ground (arith, h, at_l, missing) in
                subst (λ k. All P k.0) e tt
            | inr (m, at_m) ↦
                let (drawn, d, g) =
                  bind-ok (random_tls_client_hello shared.counter rand)
                    (λ drawn.
                      inject_hello cfg drawn.0 hello (conn_info l m numbers) app server
                      >>= (λ calls. ok (calls, record shared { counter = drawn.1 })))
                    r (ground (arith, h, at_l, at_m)) in
                let (calls, c, e) =
                  bind-ok (inject_hello cfg drawn.0 hello (conn_info l m numbers) app server)
                    (λ calls. ok (calls, record shared { counter = drawn.1 })) r g in
                subst (λ k. All P k.0)
                  (ok-injective (calls, record shared { counter = drawn.1 }) r e)
                  (inject_hello-All cfg drawn.0 hello (conn_info l m numbers) app server calls c)
          ]
        ]

    inject_and_forward-All :
        (cfg : TunConfig) (rand : Reads) (shared : Shared) (app : AppAnswers)
        (server : ServerAnswers) (r : List HandlerCall × Shared)
        → inject_and_forward cfg rand shared app server ≡ ok r
        → All P r.0
    unfolding inject_and_forward
    inject_and_forward-All cfg rand shared app server r h = elim (Option-cases app.hello) [
      | inl missing ↦
          let e : (set_hello_deadline ∷ [], shared) ≡ r = ground (arith, h, missing) in
          subst (λ k. All P k.0) e (deadline, tt)
      | inr (hello, said) ↦
          let answered =
            get_seq_ack shared.tracker (local_port_of server.local_addr) server.asked
              server.polls in
          let finish : List HandlerCall × Shared → Outcome (List HandlerCall × Shared) =
            λ rest. ok (set_hello_deadline ∷ clear_deadline ∷ rest.0, rest.1) in
          let last : (ℕ × ℕ) × Option Conns → Outcome (List HandlerCall × Shared) = λ answer.
            inject_to cfg rand (record shared { tracker = answer.1 }) hello answer.0 app server
            >>= finish in
          let (sni, s, h1) =
            bind-ok (parse_sni hello)
              (λ sni. name_destination sni server.remote_addr >>= (λ named. answered >>= last)) r
              (ground (arith, h, said)) in
          let (named, n, h2) =
            bind-ok (name_destination sni server.remote_addr) (λ named. answered >>= last) r h1 in
          let (answer, a, h3) = bind-ok answered last r h2 in
          let (rest, c, e) =
            bind-ok
              (inject_to cfg rand (record shared { tracker = answer.1 }) hello answer.0 app server)
              finish r h3 in
          subst (λ k. All P k.0)
            (ok-injective (set_hello_deadline ∷ clear_deadline ∷ rest.0, rest.1) r e)
            (
              deadline,
              (
                clear,
                inject_to-All cfg rand (record shared { tracker = answer.1 }) hello answer.0 app
                    server rest c,
              ),
            )
    ]

    pub forwarded-All :
        (cfg : TunConfig) (rand : Reads) (shared : Shared) (port : ℕ) (app : AppAnswers)
        (server : ServerAnswers) (r : List HandlerCall × Shared)
        → forwarded cfg rand shared port app server ≡ ok r
        → All P r.0
    forwarded-All cfg rand shared port app server r h =
        elim (Bool-cases (has_port port cfg.ports)) [
          | inl target ↦ inject_and_forward-All cfg rand shared app server r (rw target at h)
          | inr plain ↦ plain-All cfg rand shared port app server r plain h
        ]
