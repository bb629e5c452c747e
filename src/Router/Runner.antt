-- ===== src/Router/Runner.antt =====
-- pkg/router/runner_linux.go: handlePacket. The queue and the raw socket are the kernel's; what the
-- handler does to them is a list of calls, in order.
use gecit_unofficial.Base.{
  ℕ, ◌^◌, ◌<◌, ◌≡◌, refl, inl, inr, Option, none, some, List, [], ◌∷◌, ◌++◌, arith, if◌then◌else◌,
  Bool-cases, Option-cases, Outcome, ok, ◌>>=◌, Bytes,
}
use gecit_unofficial.Base.Int.{ℤ}
use gecit_unofficial.Fake.Hello.{Reads}
use gecit_unofficial.Router.Decision.{process_packet-Returns}
use gecit_unofficial.Router.Processor.{Action, Processor, Env, process_packet}
use gecit_unofficial.Rawsock.Packet.{ConnInfo}

pub record Attribute : Type 0 where
  pub packet_id : Option ℕ
  pub payload : Option Bytes
  pub mark : Option ℕ

pub data RunnerCall : Type 0 where
  send_fake : ConnInfo → Bytes → ℤ → RunnerCall
  accept : ℕ → RunnerCall

abbrev pub or_zero : Option ℕ → ℕ
or_zero none = 0
or_zero (some n) = n

-- The sends of an answer; a failed send is only logged.
abbrev pub sends : ℤ → Action → List RunnerCall
sends ttl a = if a.inject then send_fake a.conn a.fake_payload ttl ∷ [] else []

unfoldable pub handle_packet :
    Env → Processor → Attribute → ℕ → Reads → Outcome (List RunnerCall × Processor)
handle_packet env p attr now rand = elim attr.packet_id [
  | none ↦ ok ([], p)
  | some id ↦ elim attr.payload [
    | none ↦ ok (accept id ∷ [], p)
    | some packet ↦ (do
      ((action, err), q) ← process_packet env p packet (or_zero attr.mark) now rand
      ok (sends p.cfg.fake_ttl action ++ accept id ∷ [], q))
  ]
]

-- The calls for one packet: the packet is accepted as the last call, and only it, once.
abbrev pub EndsAccepting : ℕ → List RunnerCall → Type 0
EndsAccepting id [] = ⊥
EndsAccepting id (send_fake conn payload ttl ∷ cs) = cs ≡ accept id ∷ []
EndsAccepting id (accept j ∷ cs) = (j ≡ id) × (cs ≡ [])

-- While the counter of hellos is below 2^63, handlePacket returns on every packet that the queue
-- numbers, and its calls are the one that accepts this packet, with at most one fake sent before
-- it.
pub handle_packet-EndsAccepting :
    (env : Env) (p : Processor) (attr : Attribute) (id now : ℕ) (rand : Reads)
    → p.counter < 2 ^ 63
    → attr.packet_id ≡ some id
    → (r : List RunnerCall × Processor) × (handle_packet env p attr now rand ≡ ok r)
      × EndsAccepting id r.0
unfolding handle_packet
handle_packet-EndsAccepting env p attr id now rand below numbered =
    elim (Option-cases attr.payload) [
      | inl absent ↦ ((accept id ∷ [], p), ground (arith, numbered, absent), (refl, refl))
      | inr (packet, present) ↦
          let (((action, err), q), e) =
            process_packet-Returns env p packet (or_zero attr.mark) now rand below in
          (
            (sends p.cfg.fake_ttl action ++ accept id ∷ [], q),
            ground (arith, numbered, present, e),
            accepted p.cfg.fake_ttl action id,
          )
    ]
  where
    accepted :
        (ttl : ℤ) (action : Action) (id : ℕ) → EndsAccepting id (sends ttl action ++ accept id ∷ [])
    accepted ttl action id = elim (Bool-cases action.inject) [
      | inl e ↦ rw e refl
      | inr e ↦ rw e (refl, refl)
    ]
