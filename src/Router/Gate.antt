-- ===== src/Router/Gate.antt =====
-- A flow is answered with a fake once: ProcessPacket over sequences of packets.
use gecit_unofficial.Base.{
  ℕ, bit_and, ◌≡◌, ◌⊎◌, inl, inr, Option, List, [], ◌∷◌, arith, ◌==◌, Bool-cases, ok, Bytes, Result,
  returns, fails, Text, ◌+◌, ◌≤◌, refl, ◌∙◌, true, All, sym, false,
}
use gecit_unofficial.Fake.Hello.{Reads}
use gecit_unofficial.Router.Flows.{mark_once, FlowTable}
use gecit_unofficial.Router.Processor.{
  Action, Processor, Env, flow_key, inject_new, process_meta, process_parsed, process_packet,
}
use gecit_unofficial.Router.Packet.{PacketMeta, PacketError, parse_packet}
use gecit_unofficial.Router.Once.{
  holds_since, mark_once-holds_since, mark_once-ttl, mark_once_refused, mark_once_marks,
}
use gecit_unofficial.Router.Decision.{inject_new-inject, process_meta-inject, process_packet-inject}
use gecit_unofficial.Tun.Fakes.{injected}

-- The processor after packets that arrive at the listed times.
pub data Handles (env : Env) : Processor → List ℕ → Processor → Type 0 where
  no_packets : {p : Processor} → Handles env p [] p
  one_packet :
      {p q r : Processor} {now : ℕ} {times : List ℕ} (packet : Bytes) (mark : ℕ) (rand : Reads)
      (answer : Action × Option PacketError)
      → process_packet env p packet mark now rand ≡ ok (answer, q)
      → Handles env q times r
      → Handles env p (now ∷ times) r

module _ (env : Env) (p : Processor) (now : ℕ) (rand : Reads) where
  inject_new-flows :
      (m : PacketMeta) (answer : Action × Option PacketError) (q : Processor)
      → inject_new env p m now rand ≡ ok (answer, q)
      → q.flows ≡ (mark_once p.flows (flow_key env.ipv6_text m) now).0
  unfolding inject_new
  inject_new-flows m answer q h = ground (arith, h)

  process_meta-flows :
      (m : PacketMeta) (answer : Action × Option PacketError) (q : Processor)
      → process_meta env p m now rand ≡ ok (answer, q)
      → (q.flows ≡ p.flows) ⊎ (q.flows ≡ (mark_once p.flows (flow_key env.ipv6_text m) now).0)
  unfolding process_meta
  process_meta-flows m answer q h = ground (arith, h, inject_new-flows m answer q)

  process_parsed-flows :
      (t : Result PacketError PacketMeta) (answer : Action × Option PacketError) (q : Processor)
      → process_parsed env p now rand t ≡ ok (answer, q)
      → (q.flows ≡ p.flows) ⊎ ((key : Text) × (q.flows ≡ (mark_once p.flows key now).0))
  process_parsed-flows (fails e) answer q h = ground (arith, h)
  process_parsed-flows (returns m) answer q h = elim (process_meta-flows m answer q h) [
    | inl same ↦ inl same
    | inr marked ↦ inr (flow_key env.ipv6_text m, marked)
  ]

  process_packet-flows :
      (packet : Bytes) (mark : ℕ) (answer : Action × Option PacketError) (q : Processor)
      → process_packet env p packet mark now rand ≡ ok (answer, q)
      → (q.flows ≡ p.flows) ⊎ ((key : Text) × (q.flows ≡ (mark_once p.flows key now).0))
  unfolding process_packet
  process_packet-flows packet mark answer q h =
      elim (Bool-cases (bit_and mark p.cfg.packet_mark == 0)) [
        | inl e ↦
            process_parsed-flows (parse_packet env.decoder packet) answer q (ground (arith, h, e))
        | inr e ↦ inl (ground (arith, h, e))
      ]

-- The table still holds a mark of `key` from `since`.
abbrev Marked : Text → ℕ → FlowTable → Type 0
Marked key since t = (holds_since key since t.entries ≡ true)

-- A packet within the TTL leaves the mark and the TTL.
packet_keeps :
    (env : Env) (p q : Processor) (packet : Bytes) (mark now : ℕ) (rand : Reads)
    → (answer : Action × Option PacketError) (key : Text) (since : ℕ)
    → process_packet env p packet mark now rand ≡ ok (answer, q)
    → now ≤ since + p.flows.ttl
    → Marked key since p.flows
    → Marked key since q.flows × (q.flows.ttl ≡ p.flows.ttl)
packet_keeps env p q packet mark now rand answer key since h fresh e =
    elim (process_packet-flows env p now rand packet mark answer q h) [
      | inl same ↦ rw same (e, refl)
      | inr (other, marked) ↦ rw marked (
        mark_once-holds_since p.flows key other since now fresh e,
        mark_once-ttl p.flows other now,
      )
    ]

Handles-keeps :
    (env : Env) (p r : Processor) (times : List ℕ) (key : Text) (since : ℕ)
    → Handles env p times r
    → All (λ now. now ≤ since + p.flows.ttl) times
    → Marked key since p.flows
    → Marked key since r.flows × (r.flows.ttl ≡ p.flows.ttl)
Handles-keeps env p r _ key since no_packets fresh e = (e, refl)
Handles-keeps env p r _ key since (one_packet {q = q} packet mark rand answer h rest) fresh e =
    let (kept, ttl) = packet_keeps env p q packet mark _ rand answer key since h fresh.0 e in
    let (kept', ttl') = Handles-keeps env q r _ key since rest (rw ttl fresh.1) kept in
    (kept', ttl' ∙ ttl)

abbrev SameResult : Result PacketError PacketMeta → Result PacketError PacketMeta → Type 0
SameResult a b = (a ≡ b)

-- An injection says that the flow was new, and marks it.
injecting_marks :
    (env : Env) (p q : Processor) (packet : Bytes) (mark now : ℕ) (rand : Reads)
    → (a : Action) (e : Option PacketError) (m : PacketMeta)
    → process_packet env p packet mark now rand ≡ ok ((a, e), q)
    → a.inject ≡ true
    → parse_packet env.decoder packet ≡ returns m
    → ((mark_once p.flows (flow_key env.ipv6_text m) now).1 ≡ true)
      × (q.flows ≡ (mark_once p.flows (flow_key env.ipv6_text m) now).0)
injecting_marks env p q packet mark now rand a e m h inj parsed =
    let (unmarked, (m0, parsed0, h1)) =
      process_packet-inject env p now rand packet mark a e q h inj in
    let (tcp_ok, four, allowed, hello, h2) = process_meta-inject env p now rand m0 a e q h1 inj in
    let (fresh, carried) = inject_new-inject env p now rand m0 a e q h2 inj in
    let same : m0 ≡ m = of_returns (sym parsed0 ∙ parsed) in
    rw (← same) (fresh, inject_new-flows env p now rand m0 (a, e) q h2)
  where
    of_returns : {a b : PacketMeta} → SameResult (returns a) (returns b) → a ≡ b
    of_returns x = cc

-- After ProcessPacket answered a packet with an injection, it does not inject for another packet
-- with the same flow key up to a TTL later, whatever packets it handled in between, all of them
-- within that time.
pub process_packet_once :
    (env : Env) (p q r s : Processor) (packet again : Bytes) (mark mark' since now : ℕ)
    → (rand rand' : Reads) (a a' : Action) (e e' : Option PacketError) (m m' : PacketMeta)
    → (times : List ℕ) → process_packet env p packet mark since rand ≡ ok ((a, e), q)
    → a.inject ≡ true
    → parse_packet env.decoder packet ≡ returns m
    → Handles env q times r
    → All (λ time. time ≤ since + p.flows.ttl) times
    → now ≤ since + p.flows.ttl
    → process_packet env r again mark' now rand' ≡ ok ((a', e'), s)
    → parse_packet env.decoder again ≡ returns m'
    → flow_key env.ipv6_text m' ≡ flow_key env.ipv6_text m
    → a'.inject ≡ false
process_packet_once env p q r s packet again mark mark' since now rand rand' a a' e e' m m' times h
      inj parsed handled fresh soon h' parsed' same_key =
    let key = flow_key env.ipv6_text m in
    let (new, marked) = injecting_marks env p q packet mark since rand a e m h inj parsed in
    let ttl : q.flows.ttl ≡ p.flows.ttl = rw marked (mark_once-ttl p.flows key since) in
    let at_q : Marked key since q.flows = rw marked (mark_once_marks p.flows key since new) in
    let (at_r, ttl_r) = Handles-keeps env q r times key since handled (rw ttl fresh) at_q in
    let refused = mark_once_refused r.flows key since now (omega (arith, ttl, ttl_r, soon)) at_r in
    elim (Bool-cases a'.inject) [
      | inr held ↦ held
      | inl injected ↦
          let (fresh', marked') =
            injecting_marks env r s again mark' now rand' a' e' m' h' injected parsed' in
          ground (arith, rw same_key at fresh', refused)
    ]
