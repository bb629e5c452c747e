-- ===== src/Capture/Fresh.antt =====
-- Which event the tracker hands out: the newest one of the port, once; and a stale one.
use gecit_unofficial.Base.{
  ℕ, ◌≡◌, refl, ap, ◌∙◌, not, Option, none, some, List, [], ◌∷◌, arith, ltb, ◌==◌, if◌then◌else◌,
  Outcome, ok, stuck, ◌<◌, sym, inl, inr, ◌++◌, Option-cases, panic, All,
}
use gecit_unofficial.Capture.Tracker.{
  Conns, load, delete_port, store, store_all, Poll, Waited, wait_for_seq_ack,
}
use gecit_unofficial.Rawsock.Packet.{ConnInfo}

pub load-delete_port : (port : ℕ) (cs : Conns) → load port (delete_port port cs) ≡ none
unfolding load delete_port
load-delete_port port [] = refl
load-delete_port port ((p, evt) ∷ cs) = ground (arith, load-delete_port port cs)

load-delete_other :
    (port other : ℕ) (cs : Conns)
    → (other ≡ port → ⊥)
    → load port (delete_port other cs) ≡ load port cs
unfolding load delete_port
load-delete_other port other [] h = refl
load-delete_other port other ((p, evt) ∷ cs) h =
    ground (arith, load-delete_other port other cs h, h)

-- A map, as a function of the port
pub load-store :
    (port : ℕ) (cs : Conns) (evt : ConnInfo)
    → load port (store cs evt) ≡ (if evt.src_port == port then some evt else load port cs)
unfolding store load
load-store port cs evt = ground (arith, load-delete_other port evt.src_port cs)

-- The newest event of the port among those that come, else the one there was
abbrev pub newest : ℕ → Option ConnInfo → List ConnInfo → Option ConnInfo
newest port known [] = known
newest port known (evt ∷ evts) = newest port (if evt.src_port == port then some evt else known) evts

pub load-store_all :
    (port : ℕ) (cs : Conns) (evts : List ConnInfo)
    → load port (store_all cs evts) ≡ newest port (load port cs) evts
unfolding store_all
load-store_all port cs [] = refl
load-store_all port cs (evt ∷ evts) =
    load-store_all port (store cs evt) evts ∙ ap (λ k. newest port k evts) (load-store port cs evt)

-- What WaitForSeqAck answers, as a function of the rounds alone
unfoldable pub answer_of : Option ConnInfo → ℕ → ℕ → List Poll → Outcome (Option ConnInfo)
answer_of known port deadline [] = stuck
answer_of known port deadline (p ∷ ps) =
    let now_known = newest port known p.arrivals in
    let again = answer_of now_known port deadline ps in
    if not (ltb p.now deadline)
    then ok none
    else elim now_known [ some evt ↦ ok (some evt) | none ↦ again ]

-- The answer alone
abbrev pub event_alone : Waited → Outcome (Option ConnInfo)
event_alone (ok (evt, cs)) = ok evt
event_alone panic = panic
event_alone stuck = stuck

-- WaitForSeqAck depends on the map only through the entry of its port.
pub event_alone-wait_for_seq_ack :
    (cs : Conns) (port deadline : ℕ) (polls : List Poll)
    → event_alone (wait_for_seq_ack cs port deadline polls)
      ≡ answer_of (load port cs) port deadline polls
unfolding wait_for_seq_ack answer_of
event_alone-wait_for_seq_ack cs port deadline [] = refl
event_alone-wait_for_seq_ack cs port deadline (p ∷ ps) =
    let ih = event_alone-wait_for_seq_ack (store_all cs p.arrivals) port deadline ps in
    let e = load-store_all port cs p.arrivals in
    elim (Option-cases (load port (store_all cs p.arrivals))) [
      | inl missing ↦ ground (arith, missing, sym e ∙ missing, rw missing at ih)
      | inr (evt, found) ↦ ground (arith, found, sym e ∙ found)
    ]

-- A round before the deadline that brings nothing for the port
abbrev pub IsQuiet : ℕ → ℕ → Poll → Type 0
IsQuiet port deadline p = (p.now < deadline) × (newest port none p.arrivals ≡ none)

abbrev pub store_rounds : Conns → List Poll → Conns
store_rounds cs [] = cs
store_rounds cs (p ∷ ps) = store_rounds (store_all cs p.arrivals) ps

-- Quiet rounds are waited through.
pub wait-quiet :
    (cs : Conns) (port deadline : ℕ) (quiet rest : List Poll)
    → load port cs ≡ none
    → All (IsQuiet port deadline) quiet
    → (wait_for_seq_ack cs port deadline (quiet ++ rest)
        ≡ wait_for_seq_ack (store_rounds cs quiet) port deadline rest)
      × (load port (store_rounds cs quiet) ≡ none)
unfolding wait_for_seq_ack
wait-quiet cs port deadline [] rest clean q = (refl, clean)
wait-quiet cs port deadline (p ∷ ps) rest clean q =
    let e : load port (store_all cs p.arrivals) ≡ none =
      load-store_all port cs p.arrivals ∙ ap (λ k. newest port k p.arrivals) clean ∙ q.0.1 in
    let (same, still) = wait-quiet (store_all cs p.arrivals) port deadline ps rest e q.1 in
    (ground (arith, q.0.0, e, same), still)
