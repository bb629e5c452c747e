-- ===== src/Capture/Tracker.antt =====
-- pkg/seqtrack/seqtracker_darwin.go, which seqtracker_windows.go repeats: the map of events by
-- local port, and the loop that waits for one. Each round of the loop reads the clock; the events
-- that the capture stored before a round are given with the round.
use gecit_unofficial.Base.{
  ℕ, ◌+◌, not, Option, none, some, List, [], ◌∷◌, ltb, ◌==◌, if◌then◌else◌, Outcome, ok, panic,
  stuck,
}
use gecit_unofficial.Rawsock.Packet.{ConnInfo}

abbrev pub Conns : Type 0
Conns = List (ℕ × ConnInfo)

unfoldable pub load : ℕ → Conns → Option ConnInfo
load port [] = none
load port ((p, evt) ∷ cs) = if p == port then some evt else load port cs

unfoldable pub delete_port : ℕ → Conns → Conns
delete_port port [] = []
delete_port port ((p, evt) ∷ cs) =
    if p == port then delete_port port cs else (p, evt) ∷ delete_port port cs

-- st.conns.Store(evt.SrcPort, evt)
unfoldable pub store : Conns → ConnInfo → Conns
store cs evt = (evt.src_port, evt) ∷ delete_port evt.src_port cs

unfoldable pub store_all : Conns → List ConnInfo → Conns
store_all cs [] = cs
store_all cs (evt ∷ evts) = store_all (store cs evt) evts

-- One round: the clock, and what was stored since the last
pub record Poll : Type 0 where
  pub now : ℕ
  pub arrivals : List ConnInfo

abbrev pub Waited : Type 0
Waited = Outcome (Option ConnInfo × Conns)

-- WaitForSeqAck; `stuck` where the listed rounds do not reach the deadline
unfoldable pub wait_for_seq_ack : Conns → ℕ → ℕ → List Poll → Waited
wait_for_seq_ack cs port deadline [] = stuck
wait_for_seq_ack cs port deadline (p ∷ ps) =
    let stored = store_all cs p.arrivals in
    let again = wait_for_seq_ack stored port deadline ps in
    if not (ltb p.now deadline) then ok (none, stored) else elim (load port stored) [
      | some evt ↦ ok (some evt, delete_port port stored)
      | none ↦ again
    ]

-- 500 * time.Millisecond
abbrev pub seq_ack_timeout : ℕ
seq_ack_timeout = 500000000

abbrev pub numbers_of : Option ConnInfo → ℕ × ℕ
numbers_of none = (1, 1)
numbers_of (some evt) = (evt.seq, evt.ack)

abbrev pub numbers_after : Waited → Outcome ((ℕ × ℕ) × Option Conns)
numbers_after (ok (evt, cs)) = ok (numbers_of evt, some cs)
numbers_after panic = panic
numbers_after stuck = stuck

-- GetSeqAck at the time `asked`: without a tracker, or for a connection that is no TCP connection,
-- the placeholders
unfoldable pub get_seq_ack :
    Option Conns → Option ℕ → ℕ → List Poll → Outcome ((ℕ × ℕ) × Option Conns)
get_seq_ack none local_port asked polls = ok ((1, 1), none)
get_seq_ack (some cs) none asked polls = ok ((1, 1), some cs)
get_seq_ack (some cs) (some local_port) asked polls =
    numbers_after (wait_for_seq_ack cs local_port (asked + seq_ack_timeout) polls)
