-- ===== src/Capture/Polls.antt =====
-- WaitForSeqAck ends.
use gecit_unofficial.Base.{
  ℕ, ◌+◌, ◌*◌, ◌≤◌, ◌<◌, ◌≡◌, true, List, [], ◌∷◌, arith, is_ok, length, refl, Option, none, some,
  ok, is_ok→Returns, ap,
}
use gecit_unofficial.Capture.Tracker.{
  Conns, store_all, Poll, wait_for_seq_ack, seq_ack_timeout, numbers_of, get_seq_ack, numbers_after,
}

-- Each round comes a millisecond or more after the one before
abbrev pub AreSpaced : ℕ → List Poll → Type 0
AreSpaced since [] = Unit
AreSpaced since (p ∷ ps) = (since + 1000000 ≤ p.now) × AreSpaced p.now ps

wait-ok :
    (cs : Conns) (port deadline since : ℕ) (polls : List Poll)
    → AreSpaced since polls
    → deadline ≤ since + length polls * 1000000
    → 0 < length polls
    → is_ok (wait_for_seq_ack cs port deadline polls) ≡ true
unfolding wait_for_seq_ack
wait-ok cs port deadline since [] spaced enough some_left = absurd (omega arith)
wait-ok cs port deadline since (p ∷ []) spaced enough some_left = ground (arith, spaced)
wait-ok cs port deadline since (p ∷ q ∷ ps) spaced enough some_left =
    let ih = wait-ok (store_all cs p.arrivals) port deadline p.now (q ∷ ps) spaced.1 in
    ground (arith, spaced, ih)

-- GetSeqAck returns: where the rounds come a millisecond apart from the time it is called at, the
-- 501st is the last that it needs, whatever the tracker holds and whatever arrives.
pub get_seq_ack-Returns :
    (cs : Option Conns) (local_port : Option ℕ) (asked : ℕ) (polls : List Poll)
    → AreSpaced asked polls
    → 501 ≤ length polls
    → (r : (ℕ × ℕ) × Option Conns) × (get_seq_ack cs local_port asked polls ≡ ok r)
unfolding get_seq_ack
get_seq_ack-Returns none local_port asked polls spaced enough = (((1, 1), none), refl)
get_seq_ack-Returns (some cs) none asked polls spaced enough = (((1, 1), some cs), refl)
get_seq_ack-Returns (some cs) (some port) asked polls spaced enough =
    let ends =
      wait-ok cs port (asked + seq_ack_timeout) asked polls spaced (omega arith) (omega arith) in
    let (r, e) = is_ok→Returns (wait_for_seq_ack cs port (asked + seq_ack_timeout) polls) ends in
    ((numbers_of r.0, some r.1), ap numbers_after e)
