-- ===== src/Capture/Loop.antt =====
-- pkg/capture/capture_darwin.go: the goroutine of Start. A round is one turn of its loop: whether
-- done is closed by then, what NextPacket gives (`none` for an error), and whether done is closed
-- behind the error.
use gecit_unofficial.Base.{
  ℕ, ◌≡◌, refl, Bool, Option, none, some, List, [], ◌∷◌, arith, if◌then◌else◌,
}
use gecit_unofficial.Capture.Packet.{Captured, capture_packet, captured}
use gecit_unofficial.Rawsock.Packet.{ConnInfo}

pub record ReadRound : Type 0 where
  pub is_done : Bool
  pub packet : Option Captured
  pub is_done_after : Bool

-- The events that cb is called with, in order
unfoldable pub capture_loop : List ℕ → List ReadRound → List ConnInfo
capture_loop ports [] = []
capture_loop ports (r ∷ rs) =
    let rest = capture_loop ports rs in
    if r.is_done then [] else elim r.packet [
      | none ↦ if r.is_done_after then [] else rest
      | some packet ↦ elim (capture_packet ports packet) [ none ↦ rest | some evt ↦ evt ∷ rest ]
    ]

-- The packets of the rounds before done is seen to be closed
unfoldable pub read_packets : List ReadRound → List Captured
read_packets [] = []
read_packets (r ∷ rs) =
    let rest = read_packets rs in
    if r.is_done
    then []
    else elim r.packet [ none ↦ if r.is_done_after then [] else rest | some packet ↦ packet ∷ rest ]

-- The loop hands on the events of the packets that are read before Stop, and failed reads lose none
-- of them.
pub capture_loop-captured :
    (ports : List ℕ) (rounds : List ReadRound)
    → capture_loop ports rounds ≡ captured ports (read_packets rounds)
unfolding capture_loop read_packets captured
capture_loop-captured ports [] = refl
capture_loop-captured ports (r ∷ rs) = ground (arith, capture_loop-captured ports rs)
