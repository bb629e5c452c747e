-- ===== src/Tun/Deadlines.antt =====
-- pkg/tun/handler.go: the two goroutines of pipe with the deadlines of the two connections, in any
-- order of their steps. A Read may give neither bytes nor an error. A Read or a Write of a
-- connection fails while its deadline is past, as documented in net.Conn; SetReadDeadline arms the
-- reads alone, SetDeadline(time.Now()) expires both.
use gecit_unofficial.Base.{
  ◌≡◌, Bool, true, false, ◌||◌, Option, none, some, if◌then◌else◌, ℕ, suc, ◌⊎◌, List, [], ◌∷◌,
}

-- Where a run of cp stands: about to set the read deadline, in Read, in Write (of a Read without
-- and with an error), and behind the loop.
pub data Pc : Type 0 where
  arming reading writing writing_last closing_a closing_b finished : Pc

pub record Pipe : Type 0 where
  -- cp(b, a) and cp(a, b)
  pub forward : Pc
  pub backward : Pc
  -- the deadlines that are past
  pub read_a : Bool
  pub write_a : Bool
  pub read_b : Bool
  pub write_b : Bool

pub data Side : Type 0 where
  from_a from_b : Side

pub data PipeEvent : Type 0 where
  set_read_deadline : PipeEvent
  read_data : PipeEvent
  read_nothing : PipeEvent
  read_data_and_error : PipeEvent
  read_error : PipeEvent
  write_done : PipeEvent
  write_error : PipeEvent
  set_deadline_a : PipeEvent
  set_deadline_b : PipeEvent

abbrev pub started : Pipe
started = record {
  forward = arming;
  backward = arming;
  read_a = false;
  write_a = false;
  read_b = false;
  write_b = false;
}

abbrev pub pc_of : Side → Pipe → Pc
pc_of from_a s = s.forward
pc_of from_b s = s.backward

abbrev pub at_pc : Side → Pc → Pipe → Pipe
at_pc from_a pc s = record s { forward = pc }
at_pc from_b pc s = record s { backward = pc }

abbrev pub src_expired : Side → Pipe → Bool
src_expired from_a s = s.read_a
src_expired from_b s = s.read_b

abbrev pub dst_expired : Side → Pipe → Bool
dst_expired from_a s = s.write_b
dst_expired from_b s = s.write_a

abbrev pub arm_read : Side → Pipe → Pipe
arm_read from_a s = record s { read_a = false }
arm_read from_b s = record s { read_b = false }

abbrev pub unless : Bool → Pipe → Option Pipe
unless b s = if b then none else some s

-- One step of a side; `none` where it cannot be taken.
unfoldable pub step_pc : Side → Pc → PipeEvent → Pipe → Option Pipe
step_pc d arming set_read_deadline s = some (at_pc d reading (arm_read d s))
step_pc d reading read_data s = unless (src_expired d s) (at_pc d writing s)
step_pc d reading read_nothing s = unless (src_expired d s) (at_pc d arming s)
step_pc d reading read_data_and_error s = unless (src_expired d s) (at_pc d writing_last s)
step_pc d reading read_error s = some (at_pc d closing_a s)
step_pc d writing write_done s = unless (dst_expired d s) (at_pc d arming s)
step_pc d writing write_error s = some (at_pc d closing_a s)
step_pc d writing_last write_done s = unless (dst_expired d s) (at_pc d closing_a s)
step_pc d writing_last write_error s = some (at_pc d closing_a s)
step_pc d closing_a set_deadline_a s =
    some (at_pc d closing_b (record s { read_a = true; write_a = true }))
step_pc d closing_b set_deadline_b s =
    some (at_pc d finished (record s { read_b = true; write_b = true }))
step_pc d pc e s = none

unfoldable pub pipe_step : Side → PipeEvent → Pipe → Option Pipe
pipe_step d e s = step_pc d (pc_of d s) e s

-- The states that some order of steps leads to
pub data Reaches : Pipe → Pipe → Type 0 where
  here : {s : Pipe} → Reaches s s
  then_step :
      {s t u : Pipe} (d : Side) (e : PipeEvent)
      → Reaches s t
      → pipe_step d e t ≡ some u
      → Reaches s u

-- A side that has expired a, and one that has expired both
abbrev after_a : Pc → Bool
after_a closing_b = true
after_a finished = true
after_a pc = false

abbrev after_b : Pc → Bool
after_b finished = true
after_b pc = false

abbrev AreExpired : Pipe → Type 0
AreExpired s =
    ((after_a s.forward || after_a s.backward) ≡ true → s.write_a ≡ true)
    × ((after_b s.forward || after_b s.backward) ≡ true → s.write_b ≡ true)

abbrev pub opposite : Side → Side
opposite from_a = from_b
opposite from_b = from_a

-- How many steps a side may still take once it cannot write, a Read that gives nothing not
-- counted: in Read, three where its deadline is past.
abbrev pub left : Side → Pipe → ℕ
left d s = elim (pc_of d s) [
  | arming ↦ 6
  | reading ↦ if src_expired d s then 3 else 5
  | writing ↦ 4
  | writing_last ↦ 4
  | closing_a ↦ 2
  | closing_b ↦ 1
  | finished ↦ 0
]

-- The steps of one side alone
unfoldable pub run_side : Side → List PipeEvent → Pipe → Option Pipe
run_side d [] s = some s
run_side d (e ∷ es) s = elim (pipe_step d e s) [ none ↦ none | some t ↦ run_side d es t ]

abbrev pub empty_reads : List PipeEvent → ℕ
empty_reads [] = 0
empty_reads (read_nothing ∷ es) = suc (empty_reads es)
empty_reads (e ∷ es) = empty_reads es

-- A side has ended, or a step of it can be taken.
abbrev pub CanGoOn : Side → Pipe → Type 0
CanGoOn d s = (pc_of d s ≡ finished) ⊎ ((e : PipeEvent) × (t : Pipe) × (pipe_step d e s ≡ some t))

-- What a step costs
abbrev allowance : PipeEvent → ℕ
allowance read_nothing = 1
allowance e = 0
