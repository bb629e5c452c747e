-- ===== src/App/Flags.antt =====
-- cmd/gecit/app/router.go and run.go: the conversions of list flags.
use gecit_unofficial.Base.{
  ℕ, suc, ◌%◌, ◌≤◌, ◌<◌, ◌≡◌, refl, ap, ◌⊎◌, inl, inr, ◌&&◌, ◌||◌, List, [], ◌∷◌, ◌++◌, arith, leb,
  if◌then◌else◌, length, Text, is_empty, trim_space, split,
}
use gecit_unofficial.Base.Int.{ℤ, pos, negsuc, ltb_ℤ, gtb_ℤ, wrap_int}

-- uint16(value) for the values that are ports
unfoldable pub int_slice_to_ports : List ℤ → List ℕ
int_slice_to_ports [] = []
int_slice_to_ports (value ∷ values) =
    if ltb_ℤ value 1 || gtb_ℤ value 65535
    then int_slice_to_ports values
    else wrap_int 16 value ∷ int_slice_to_ports values

unfoldable pub to_uint16_slice : List ℤ → List ℕ
to_uint16_slice [] = []
to_uint16_slice (value ∷ values) = wrap_int 16 value ∷ to_uint16_slice values

-- The parts of one flag value
unfoldable pub solid_parts : List Text → List Text
solid_parts [] = []
solid_parts (part ∷ parts) =
    if is_empty (trim_space part) then solid_parts parts else trim_space part ∷ solid_parts parts

unfoldable pub split_targets : List Text → List Text
split_targets [] = []
split_targets (target ∷ targets) = solid_parts (split 44 target) ++ split_targets targets

-- The values that are ports, in their order
abbrev pub ports_among : List ℤ → List ℕ
ports_among [] = []
ports_among (negsuc n ∷ vs) = ports_among vs
ports_among (pos n ∷ vs) = if leb 1 n && leb n 65535 then n ∷ ports_among vs else ports_among vs

small_or_big : (n : ℕ) → (n < 65536) ⊎ (65536 ≤ n)
small_or_big n = ground arith

port_kept :
    (n : ℕ) (vs : List ℤ)
    → int_slice_to_ports vs ≡ ports_among vs
    → int_slice_to_ports (pos n ∷ vs) ≡ ports_among (pos n ∷ vs)
unfolding int_slice_to_ports
port_kept n vs kept = elim (small_or_big n) [
  | inl lt ↦ let same : n % 65536 ≡ n = omega arith in ground (arith, lt, same, kept)
  | inr ge ↦ ground (arith, ge, kept)
]

-- intSliceToPorts keeps exactly the values from 1 to 65535, unchanged and in their order;
-- toUint16Slice keeps as many values as it gets.
pub int_slice_to_ports-to_uint16_slice :
    (values : List ℤ)
    → (int_slice_to_ports values ≡ ports_among values)
      × (length (to_uint16_slice values) ≡ length values)
unfolding int_slice_to_ports to_uint16_slice
int_slice_to_ports-to_uint16_slice [] = (refl, refl)
int_slice_to_ports-to_uint16_slice (negsuc n ∷ vs) =
    let (kept, sized) = int_slice_to_ports-to_uint16_slice vs in (kept, ap suc sized)
int_slice_to_ports-to_uint16_slice (pos n ∷ vs) =
    let (kept, sized) = int_slice_to_ports-to_uint16_slice vs in (port_kept n vs kept, ap suc sized)
