-- ===== src/Dns/Lines.antt =====
-- Lines of a text: split undoes join, and TrimSpace at a line that begins with a solid prefix.
use gecit_unofficial.Base.{
  ℕ, ◌≡◌, refl, ap, ◌∙◌, ◌≢◌, inl, inr, false, ◌&&◌, List, [], ◌∷◌, ◌++◌, arith, ◌==◌, Bool-cases,
  All, Text, is_empty, is_space, trim_left, trim_right, trim_space, trim_right_idem, onto_first,
  split, join,
}
use gecit_unofficial.Dns.System.{file_of}
use mathlib.Core.List.{append_assoc}

-- No newline in a line.
abbrev pub IsLine : Text → Type 0
IsLine = All (λ c. c ≢ 10)

onto_first-IsLine : (c : ℕ) (ls : List Text) → c ≢ 10 → All IsLine ls → All IsLine (onto_first c ls)
onto_first-IsLine c [] h a = ((h, tt), tt)
onto_first-IsLine c (l ∷ ls) h a = ((h, a.0), a.1)

pub split-IsLine : (s : Text) → All IsLine (split 10 s)
unfolding split
split-IsLine [] = (tt, tt)
split-IsLine (c ∷ s) = elim (Bool-cases (c == 10)) [
  | inl e ↦ rw e (tt, split-IsLine s)
  | inr e ↦ rw e (onto_first-IsLine c (split 10 s) (ground (arith, e)) (split-IsLine s))
]

split_line : (l : Text) (rest : Text) → IsLine l → split 10 (l ++ 10 ∷ rest) ≡ l ∷ split 10 rest
unfolding split
split_line [] rest h = refl
split_line (c ∷ l) rest h =
    let other : (c == 10) ≡ false = ground (arith, h) in rw (other, split_line l rest h.1) refl

-- The lines of a file that was joined from lines, with the empty one behind the last newline.
pub split-file_of :
    (l : Text) (ls : List Text)
    → IsLine l
    → All IsLine ls
    → split 10 (file_of (l ∷ ls)) ≡ (l ∷ ls) ++ [] ∷ []
unfolding join split
split-file_of l [] h a = split_line l [] h
split-file_of l (m ∷ ls) h a =
    rw (append_assoc l (10 ∷ join 10 (m ∷ ls)) (10 ∷ []))
      (split_line l (file_of (m ∷ ls)) h ∙ ap (◌∷◌ l) (split-file_of m ls a.0 a.1))

trim_left-IsLine : (s : Text) → IsLine s → IsLine (trim_left s)
unfolding trim_left
trim_left-IsLine [] h = h
trim_left-IsLine (c ∷ s) h = elim (Bool-cases (is_space c)) [
  | inl e ↦ rw e (trim_left-IsLine s h.1)
  | inr e ↦ rw e h
]

trim_right-IsLine : (s : Text) → IsLine s → IsLine (trim_right s)
unfolding trim_right
trim_right-IsLine [] h = h
trim_right-IsLine (c ∷ s) h = elim (Bool-cases (is_space c && is_empty (trim_right s))) [
  | inl e ↦ rw e tt
  | inr e ↦ rw e (h.0, trim_right-IsLine s h.1)
]

pub trim_space-IsLine : (s : Text) → IsLine s → IsLine (trim_space s)
unfolding trim_space
trim_space-IsLine s h = trim_right-IsLine (trim_left s) (trim_left-IsLine s h)

not_empty_behind : (p s : Text) → is_empty s ≡ false → is_empty (p ++ s) ≡ false
not_empty_behind [] s h = h
not_empty_behind (c ∷ p) s h = refl

trim_right_behind :
    (p s : Text) → is_empty (trim_right s) ≡ false → trim_right (p ++ s) ≡ p ++ trim_right s
unfolding trim_right
trim_right_behind [] s h = refl
trim_right_behind (c ∷ p) s h =
    ground (arith, trim_right_behind p s h, not_empty_behind p (trim_right s) h)

-- A solid prefix before a trimmed text that is not empty stands as it is.
pub trim_space_behind :
    (c : ℕ) (p s : Text)
    → is_space c ≡ false
    → is_empty (trim_space s) ≡ false
    → trim_space (c ∷ (p ++ trim_space s)) ≡ c ∷ (p ++ trim_space s)
unfolding trim_space trim_left
trim_space_behind c p s solid filled =
    let idem : trim_right (trim_space s) ≡ trim_space s = trim_right_idem (trim_left s) in
    rw solid
      (trim_right_behind (c ∷ p) (trim_space s) (rw idem filled) ∙ ap (λ t. c ∷ (p ++ t)) idem)
