-- ===== src/Base/Strings.antt =====
-- Texts as lists of code points, and what the program uses of Go's package strings.
use Prim.Native.Nat.{ℕ}
use Prim.Native.Char.{code}
use Prim.Native.String.{String}
use mathlib.Core.Path.{◌≡◌, refl}
use mathlib.Core.Bool.{Bool, true, false, not, ◌&&◌, ◌||◌}
use mathlib.Core.Logic.{◌↔◌, inl, inr}
use mathlib.Core.List.{List, [], ◌∷◌, ◌++◌}
use native.Mathlib.Omega.{arith}
use gecit_unofficial.Base.Tests.{leb, ◌==◌, if◌then◌else◌, Bool-cases}

abbrev pub Text : Type 0
Text = List ℕ

abbrev pub codes : String → Text
codes String.[] = []
codes (String.◌∷◌ c s) = code c ∷ codes s

-- s == t
unfoldable pub text_eq : Text → Text → Bool
text_eq [] [] = true
text_eq [] (d ∷ t) = false
text_eq (c ∷ s) [] = false
text_eq (c ∷ s) (d ∷ t) = c == d && text_eq s t

pub text_eq→eq : (s t : Text) → text_eq s t ≡ true → s ≡ t
unfolding text_eq
text_eq→eq [] [] h = refl
text_eq→eq [] (d ∷ t) h = cc
text_eq→eq (c ∷ s) [] h = cc
text_eq→eq (c ∷ s) (d ∷ t) h = ground (arith, text_eq→eq s t)

pub text_eq_refl : (s : Text) → text_eq s s ≡ true
unfolding text_eq
text_eq_refl [] = refl
text_eq_refl (c ∷ s) = ground (arith, text_eq_refl s)

pub text_eq_iff : (s t : Text) → (text_eq s t ≡ true) ↔ (s ≡ t)
text_eq_iff s t = (text_eq→eq s t, λ e. rw (← e) (text_eq_refl s))

abbrev pub is_empty : Text → Bool
is_empty [] = true
is_empty (c ∷ s) = false

-- unicode.IsSpace
unfoldable pub is_space : ℕ → Bool
is_space c =
    ((leb 9 c && leb c 13) || c == 32 || c == 0x85 || c == 0xA0 || c == 0x1680)
    || (leb 0x2000 c && leb c 0x200a)
    || (c == 0x2028 || c == 0x2029 || c == 0x202f || c == 0x205f || c == 0x3000)

unfoldable pub trim_left : Text → Text
trim_left [] = []
trim_left (c ∷ s) = if is_space c then trim_left s else c ∷ s

unfoldable pub trim_right : Text → Text
trim_right [] = []
trim_right (c ∷ s) = let rest = trim_right s in if is_space c && is_empty rest then [] else c ∷ rest

-- strings.TrimSpace
unfoldable pub trim_space : Text → Text
trim_space s = trim_right (trim_left s)

-- strings.HasPrefix
unfoldable pub has_prefix : Text → Text → Bool
has_prefix [] s = true
has_prefix (p ∷ ps) [] = false
has_prefix (p ∷ ps) (c ∷ s) = p == c && has_prefix ps s

unfoldable pub drop_prefix : Text → Text → Text
drop_prefix [] s = s
drop_prefix (p ∷ ps) [] = []
drop_prefix (p ∷ ps) (c ∷ s) = drop_prefix ps s

-- strings.TrimPrefix
unfoldable pub trim_prefix : Text → Text → Text
trim_prefix p s = if has_prefix p s then drop_prefix p s else s

pub has_prefix-append : (p s : Text) → has_prefix p (p ++ s) ≡ true
unfolding has_prefix
has_prefix-append [] s = refl
has_prefix-append (c ∷ p) s = ground (arith, has_prefix-append p s)

pub drop_prefix-append : (p s : Text) → drop_prefix p (p ++ s) ≡ s
unfolding drop_prefix
drop_prefix-append [] s = refl
drop_prefix-append (c ∷ p) s = drop_prefix-append p s

-- The head of a text that TrimSpace leaves is no space.
abbrev pub head_solid : Text → Bool
head_solid [] = true
head_solid (c ∷ s) = not (is_space c)

trim_left-solid : (s : Text) → head_solid (trim_left s) ≡ true
unfolding trim_left
trim_left-solid [] = refl
trim_left-solid (c ∷ s) = ground (arith, trim_left-solid s)

trim_left_of_solid : (s : Text) → head_solid s ≡ true → trim_left s ≡ s
unfolding trim_left
trim_left_of_solid [] h = refl
trim_left_of_solid (c ∷ s) h = ground arith

pub trim_right_idem : (s : Text) → trim_right (trim_right s) ≡ trim_right s
unfolding trim_right
trim_right_idem [] = refl
trim_right_idem (c ∷ s) = elim (Bool-cases (is_space c && is_empty (trim_right s))) [
  | inl e ↦ rw (e, trim_right) refl
  | inr e ↦ rw (e, trim_right) (rw (trim_right_idem s, e) refl)
]

trim_right-solid : (s : Text) → head_solid s ≡ true → head_solid (trim_right s) ≡ true
unfolding trim_right
trim_right-solid [] h = refl
trim_right-solid (c ∷ s) h = ground arith

pub trim_space-solid : (s : Text) → head_solid (trim_space s) ≡ true
unfolding trim_space
trim_space-solid s = trim_right-solid (trim_left s) (trim_left-solid s)

-- Trimming twice is trimming once.
pub trim_space_idem : (s : Text) → trim_space (trim_space s) ≡ trim_space s
unfolding trim_space
trim_space_idem s =
    rw
      (trim_left_of_solid (trim_right (trim_left s))
        (trim_right-solid (trim_left s) (trim_left-solid s)))
      (trim_right_idem (trim_left s))
