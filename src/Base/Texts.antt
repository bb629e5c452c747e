-- ===== src/Base/Texts.antt =====
-- What the program uses of Go's package strings to take texts apart and put them together.
use Prim.Native.Nat.{ℕ}
use mathlib.Core.Path.{◌≡◌}
use mathlib.Core.Bool.{Bool, false, ◌||◌}
use mathlib.Core.List.{List, [], ◌∷◌, ◌++◌}
use gecit_unofficial.Base.Lists.{All}
use gecit_unofficial.Base.Tests.{◌==◌, if◌then◌else◌}
use gecit_unofficial.Base.Strings.{Text, is_empty, is_space, has_prefix}

abbrev pub onto_first : ℕ → List Text → List Text
onto_first c [] = (c ∷ []) ∷ []
onto_first c (l ∷ ls) = (c ∷ l) ∷ ls

-- strings.Split(s, sep) and strings.Join(parts, sep) for a separator of one character
unfoldable pub split : ℕ → Text → List Text
split sep [] = [] ∷ []
split sep (c ∷ s) = let rest = split sep s in if c == sep then [] ∷ rest else onto_first c rest

unfoldable pub join : ℕ → List Text → Text
join sep [] = []
join sep (l ∷ []) = l
join sep (l ∷ m ∷ ls) = l ++ sep ∷ join sep (m ∷ ls)

-- strings.Join for any separator
unfoldable pub join_with : Text → List Text → Text
join_with sep [] = []
join_with sep (l ∷ []) = l
join_with sep (l ∷ m ∷ ls) = l ++ sep ++ join_with sep (m ∷ ls)

-- strings.SplitN(s, sep, 2): the text before the first separator, and the text behind it, if any
abbrev pub onto_pair : ℕ → Text × List Text → Text × List Text
onto_pair c (l, rest) = (c ∷ l, rest)

unfoldable pub split_once : ℕ → Text → Text × List Text
split_once sep [] = ([], [])
split_once sep (c ∷ s) =
    let rest = split_once sep s in if c == sep then ([], s ∷ []) else onto_pair c rest

-- The pieces between white space, empty ones too
unfoldable pub pieces : Text → List Text
pieces [] = [] ∷ []
pieces (c ∷ s) = let rest = pieces s in if is_space c then [] ∷ rest else onto_first c rest

unfoldable pub drop_empty : List Text → List Text
drop_empty [] = []
drop_empty (l ∷ ls) = if is_empty l then drop_empty ls else l ∷ drop_empty ls

-- strings.Fields
unfoldable pub fields : Text → List Text
fields s = drop_empty (pieces s)

-- strings.Contains(s, p)
unfoldable pub contains : Text → Text → Bool
contains [] p = is_empty p
contains (c ∷ s) p = has_prefix p (c ∷ s) || contains s p

-- strings.ReplaceAll for one character
unfoldable pub replace_char : ℕ → ℕ → Text → Text
replace_char a b [] = []
replace_char a b (c ∷ s) = (if c == a then b else c) ∷ replace_char a b s

-- A word: not empty, and no white space in it.
abbrev pub IsSolid : Text → Type 0
IsSolid = All (λ c. is_space c ≡ false)

abbrev pub IsText : Text → Type 0
IsText s = is_empty s ≡ false

abbrev pub IsWordText : Text → Type 0
IsWordText s = IsText s × IsSolid s
