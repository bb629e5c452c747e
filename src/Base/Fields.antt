-- ===== src/Base/Fields.antt =====
-- strings.Fields: the words of a text, and what trimming and joining do to them.
use Prim.Native.Nat.{ℕ}
use mathlib.Core.Path.{◌≡◌, refl, ap, sym, ◌∙◌}
use mathlib.Core.Bool.{true, false}
use mathlib.Core.Logic.{◌⊎◌, inl, inr}
use mathlib.Core.List.{List, [], ◌∷◌, ◌++◌}
use native.Mathlib.Omega.{arith}
use gecit_unofficial.Base.Lists.{All}
use gecit_unofficial.Base.Tests.{Bool-cases}
use gecit_unofficial.Base.Strings.{Text, is_empty, is_space, trim_left, trim_right, trim_space}
use gecit_unofficial.Base.Texts.{onto_first, pieces, drop_empty, fields, IsSolid, IsWordText}

-- The words of a text are the word it begins with, up to the white space behind it, and the rest's.
pieces_word :
    (w : Text) (c : ℕ) (rest : Text)
    → IsSolid w
    → is_space c ≡ true
    → pieces (w ++ c ∷ rest) ≡ w ∷ pieces rest
unfolding pieces
pieces_word [] c rest h k = ground (arith, k)
pieces_word (d ∷ w) c rest h k = ground (arith, h.0, pieces_word w c rest h.1 k)

pub fields_word :
    (w : Text) (c : ℕ) (rest : Text)
    → IsWordText w
    → is_space c ≡ true
    → fields (w ++ c ∷ rest) ≡ w ∷ fields rest
unfolding fields drop_empty
fields_word w c rest h k = rw (pieces_word w c rest h.1 k) (ground (arith, h.0))

pieces_last : (w : Text) → IsSolid w → pieces w ≡ w ∷ []
unfolding pieces
pieces_last [] h = refl
pieces_last (d ∷ w) h = ground (arith, h.0, pieces_last w h.1)

pub fields_last : (w : Text) → IsWordText w → fields w ≡ w ∷ []
unfolding fields drop_empty
fields_last w h = rw (pieces_last w h.1) (ground (arith, h.0))

pub fields_space : (c : ℕ) (s : Text) → is_space c ≡ true → fields (c ∷ s) ≡ fields s
unfolding fields pieces drop_empty
fields_space c s h = ground (arith, h)

-- Trimming takes no word away.
pub fields-trim_left : (s : Text) → fields (trim_left s) ≡ fields s
unfolding trim_left
fields-trim_left [] = refl
fields-trim_left (c ∷ s) = elim (Bool-cases (is_space c)) [
  | inl e ↦ rw e (fields-trim_left s ∙ (sym (fields_space c s e)))
  | inr e ↦ rw e refl
]

abbrev head_of : List Text → Text
head_of [] = []
head_of (l ∷ ls) = l

abbrev rest_of : List Text → List Text
rest_of [] = []
rest_of (l ∷ ls) = ls

-- The first piece is the same, and so are the others that are not empty.
abbrev SamePieces : List Text → List Text → Type 0
SamePieces ls ms = (head_of ls ≡ head_of ms) × (drop_empty (rest_of ls) ≡ drop_empty (rest_of ms))

abbrev HasFirst : List Text → Type 0
HasFirst [] = ⊥
HasFirst (l ∷ ls) = Unit

onto_first-HasFirst : (c : ℕ) (ls : List Text) → HasFirst (onto_first c ls)
onto_first-HasFirst c [] = tt
onto_first-HasFirst c (l ∷ ls) = tt

pieces-HasFirst : (s : Text) → HasFirst (pieces s)
unfolding pieces
pieces-HasFirst [] = tt
pieces-HasFirst (c ∷ s) = elim (Bool-cases (is_space c)) [
  | inl e ↦ rw e tt
  | inr e ↦ rw e (onto_first-HasFirst c (pieces s))
]

same_words :
    (ls ms : List Text)
    → HasFirst ls
    → HasFirst ms
    → SamePieces ls ms
    → drop_empty ls ≡ drop_empty ms
unfolding drop_empty
same_words [] ms h k e = absurd h
same_words (l ∷ ls) [] h k e = absurd k
same_words (l ∷ ls) (m ∷ ms) h k e = ground (arith, e)

onto_first-SamePieces :
    (c : ℕ) (ls ms : List Text)
    → HasFirst ls
    → HasFirst ms
    → SamePieces ls ms
    → SamePieces (onto_first c ls) (onto_first c ms)
onto_first-SamePieces c [] ms h k e = absurd h
onto_first-SamePieces c (l ∷ ls) [] h k e = absurd k
onto_first-SamePieces c (l ∷ ls) (m ∷ ms) h k e = (ap (◌∷◌ c) e.0, e.1)

pieces-trim_right : (s : Text) → SamePieces (pieces (trim_right s)) (pieces s)
unfolding pieces trim_right drop_empty
pieces-trim_right [] = (refl, refl)
pieces-trim_right (c ∷ s) =
    let ih = pieces-trim_right s in
    let words =
      same_words (pieces (trim_right s)) (pieces s) (pieces-HasFirst (trim_right s))
        (pieces-HasFirst s) ih in
    elim (Bool-cases (is_space c)) [
      | inr e ↦ rw e (
          rw e (
            onto_first-SamePieces c (pieces (trim_right s)) (pieces s)
              (pieces-HasFirst (trim_right s)) (pieces-HasFirst s) ih))
      | inl e ↦ elim (empty_cases (trim_right s)) [
        | inl gone ↦ rw (e, gone) (refl, rw gone at words)
        | inr stays ↦ rw (e, stays) (rw e (refl, words))
      ]
    ]
  where
    empty_cases : (t : Text) → (t ≡ []) ⊎ (is_empty t ≡ false)
    empty_cases [] = inl refl
    empty_cases (d ∷ t) = inr refl

pub fields-trim_space : (s : Text) → fields (trim_space s) ≡ fields s
unfolding trim_space fields
fields-trim_space s =
    same_words (pieces (trim_right (trim_left s))) (pieces (trim_left s))
      (pieces-HasFirst (trim_right (trim_left s))) (pieces-HasFirst (trim_left s))
      (pieces-trim_right (trim_left s))
    ∙ fields-trim_left s

-- White space between two texts keeps their words apart.
onto_first-append :
    (c : ℕ) (ls ms : List Text) → HasFirst ls → onto_first c (ls ++ ms) ≡ onto_first c ls ++ ms
onto_first-append c [] ms h = absurd h
onto_first-append c (l ∷ ls) ms h = refl

pieces-append :
    (s : Text) (c : ℕ) (t : Text) → is_space c ≡ true → pieces (s ++ c ∷ t) ≡ pieces s ++ pieces t
unfolding pieces
pieces-append [] c t h = ground (arith, h)
pieces-append (d ∷ s) c t h =
    let ih = pieces-append s c t h in
    elim (Bool-cases (is_space d)) [
      | inl e ↦ rw e (ap (◌∷◌ []) ih)
      | inr e ↦
          rw e
            (ap (onto_first d) ih ∙ onto_first-append d (pieces s) (pieces t) (pieces-HasFirst s))
    ]

drop_empty-append : (ls ms : List Text) → drop_empty (ls ++ ms) ≡ drop_empty ls ++ drop_empty ms
unfolding drop_empty
drop_empty-append [] ms = refl
drop_empty-append (l ∷ ls) ms = ground (arith, drop_empty-append ls ms)

pub fields-append :
    (s : Text) (c : ℕ) (t : Text) → is_space c ≡ true → fields (s ++ c ∷ t) ≡ fields s ++ fields t
unfolding fields
fields-append s c t h =
    ap drop_empty (pieces-append s c t h) ∙ drop_empty-append (pieces s) (pieces t)

-- The words of a text are words.
onto_first-IsSolid :
    (c : ℕ) (ls : List Text) → is_space c ≡ false → All IsSolid ls → All IsSolid (onto_first c ls)
onto_first-IsSolid c [] h k = ((h, tt), tt)
onto_first-IsSolid c (l ∷ ls) h k = ((h, k.0), k.1)

pieces-IsSolid : (s : Text) → All IsSolid (pieces s)
unfolding pieces
pieces-IsSolid [] = (tt, tt)
pieces-IsSolid (c ∷ s) = elim (Bool-cases (is_space c)) [
  | inl e ↦ rw e (tt, pieces-IsSolid s)
  | inr e ↦ rw e (onto_first-IsSolid c (pieces s) e (pieces-IsSolid s))
]

drop_empty-IsWordText : (ls : List Text) → All IsSolid ls → All IsWordText (drop_empty ls)
unfolding drop_empty
drop_empty-IsWordText [] h = tt
drop_empty-IsWordText (l ∷ ls) h = elim (Bool-cases (is_empty l)) [
  | inl e ↦ rw e (drop_empty-IsWordText ls h.1)
  | inr e ↦ rw e ((e, h.0), drop_empty-IsWordText ls h.1)
]

pub fields-IsWordText : (s : Text) → All IsWordText (fields s)
unfolding fields
fields-IsWordText s = drop_empty-IsWordText (pieces s) (pieces-IsSolid s)

trim_right-IsSolid : (s : Text) → IsSolid s → trim_right s ≡ s
unfolding trim_right
trim_right-IsSolid [] h = refl
trim_right-IsSolid (c ∷ s) h = ground (arith, h.0, trim_right-IsSolid s h.1)

trim_left-IsSolid : (s : Text) → IsSolid s → trim_left s ≡ s
unfolding trim_left
trim_left-IsSolid [] h = refl
trim_left-IsSolid (c ∷ s) h = ground (arith, h.0)

pub trim_space-IsSolid : (s : Text) → IsSolid s → trim_space s ≡ s
unfolding trim_space
trim_space-IsSolid s h = ap trim_right (trim_left-IsSolid s h) ∙ trim_right-IsSolid s h
