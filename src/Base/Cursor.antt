-- ===== src/Base/Cursor.antt =====
-- A position in a byte list, with what stands behind it.
use Prim.Native.Nat.{ℕ, zero, suc, ◌+◌}
use mathlib.Core.Path.{◌≡◌, refl, ap, ◌∙◌}
use mathlib.Core.List.{List, [], ◌∷◌, ◌++◌}
use native.Mathlib.Omega.{arith}
use gecit_unofficial.Base.Lists.{
  length, get_or, drop, take, length-append, drop-append, take-append, take_all, get_or-drop,
}
use gecit_unofficial.Base.Panics.{ok, index, slice, index_lem, slice_lem}

-- `rest` is what `xs` holds from position `place` on.
pub record At (xs : List ℕ) (place : ℕ) (rest : List ℕ) : Type 0 where
  pub rest_is : drop place xs ≡ rest
  pub length_is : length xs ≡ place + length rest

pub drop-add : (xs : List ℕ) (m n : ℕ) → drop (m + n) xs ≡ drop n (drop m xs)
drop-add xs zero n = ap (λ k. drop k xs) (omega arith)
drop-add [] (suc m) zero = let e : suc m + 0 ≡ suc m = omega arith in rw e refl
drop-add [] (suc m) (suc n) = let e : suc m + suc n ≡ suc (m + suc n) = omega arith in rw e refl
drop-add (x ∷ xs) (suc m) n =
    let e : suc m + n ≡ suc (m + n) = omega arith in rw e (drop-add xs m n)

pub At-start : (xs : List ℕ) → At xs 0 xs
At-start xs = record { rest_is = refl; length_is = omega arith }

-- Moving over a segment `ys` of length `n`.
pub At-skip :
    (xs ys rest : List ℕ) (place n : ℕ)
    → At xs place (ys ++ rest)
    → n ≡ length ys
    → At xs (place + n) rest
At-skip xs ys rest place n a e = record {
  rest_is = drop-add xs place n ∙ ap (drop n) a.rest_is ∙ drop-append ys rest n e;
  length_is = omega (arith, a.length_is, length-append ys rest);
}

pub At-tail :
    (xs : List ℕ) (x : ℕ) (rest : List ℕ) (place : ℕ)
    → At xs place (x ∷ rest)
    → At xs (place + 1) rest
At-tail xs x rest place a = At-skip xs (x ∷ []) rest place 1 a refl

pub index-At :
    (xs : List ℕ) (x : ℕ) (rest : List ℕ) (place : ℕ)
    → At xs place (x ∷ rest)
    → index xs place ≡ ok x
index-At xs x rest place a = index_lem xs place (omega (arith, a.length_is)) ∙ ap ok read
  where
    read : get_or xs place 0 ≡ x
    read =
        ap (λ k. get_or xs k 0) (omega arith)
        ∙ get_or-drop xs place 0 0
        ∙ ap (λ l. get_or l 0 0) a.rest_is

pub slice-At :
    (xs ys rest : List ℕ) (place hi : ℕ)
    → At xs place (ys ++ rest)
    → hi ≡ place + length ys
    → slice xs place hi ≡ ok ys
slice-At xs ys rest place hi a e =
    slice_lem xs place hi (omega arith) (omega (arith, a.length_is, length-append ys rest))
    ∙ ap ok (ap (take _) a.rest_is ∙ take-append ys rest _ (omega arith))

pub slice_end-At :
    (xs rest : List ℕ) (place : ℕ) → At xs place rest → slice xs place (length xs) ≡ ok rest
slice_end-At xs rest place a =
    slice_lem xs place (length xs) (omega (arith, a.length_is)) (omega arith)
    ∙ ap ok (ap (take _) a.rest_is ∙ take_all rest _ (omega (arith, a.length_is)))
