-- ===== src/Base/Panics.antt =====
-- What a Go function that indexes and slices does: it returns, or it panics. `stuck` says that a
-- loop ran out of the fuel that the model gives it.
use Prim.Native.Nat.{ℕ, ◌-◌, ◌≤◌, ◌<◌}
use mathlib.Core.Path.{◌≡◌, refl}
use mathlib.Core.Bool.{Bool, true, false, ◌&&◌}
use mathlib.Core.List.{List}
use mathlib.Core.Option.{none, some}
use native.Mathlib.Omega.{arith}
use gecit_unofficial.Base.Tests.{leb, if◌then◌else◌}
use gecit_unofficial.Base.Lists.{length, get_elem?, get_or, take, drop, get_elem?_lt}

pub data Outcome {ℓ} (A : Type ℓ) : Type ℓ where
  ok : A → Outcome A
  panic : Outcome A
  stuck : Outcome A

infixl 5 ◌>>=◌
abbrev pub ◌>>=◌ {ℓ κ} : {A : Type ℓ} {B : Type κ} → Outcome A → (A → Outcome B) → Outcome B
ok a >>= f = f a
panic >>= f = panic
stuck >>= f = stuck

-- `xs[i]`
unfoldable pub index : List ℕ → ℕ → Outcome ℕ
index xs i = elim (get_elem? xs i) [ none ↦ panic | some x ↦ ok x ]

-- `xs[lo:hi]`, for a slice whose capacity is its length
unfoldable pub slice : List ℕ → ℕ → ℕ → Outcome (List ℕ)
slice xs lo hi = if leb lo hi && leb hi (length xs) then ok (take (hi - lo) (drop lo xs)) else panic

pub index_lem : (xs : List ℕ) (i : ℕ) → i < length xs → index xs i ≡ ok (get_or xs i 0)
unfolding index
index_lem xs i h = rw (get_elem?_lt xs i 0 h, index)

pub slice_lem :
    (xs : List ℕ) (lo hi : ℕ)
    → lo ≤ hi
    → hi ≤ length xs
    → slice xs lo hi ≡ ok (take (hi - lo) (drop lo xs))
unfolding slice
slice_lem xs lo hi h k = ground arith

abbrev pub is_ok {ℓ} : {A : Type ℓ} → Outcome A → Bool
is_ok (ok a) = true
is_ok panic = false
is_ok stuck = false

pub is_ok→Returns {ℓ} : {A : Type ℓ} (o : Outcome A) → is_ok o ≡ true → (a : A) × (o ≡ ok a)
is_ok→Returns (ok a) h = (a, refl)
is_ok→Returns panic h = cc
is_ok→Returns stuck h = cc

pub bind-ok {ℓ κ} :
    {A : Type ℓ} {B : Type κ} (o : Outcome A) (f : A → Outcome B) (b : B)
    → (o >>= f) ≡ ok b
    → (a : A) × (o ≡ ok a) × (f a ≡ ok b)
bind-ok (ok a) f b h = (a, refl, h)
bind-ok panic f b h = absurd (ground (arith, h))
bind-ok stuck f b h = absurd (ground (arith, h))

pub ok-injective {ℓ} : {A : Type ℓ} (a b : A) → ok a ≡ ok b → a ≡ b
ok-injective a b h = cc
