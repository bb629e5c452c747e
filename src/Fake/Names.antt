-- ===== src/Fake/Names.antt =====
-- The extensions that a build writes: their types and lengths fit, and the first of type 0 holds
-- the server name.
use gecit_unofficial.Base.{
  ℕ, ◌+◌, ◌<◌, ◌≡◌, inl, inr, Bool, true, false, ◌||◌, Option, none, some, List, [], ◌∷◌, ◌++◌,
  arith, ◌==◌, if◌then◌else◌, Option-cases, length, All, Bytes, length-append,
}
use gecit_unofficial.Fake.Hello.{ext_server_name, ClientHelloProfile, Reads}
use gecit_unofficial.Fake.Layout.{entry, encode, ext_body, with_entry, entries, length-entry}
use gecit_unofficial.Fake.Wire.{server_name_extension}

-- An extension with type and length in 16 bits.
abbrev pub Fits : ℕ × Bytes → Type 0
Fits e = (e.0 < 65536) × (length e.1 < 65536)

-- The body of the first extension of type 0.
unfoldable pub first_name : List (ℕ × Bytes) → Option Bytes
first_name [] = none
first_name ((t, ext) ∷ es) = if t == 0 then some ext else first_name es

-- The profile's order names the server name extension.
unfoldable pub names_server : List ℕ → Bool
names_server [] = false
names_server (t ∷ order) = t == ext_server_name || names_server order

pub first_name-Fits :
    (es : List (ℕ × Bytes)) (ext : Bytes)
    → All Fits es
    → first_name es ≡ some ext
    → length ext < 65536
unfolding first_name
first_name-Fits [] ext fits e = cc
first_name-Fits ((t, x) ∷ es) ext fits e = ground (arith, first_name-Fits es ext fits.1)

Fits-cons :
    (t : ℕ) (ext : Bytes) (es : List (ℕ × Bytes))
    → t < 65536
    → length (entry t ext ++ encode es) < 65536
    → (length (encode es) < 65536 → All Fits es)
    → Fits (t, ext) × All Fits es
Fits-cons t ext es ht h later =
    let total = length-append (entry t ext) (encode es) in
    let own = length-entry t ext in ((ht, omega (arith, total, own)), later (omega (arith, total)))

module _ (profile : ClientHelloProfile) (use_crypto_random : Bool) (seed : ℕ) (rand : Reads) where
  pub entries-Fits :
      (place : ℕ) (order : List ℕ)
      → All (λ t. t < 65536) order
      → length (encode (entries profile use_crypto_random seed rand place order)) < 65536
      → All Fits (entries profile use_crypto_random seed rand place order)
  unfolding entries encode with_entry
  entries-Fits place [] types h = tt
  entries-Fits place (t ∷ order) types h =
      elim (Option-cases (ext_body profile use_crypto_random seed rand place t)) [
        | inl e ↦
            rw (e, with_entry) (entries-Fits (place + 1) order types.1 (rw (e, with_entry) at h))
        | inr (ext, e) ↦
            rw (e, with_entry)
              (Fits-cons t ext _ types.0 (rw (e, with_entry) at h)
                (entries-Fits (place + 1) order types.1))
      ]

  pub first_name-entries :
      (place : ℕ) (order : List ℕ)
      → names_server order ≡ true
      → first_name (entries profile use_crypto_random seed rand place order)
        ≡ some (server_name_extension profile.server_name)
  unfolding entries first_name names_server with_entry ext_body
  first_name-entries place [] h = cc
  first_name-entries place (t ∷ order) h = ground (arith, first_name-entries (place + 1) order)
