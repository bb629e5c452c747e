-- ===== src/Fake/Layout.antt =====
-- What the builder writes, as one flat layout: each helper appends a segment that does not depend
-- on what stands before it.
use mathlib.Core.List.{append_assoc, append-nil}
use gecit_unofficial.Base.{
  ℕ, zero, suc, ◌+◌, ◌*◌, ◌==◌, if◌then◌else◌, Bool, Option, none, some, List, [], ◌∷◌, ◌++◌, ◌≡◌,
  refl, ap, ◌∙◌, arith, length, u16, Bytes, put_uint16, bit_xor, sym, inl, inr, ltb, Option-cases,
}
use gecit_unofficial.Fake.Wire.{
  xorshift_fill, random_fill, fill_bytes, append_uint16, append_each, append_extension,
  append_uint16_list, uint16_vector, server_name_extension, alpn_extension, version_extension,
  key_share_extension,
}
use gecit_unofficial.Fake.Hello.{
  ext_server_name, ext_supported_groups, ext_ec_point_formats, ext_signature_algs, ext_alpn,
  ext_supported_versions, ext_psk_modes, ext_key_share, ClientHelloProfile, Reads, add_extension,
  add_extensions, build_body,
}

length-xorshift_fill : (n s : ℕ) → length (xorshift_fill n s) ≡ n
unfolding xorshift_fill
length-xorshift_fill zero s = refl
length-xorshift_fill (suc n) s = ap suc (length-xorshift_fill n _)

length-random_fill : (n i : ℕ) (f : ℕ → ℕ) → length (random_fill n i f) ≡ n
unfolding random_fill
length-random_fill zero i f = refl
length-random_fill (suc n) i f = ap suc (length-random_fill n (i + 1) f)

-- The buffer is filled whichever source serves.
pub length-fill_bytes :
    (n : ℕ) (use_crypto_random : Bool) (seed : ℕ) (read : Option (ℕ → ℕ))
    → length (fill_bytes n use_crypto_random seed read) ≡ n
unfolding fill_bytes
length-fill_bytes n b seed none =
    ground (arith, length-xorshift_fill n (if seed == 0 then 1 else seed))
length-fill_bytes n b seed (some f) =
    ground (arith, length-random_fill n 0 f, length-xorshift_fill n (if seed == 0 then 1 else seed))

-- The words of a list, two bytes each.
unfoldable pub words : List ℕ → Bytes
words [] = []
words (v ∷ vs) = put_uint16 v ++ words vs

append_each-words : (dst : Bytes) (vs : List ℕ) → append_each dst vs ≡ dst ++ words vs
unfolding append_each append_uint16 words
append_each-words dst [] = sym (append-nil dst)
append_each-words dst (v ∷ vs) =
    append_each-words (dst ++ put_uint16 v) vs ∙ append_assoc dst (put_uint16 v) (words vs)

pub length-words : (vs : List ℕ) → length (words vs) ≡ length vs * 2
unfolding words
length-words [] = refl
length-words (v ∷ vs) = omega (arith, length-words vs)

-- One extension on the wire.
unfoldable pub entry : ℕ → Bytes → Bytes
entry t ext = put_uint16 t ++ (put_uint16 (u16 (length ext)) ++ ext)

append_extension-entry :
    (dst : Bytes) (t : ℕ) (ext : Bytes) → append_extension dst t ext ≡ dst ++ entry t ext
unfolding append_extension append_uint16 entry
append_extension-entry dst t ext = simp append_assoc

pub length-entry : (t : ℕ) (ext : Bytes) → length (entry t ext) ≡ 4 + length ext
unfolding entry
length-entry t ext = omega arith

-- The extensions of a hello, as types with their bodies, and those on the wire.
unfoldable pub encode : List (ℕ × Bytes) → Bytes
encode [] = []
encode ((t, ext) ∷ es) = entry t ext ++ encode es

module _ (profile : ClientHelloProfile) (use_crypto_random : Bool) (seed : ℕ) (rand : Reads) where
  -- What an extension of type `t` holds; `none` where the builder writes nothing.
  unfoldable pub ext_body : ℕ → ℕ → Option Bytes
  ext_body place t =
      if t == ext_server_name
      then some (server_name_extension profile.server_name)
      else if t == ext_supported_groups
      then some (uint16_vector profile.supported_groups)
      else if t == ext_ec_point_formats
      then some (0x01 ∷ 0x00 ∷ [])
      else if t == ext_signature_algs
      then some (uint16_vector profile.signature_algorithms)
      else if t == ext_alpn
      then (if ltb 0 (length profile.alpn) then some (alpn_extension profile.alpn) else none)
      else if t == ext_supported_versions
      then some (version_extension profile.supported_versions)
      else if t == ext_psk_modes
      then some (0x01 ∷ 0x01 ∷ [])
      else if t == ext_key_share
      then some (
          key_share_extension profile.key_share_group
            (fill_bytes 32 use_crypto_random (bit_xor seed 0x165667b19e3779f9) (rand place)))
      else none

  unfoldable pub with_entry : ℕ → Option Bytes → List (ℕ × Bytes) → List (ℕ × Bytes)
  with_entry t none es = es
  with_entry t (some ext) es = (t, ext) ∷ es

  unfoldable pub entries : ℕ → List ℕ → List (ℕ × Bytes)
  entries place [] = []
  entries place (t ∷ order) = with_entry t (ext_body place t) (entries (place + 1) order)

  add_extension-none :
      (place t : ℕ) (acc : Bytes)
      → ext_body place t ≡ none
      → add_extension profile use_crypto_random seed rand place t acc ≡ acc
  unfolding add_extension ext_body
  add_extension-none place t acc h = ground arith

  add_extension-some :
      (place t : ℕ) (acc ext : Bytes)
      → ext_body place t ≡ some ext
      → add_extension profile use_crypto_random seed rand place t acc ≡ append_extension acc t ext
  unfolding add_extension ext_body
  add_extension-some place t acc ext h = ground arith

  pub add_extensions-encode :
      (place : ℕ) (order : List ℕ) (acc : Bytes)
      → add_extensions profile use_crypto_random seed rand place order acc
        ≡ acc ++ encode (entries place order)
  unfolding add_extensions entries encode with_entry
  add_extensions-encode place [] acc = sym (append-nil acc)
  add_extensions-encode place (t ∷ order) acc = elim (Option-cases (ext_body place t)) [
    | inl e ↦
        rw (e, with_entry)
          (rw (add_extension-none place t acc e) (add_extensions-encode (place + 1) order acc))
    | inr (ext, e) ↦
        rw (e, with_entry)
          (rw (add_extension-some place t acc ext e, append_extension-entry)
            (add_extensions-encode (place + 1) order (acc ++ entry t ext)
              ∙ append_assoc acc (entry t ext) _))
  ]

  abbrev pub exts : Bytes
  exts = encode (entries 2 profile.extension_order)

  pub client_random : Bytes
  client_random = fill_bytes 32 use_crypto_random (bit_xor seed 0x9e3779b97f4a7c15) (rand 0)

  pub session_id : Bytes
  session_id = fill_bytes 32 use_crypto_random (bit_xor seed 0xc2b2ae3d27d4eb4f) (rand 1)

  -- The body in one piece.
  pub build_body-layout :
      build_body profile use_crypto_random seed rand
      ≡ (0x03 ∷ 0x03 ∷ client_random)
        ++ (32
            ∷ (session_id
                ++ (put_uint16 (u16 (length profile.cipher_suites * 2))
                    ++ (words profile.cipher_suites
                        ++ (0x01 ∷ 0x00 ∷ (put_uint16 (u16 (length exts)) ++ exts))))))
  unfolding build_body append_uint16_list append_uint16 client_random session_id
  build_body-layout =
      simp (append_each-words, add_extensions-encode, length-fill_bytes, append_assoc)

  pub length-client_random : length client_random ≡ 32
  unfolding client_random
  length-client_random = length-fill_bytes 32 use_crypto_random _ (rand 0)

  pub length-session_id : length session_id ≡ 32
  unfolding session_id
  length-session_id = length-fill_bytes 32 use_crypto_random _ (rand 1)
