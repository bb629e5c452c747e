-- ===== src/Fake/Hello.antt =====
-- pkg/fake/clienthello.go: the profiles and the builder. A text is the list of its bytes. The
-- bytes that crypto/rand gives are a parameter: `rand k` is the outcome of the read made at place
-- `k` of one build (0 the client random, 1 the session id, 2 and on the extensions in order).
use gecit_unofficial.Base.{
  ℕ, ◌+◌, ◌-◌, ◌%◌, ◌^◌, ◌==◌, ltb, if◌then◌else◌, Bool, true, false, Option, none, some, List, [],
  ◌∷◌, ◌++◌, length, get_elem?, bit_xor, shr, u8, u16, u64, Bytes, Outcome, ok, panic, ◌>>=◌, codes,
}
use gecit_unofficial.Fake.Wire.{
  fill_bytes, append_uint16, append_uint16_list, append_extension, uint16_vector,
  server_name_extension, alpn_extension, version_extension, key_share_extension,
}

abbrev pub ext_server_name : ℕ
ext_server_name = 0x0000

abbrev pub ext_supported_groups : ℕ
ext_supported_groups = 0x000a

abbrev pub ext_ec_point_formats : ℕ
ext_ec_point_formats = 0x000b

abbrev pub ext_signature_algs : ℕ
ext_signature_algs = 0x000d

abbrev pub ext_alpn : ℕ
ext_alpn = 0x0010

abbrev pub ext_supported_versions : ℕ
ext_supported_versions = 0x002b

abbrev pub ext_psk_modes : ℕ
ext_psk_modes = 0x002d

abbrev pub ext_key_share : ℕ
ext_key_share = 0x0033

pub record ClientHelloProfile : Type 0 where
  pub server_name : Bytes
  pub cipher_suites : List ℕ
  pub supported_groups : List ℕ
  pub signature_algorithms : List ℕ
  pub supported_versions : List ℕ
  pub alpn : List Bytes
  pub key_share_group : ℕ
  pub extension_order : List ℕ

abbrev pub Reads : Type 0
Reads = ℕ → Option (ℕ → ℕ)

-- The fake profile, the random source and the seed of one build.
module _ (profile : ClientHelloProfile) (use_crypto_random : Bool) (seed : ℕ) (rand : Reads) where
  -- One round of the loop over `profile.ExtensionOrder`: the switch on the type.
  unfoldable pub add_extension : ℕ → ℕ → Bytes → Bytes
  add_extension place ext_type extensions =
      if ext_type == ext_server_name
      then append_extension extensions ext_type (server_name_extension profile.server_name)
      else if ext_type == ext_supported_groups
      then append_extension extensions ext_type (uint16_vector profile.supported_groups)
      else if ext_type == ext_ec_point_formats
      then append_extension extensions ext_type (0x01 ∷ 0x00 ∷ [])
      else if ext_type == ext_signature_algs
      then append_extension extensions ext_type (uint16_vector profile.signature_algorithms)
      else if ext_type == ext_alpn
      then if ltb 0 (length profile.alpn)
        then append_extension extensions ext_type (alpn_extension profile.alpn)
        else extensions
      else if ext_type == ext_supported_versions
      then append_extension extensions ext_type (version_extension profile.supported_versions)
      else if ext_type == ext_psk_modes
      then append_extension extensions ext_type (0x01 ∷ 0x01 ∷ [])
      else if ext_type == ext_key_share
      then append_extension extensions ext_type (
          key_share_extension profile.key_share_group
            (fill_bytes 32 use_crypto_random (bit_xor seed 0x165667b19e3779f9) (rand place)))
      else extensions

  unfoldable pub add_extensions : ℕ → List ℕ → Bytes → Bytes
  add_extensions place [] extensions = extensions
  add_extensions place (t ∷ order) extensions =
      add_extensions (place + 1) order (add_extension place t extensions)

  -- The ClientHello body.
  unfoldable pub build_body : Bytes
  build_body =
      let client_random =
        fill_bytes 32 use_crypto_random (bit_xor seed 0x9e3779b97f4a7c15) (rand 0) in
      let session_id = fill_bytes 32 use_crypto_random (bit_xor seed 0xc2b2ae3d27d4eb4f) (rand 1) in
      let start : Bytes = 0x03 ∷ 0x03 ∷ [] in
      let with_random = start ++ client_random in
      let with_session = (with_random ++ u8 (length session_id) ∷ []) ++ session_id in
      let with_suites = append_uint16_list with_session profile.cipher_suites in
      let with_compression = with_suites ++ 0x01 ∷ 0x00 ∷ [] in
      let extensions = add_extensions 2 profile.extension_order [] in
      append_uint16 with_compression (u16 (length extensions)) ++ extensions

  unfoldable pub build_client_hello : Bytes
  build_client_hello =
      let body = build_body in
      let handshake =
        (0x01 ∷ u8 (shr (length body) 16) ∷ u8 (shr (length body) 8) ∷ u8 (length body) ∷ [])
        ++ body in
      (0x16 ∷ 0x03 ∷ 0x01 ∷ u8 (shr (length handshake) 8) ∷ u8 (length handshake) ∷ []) ++ handshake

abbrev pub google : ClientHelloProfile
google = record {
  server_name = codes "www.google.com";
  cipher_suites =
      0x1301 ∷ 0x1302 ∷ 0x1303 ∷ 0xc02b ∷ 0xc02f ∷ 0xcca9 ∷ 0xcca8 ∷ 0xc02c ∷ 0xc030 ∷ 0x009e
      ∷ 0x009f ∷ [];
  supported_groups = 0x001d ∷ 0x0017 ∷ 0x0018 ∷ [];
  signature_algorithms = 0x0403 ∷ 0x0804 ∷ 0x0401 ∷ 0x0503 ∷ 0x0805 ∷ 0x0501 ∷ [];
  supported_versions = 0x0304 ∷ 0x0303 ∷ [];
  alpn = codes "h2" ∷ codes "http/1.1" ∷ [];
  key_share_group = 0x001d;
  extension_order =
      ext_server_name ∷ ext_supported_groups ∷ ext_ec_point_formats ∷ ext_signature_algs ∷ ext_alpn
      ∷ ext_supported_versions ∷ ext_psk_modes ∷ ext_key_share ∷ [];
}

abbrev pub cloudflare : ClientHelloProfile
cloudflare = record {
  server_name = codes "www.cloudflare.com";
  cipher_suites =
      0x1301 ∷ 0x1303 ∷ 0x1302 ∷ 0xcca8 ∷ 0xcca9 ∷ 0xc02f ∷ 0xc02b ∷ 0xc030 ∷ 0xc02c ∷ 0x009f
      ∷ 0x009e ∷ [];
  supported_groups = 0x001d ∷ 0x0017 ∷ [];
  signature_algorithms = 0x0804 ∷ 0x0403 ∷ 0x0805 ∷ 0x0503 ∷ 0x0401 ∷ 0x0501 ∷ [];
  supported_versions = 0x0304 ∷ 0x0303 ∷ [];
  alpn = codes "http/1.1" ∷ codes "h2" ∷ [];
  key_share_group = 0x001d;
  extension_order =
      ext_server_name ∷ ext_supported_versions ∷ ext_signature_algs ∷ ext_supported_groups
      ∷ ext_key_share ∷ ext_alpn ∷ ext_psk_modes ∷ ext_ec_point_formats ∷ [];
}

abbrev pub microsoft : ClientHelloProfile
microsoft = record {
  server_name = codes "www.microsoft.com";
  cipher_suites =
      0x1301 ∷ 0x1302 ∷ 0x1303 ∷ 0xc02f ∷ 0xc02b ∷ 0xc030 ∷ 0xc02c ∷ 0x009f ∷ 0x009e ∷ [];
  supported_groups = 0x001d ∷ 0x0017 ∷ 0x0018 ∷ 0x0019 ∷ [];
  signature_algorithms = 0x0403 ∷ 0x0503 ∷ 0x0804 ∷ 0x0805 ∷ 0x0401 ∷ 0x0501 ∷ [];
  supported_versions = 0x0304 ∷ 0x0303 ∷ [];
  alpn = codes "h2" ∷ codes "http/1.1" ∷ [];
  key_share_group = 0x001d;
  extension_order =
      ext_server_name ∷ ext_supported_groups ∷ ext_signature_algs ∷ ext_supported_versions
      ∷ ext_key_share ∷ ext_psk_modes ∷ ext_alpn ∷ ext_ec_point_formats ∷ [];
}

abbrev pub client_hello_profiles : List ClientHelloProfile
client_hello_profiles = google ∷ cloudflare ∷ microsoft ∷ []

-- The deterministic payload, `tlsClientHelloDefault`. Nothing reads from crypto/rand.
unfoldable pub tls_client_hello : Bytes
tls_client_hello = build_client_hello google false 1 (λ k. none)

-- `int(n) % 3` as an index, for a 64-bit `int`: from 2^63 on `int` is negative, so is the
-- remainder, and a negative index panics.
unfoldable pub profile_index : ℕ → Outcome ℕ
profile_index n =
    if ltb n (2 ^ 63)
    then ok (n % length client_hello_profiles)
    else if (2 ^ 64 - n) % length client_hello_profiles == 0
    then ok 0
    else panic

unfoldable pub pick_profile : ℕ → Outcome ClientHelloProfile
pick_profile idx = elim (get_elem? client_hello_profiles idx) [ none ↦ panic | some p ↦ ok p ]

-- `counter` is clientHelloCounter before the call; the new counter is returned with the payload.
unfoldable pub random_tls_client_hello : ℕ → Reads → Outcome (Bytes × ℕ)
unfolding profile_index pick_profile
random_tls_client_hello counter rand = do
  let added = u64 (counter + 1)
  idx ← profile_index (u64 (added + 2 ^ 64 - 1))
  profile ← pick_profile idx
  ok (build_client_hello profile true (idx + 1) rand, added)
