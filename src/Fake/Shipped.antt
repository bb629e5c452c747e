-- ===== src/Fake/Shipped.antt =====
-- The three profiles that the program ships, under every random source.
use gecit_unofficial.Base.{
  ℕ, zero, suc, ◌+◌, ◌-◌, ◌%◌, ◌^◌, ◌<◌, ◌≡◌, refl, Bool, true, some, ◌++◌, arith, Outcome, ok,
  panic, stuck, length, get_elem?, length-append, Bytes, u64, [], ap, Text, codes,
}
use gecit_unofficial.Fake.Names.{names_server}
use gecit_unofficial.Fake.Hello.{
  ClientHelloProfile, Reads, add_extension, add_extensions, build_body, build_client_hello, google,
  cloudflare, microsoft, client_hello_profiles, random_tls_client_hello,
}
use gecit_unofficial.Fake.RoundTrip.{Encodable, parse_sni-build}
use gecit_unofficial.Fake.Layout.{length-fill_bytes}
use gecit_unofficial.Fake.Sni.{parse_sni}
use gecit_unofficial.Fake.Wire.{
  append_uint16, append_each, append_uint16_list, append_extension, uint16_vector,
  server_name_extension, alpn_list, alpn_extension, version_extension, key_share_extension,
}
use mathlib.Core.List.{append-nil}

module _ (b : Bool) (seed : ℕ) (rand : Reads) where
  google_size : length (build_body google b seed rand) ≡ 229
  unfolding build_body append_uint16_list append_uint16 append_each add_extensions add_extension
      append_extension server_name_extension uint16_vector alpn_extension alpn_list
      version_extension key_share_extension
  google_size = simp (length-append, length-fill_bytes)

  cloudflare_size : length (build_body cloudflare b seed rand) ≡ 231
  unfolding build_body append_uint16_list append_uint16 append_each add_extensions add_extension
      append_extension server_name_extension uint16_vector alpn_extension alpn_list
      version_extension key_share_extension
  cloudflare_size = simp (length-append, length-fill_bytes)

  microsoft_size : length (build_body microsoft b seed rand) ≡ 230
  unfolding build_body append_uint16_list append_uint16 append_each add_extensions add_extension
      append_extension server_name_extension uint16_vector alpn_extension alpn_list
      version_extension key_share_extension
  microsoft_size = simp (length-append, length-fill_bytes)

  pub google_ready : Encodable google b seed rand
  unfolding names_server
  google_ready = record { named = refl; types = omega arith; fits = omega (arith, google_size) }

  cloudflare_ready : Encodable cloudflare b seed rand
  unfolding names_server
  cloudflare_ready = record {
    named = refl;
    types = omega arith;
    fits = omega (arith, cloudflare_size);
  }

  microsoft_ready : Encodable microsoft b seed rand
  unfolding names_server
  microsoft_ready = record {
    named = refl;
    types = omega arith;
    fits = omega (arith, microsoft_size);
  }

-- What a call of RandomTLSClientHello gives: a payload out of which ParseSNI reads the name of
-- the profile `p`, and the counter one further.
abbrev pub Serves : ClientHelloProfile → ℕ → Outcome (Bytes × ℕ) → Type 0
Serves p counter (ok (hello, counter')) =
    (parse_sni hello ≡ ok p.server_name) × (counter' ≡ counter + 1)
Serves p counter panic = ⊥
Serves p counter stuck = ⊥

serves_at :
    (i counter : ℕ) (rand : Reads)
    → i < 3
    → (p : ClientHelloProfile) × (get_elem? client_hello_profiles i ≡ some p)
      × ((rest : Bytes)
          → parse_sni (build_client_hello p true (i + 1) rand ++ rest) ≡ ok p.server_name)
serves_at zero counter rand h =
    (google, refl, parse_sni-build google true 1 rand (google_ready true 1 rand))
serves_at (suc zero) counter rand h =
    (cloudflare, refl, parse_sni-build cloudflare true 2 rand (cloudflare_ready true 2 rand))
serves_at (suc (suc zero)) counter rand h =
    (microsoft, refl, parse_sni-build microsoft true 3 rand (microsoft_ready true 3 rand))
serves_at (suc (suc (suc i))) counter rand h = absurd (omega arith)

picked :
    (counter : ℕ) (rand : Reads) (p : ClientHelloProfile)
    → counter < 2 ^ 63
    → get_elem? client_hello_profiles (counter % 3) ≡ some p
    → random_tls_client_hello counter rand
      ≡ ok (build_client_hello p true (counter % 3 + 1) rand, counter + 1)
unfolding random_tls_client_hello
picked counter rand p h found =
    let e : u64 (u64 (counter + 1) + 2 ^ 64 - 1) ≡ counter = omega arith in ground (arith, e)

-- Until the 64-bit counter reaches 2^63, RandomTLSClientHello returns a hello of the profile at
-- the counter modulo three, whatever crypto/rand does: ParseSNI reads that profile's name from it.
pub random_tls_client_hello-Serves :
    (counter : ℕ) (rand : Reads)
    → counter < 2 ^ 63
    → (p : ClientHelloProfile) × (get_elem? client_hello_profiles (counter % 3) ≡ some p)
      × Serves p counter (random_tls_client_hello counter rand)
random_tls_client_hello-Serves counter rand h =
    let (p, found, parses) = serves_at (counter % 3) counter rand (omega arith) in
    (p, found, rw (picked counter rand p h found) (rw append-nil at (parses []), refl))

-- A payload that a profile serves, and the counter behind it
pub drawn-Serves :
    (p : ClientHelloProfile) (counter : ℕ) (o : Outcome (Bytes × ℕ))
    → Serves p counter o
    → (payload : Bytes) × (parse_sni payload ≡ ok p.server_name) × (o ≡ ok (payload, counter + 1))
drawn-Serves p counter (ok (payload, next)) h = (payload, h.0, ap (λ n. ok (payload, n)) h.1)
drawn-Serves p counter panic h = absurd h
drawn-Serves p counter stuck h = absurd h

-- The names of the hellos, in turn
abbrev pub name_in_turn : ℕ → Text
name_in_turn zero = codes "www.google.com"
name_in_turn (suc zero) = codes "www.cloudflare.com"
name_in_turn (suc (suc i)) = codes "www.microsoft.com"

pub profile_in_turn :
    (i : ℕ) (profile : ClientHelloProfile)
    → i < 3
    → get_elem? client_hello_profiles i ≡ some profile
    → profile.server_name ≡ name_in_turn i
profile_in_turn zero profile h found = ground (arith, found)
profile_in_turn (suc zero) profile h found = ground (arith, found)
profile_in_turn (suc (suc zero)) profile h found = ground (arith, found)
profile_in_turn (suc (suc (suc i))) profile h found = absurd (omega arith)
