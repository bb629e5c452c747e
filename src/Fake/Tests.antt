-- ===== src/Fake/Tests.antt =====
-- Runs of the builder and the reader, and the theorems at concrete inputs.
use gecit_unofficial.Base.{
  ◌≡◌, refl, false, none, some, [], ◌∷◌, ◌++◌, arith, ok, index, slice, get_elem?, be16, be24,
}
use gecit_unofficial.Fake.Shipped.{google_ready, Serves, random_tls_client_hello-Serves}
use gecit_unofficial.Fake.Hello.{
  ClientHelloProfile, Reads, add_extension, add_extensions, build_body, build_client_hello, google,
  client_hello_profiles, tls_client_hello, random_tls_client_hello,
}
use gecit_unofficial.Fake.RoundTrip.{parse_sni-build}
use gecit_unofficial.Fake.Sni.{
  scan_names, parse_sni_extension, scan_extensions, read_extensions, skip_compression,
  skip_cipher_suites, skip_session_id, parse_body, parse_handshake, parse_sni,
}
use gecit_unofficial.Fake.Wire.{
  xorshift_step, xorshift_fill, random_fill, fill_bytes, append_uint16, append_each,
  append_uint16_list, append_extension, uint16_vector, server_name_extension, alpn_list,
  alpn_extension, version_extension, key_share_extension,
}
use gecit_unofficial.Fake.Total.{Returns, parse_sni-Returns}

abbrev no_entropy : Reads
no_entropy k = none

-- pkg/fake/sni_test.go: TestParseSNI_FromOurClientHello
parse_sni_of_default : parse_sni tls_client_hello ≡ ok google.server_name
unfolding parse_sni parse_handshake parse_body skip_session_id skip_cipher_suites skip_compression
    read_extensions scan_extensions parse_sni_extension scan_names index slice be16 be24
    tls_client_hello build_client_hello build_body append_uint16_list append_uint16 append_each
    add_extensions add_extension append_extension server_name_extension uint16_vector alpn_extension
    alpn_list version_extension key_share_extension fill_bytes xorshift_fill xorshift_step
    random_fill
parse_sni_of_default = refl

-- A short record is refused.
parse_sni_short : parse_sni (0x16 ∷ 0x03 ∷ []) ≡ ok []
unfolding parse_sni
parse_sni_short = refl

parse_sni-Returns_example : Returns (parse_sni (0x16 ∷ 3 ∷ 1 ∷ 0 ∷ 200 ∷ 7 ∷ []))
parse_sni-Returns_example = parse_sni-Returns (0x16 ∷ 3 ∷ 1 ∷ 0 ∷ 200 ∷ 7 ∷ [])

parse_sni-build_example :
    parse_sni (build_client_hello google false 1 no_entropy ++ 9 ∷ []) ≡ ok google.server_name
parse_sni-build_example =
    parse_sni-build google false 1 no_entropy (google_ready false 1 no_entropy) (9 ∷ [])

random_tls_client_hello-Serves_example :
    (p : ClientHelloProfile) × (get_elem? client_hello_profiles 1 ≡ some p)
    × Serves p 4 (random_tls_client_hello 4 no_entropy)
random_tls_client_hello-Serves_example = random_tls_client_hello-Serves 4 no_entropy (omega arith)
