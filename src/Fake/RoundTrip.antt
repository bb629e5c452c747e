-- ===== src/Fake/RoundTrip.antt =====
-- ParseSNI reads back the server name that the builder wrote.
use gecit_unofficial.Base.{
  ℕ, zero, suc, ◌+◌, ◌≤◌, ◌<◌, ◌≡◌, refl, some, List, [], ◌∷◌, ◌++◌, arith, ◌==◌, if◌then◌else◌, ok,
  index, length, All, length-append, At, At-start, At-skip, At-tail, index-At, slice-At,
  slice_end-At, Bytes, u16, put_uint16, be16-put, ◌*◌, Bool, true, ◌∙◌, shr, u8, be24-put, ap,
}
use gecit_unofficial.Fake.Names.{
  Fits, first_name, names_server, first_name-Fits, entries-Fits, first_name-entries,
}
use gecit_unofficial.Fake.Layout.{
  entry, length-entry, encode, exts, words, length-words, client_random, session_id,
  build_body-layout, entries, length-client_random, length-session_id,
}
use gecit_unofficial.Fake.Sni.{
  scan_names, parse_sni_extension, scan_extensions, read_extensions, skip_compression,
  skip_cipher_suites, skip_session_id, parse_body, parse_handshake, parse_sni,
}
use gecit_unofficial.Fake.Wire.{append_uint16, server_name_extension}
use mathlib.Core.List.{append-nil}
use gecit_unofficial.Fake.Hello.{ClientHelloProfile, Reads, build_body, build_client_hello}

scan-cons :
    (fuel t : ℕ) (ext rest : Bytes)
    → t < 65536
    → length ext < 65536
    → scan_extensions (suc fuel) (entry t ext ++ rest)
      ≡ (if t == 0 then parse_sni_extension ext else scan_extensions fuel rest)
unfolding scan_extensions entry index
scan-cons fuel t ext rest ht hl =
    let xs = entry t ext ++ rest in
    let at4 : At xs 4 (ext ++ rest) =
      At-skip xs (put_uint16 t ++ put_uint16 (u16 (length ext))) (ext ++ rest) 0 4 (At-start xs)
        refl in
    ground (
      arith,
      be16-put t ht,
      be16-put (length ext) hl,
      length-append ext rest,
      slice-At xs ext rest 4 (4 + length ext) at4 refl,
      slice_end-At xs rest (4 + length ext) (At-skip xs ext rest 4 (length ext) at4 refl),
    )

scan_extensions-first_name :
    (es : List (ℕ × Bytes)) (fuel : ℕ) (ext : Bytes)
    → All Fits es
    → length (encode es) ≤ fuel
    → first_name es ≡ some ext
    → scan_extensions fuel (encode es) ≡ parse_sni_extension ext
unfolding first_name encode
scan_extensions-first_name [] fuel ext fits h e = cc
scan_extensions-first_name ((t, x) ∷ es) zero ext fits h e =
    absurd (omega (arith, length-append (entry t x) (encode es), length-entry t x))
scan_extensions-first_name ((t, x) ∷ es) (suc fuel) ext fits h e =
    rw (scan-cons fuel t x (encode es) fits.0.0 fits.0.1) (
      ground (
        arith,
        length-append (entry t x) (encode es),
        length-entry t x,
        scan_extensions-first_name es fuel ext,
      ))

-- The name itself.
parse_sni_extension-server_name :
    (name : Bytes)
    → length name < 65533
    → parse_sni_extension (server_name_extension name) ≡ ok name
unfolding parse_sni_extension server_name_extension append_uint16 scan_names index
parse_sni_extension-server_name name h =
    let xs : Bytes =
      put_uint16 (u16 (3 + length name)) ++ (0 ∷ (put_uint16 (u16 (length name)) ++ name)) in
    let ys : Bytes = 0 ∷ (put_uint16 (u16 (length name)) ++ name) in
    ground (
      arith,
      be16-put (3 + length name) (omega arith),
      be16-put (length name) (omega arith),
      slice_end-At xs ys 2
          (At-skip xs (put_uint16 (u16 (3 + length name))) ys 0 2 (At-start xs) refl),
      slice_end-At ys name 3
          (At-skip ys (0 ∷ put_uint16 (u16 (length name))) name 0 3 (At-start ys) refl),
    )

-- Walking over the body: each stage moves its position over the segment that the builder wrote.
module _ (body : Bytes) (place : ℕ) where
  walk_session :
      (session rest : Bytes)
      → At body place (32 ∷ (session ++ rest))
      → length session ≡ 32
      → skip_session_id body place ≡ skip_cipher_suites body (place + (1 + 32))
  unfolding skip_session_id
  walk_session session rest a e =
      ground (arith, index-At body 32 (session ++ rest) place a, a.length_is)

  walk_suites :
      (n : ℕ) (suites rest : Bytes)
      → At body place (put_uint16 n ++ (suites ++ rest))
      → n < 65536
      → length suites ≡ n
      → skip_cipher_suites body place ≡ skip_compression body (place + (2 + n))
  unfolding skip_cipher_suites
  walk_suites n suites rest a h e = ground (
    arith,
    be16-put n h,
    index-At body _ _ place a,
    index-At body _ _ (place + 1) (At-tail body _ _ place a),
    a.length_is,
  )

  walk_compression :
      (rest : Bytes)
      → At body place (1 ∷ 0 ∷ rest)
      → skip_compression body place ≡ read_extensions body (place + (1 + 1))
  unfolding skip_compression
  walk_compression rest a = ground (arith, index-At body 1 _ place a, a.length_is)

  walk_extensions :
      (exts : Bytes)
      → At body place (put_uint16 (u16 (length exts)) ++ exts)
      → length exts < 65536
      → read_extensions body place ≡ scan_extensions (length exts) exts
  unfolding read_extensions
  walk_extensions exts a h = ground (
    arith,
    be16-put (u16 (length exts)) (omega arith),
    index-At body _ _ place a,
    index-At body _ _ (place + 1) (At-tail body _ _ place a),
    a.length_is,
    slice-At body exts [] (place + 2) (place + 2 + length exts)
        (rw append-nil (At-skip body (put_uint16 (u16 (length exts))) exts place 2 a refl)) refl,
  )

-- The body as the builder lays it out.
abbrev laid_out : Bytes → Bytes → ℕ → Bytes → Bytes → Bytes
laid_out random session n suites exts =
    (0x03 ∷ 0x03 ∷ random)
    ++ (32
        ∷ (session
            ++ (put_uint16 n
                ++ (suites ++ (0x01 ∷ 0x00 ∷ (put_uint16 (u16 (length exts)) ++ exts))))))

parse_body-laid_out :
    (random session suites exts : Bytes) (n : ℕ)
    → length random ≡ 32
    → length session ≡ 32
    → length suites ≡ n
    → n < 65536
    → length exts < 65536
    → parse_body (laid_out random session n suites exts) ≡ scan_extensions (length exts) exts
unfolding parse_body
parse_body-laid_out random session suites exts n hr hs hn small h =
    let body = laid_out random session n suites exts in
    let last = put_uint16 (u16 (length exts)) ++ exts in
    let middle : Bytes = 0x01 ∷ 0x00 ∷ last in
    let at34 : At body 34 (32 ∷ (session ++ (put_uint16 n ++ (suites ++ middle)))) =
      At-skip body (0x03 ∷ 0x03 ∷ random) _ 0 34 (At-start body) (omega arith) in
    let at_suites : At body (34 + (1 + 32)) (put_uint16 n ++ (suites ++ middle)) =
      At-skip body (32 ∷ session) _ 34 (1 + 32) at34 (omega arith) in
    let at_middle : At body (34 + (1 + 32) + (2 + n)) middle =
      At-skip body (put_uint16 n ++ suites) _ (34 + (1 + 32)) (2 + n) at_suites (omega arith) in
    let at_last : At body (34 + (1 + 32) + (2 + n) + (1 + 1)) last =
      At-skip body (0x01 ∷ 0x00 ∷ []) _ (34 + (1 + 32) + (2 + n)) (1 + 1) at_middle refl in
    ground (
      arith,
      at34.length_is,
      walk_session body 34 session _ at34 hs,
      walk_suites body (34 + (1 + 32)) n suites middle at_suites small hn,
      walk_compression body (34 + (1 + 32) + (2 + n)) last at_middle,
      walk_extensions body (34 + (1 + 32) + (2 + n) + (1 + 1)) exts at_last h,
    )

length-laid_out :
    (random session suites exts : Bytes) (n : ℕ)
    → length (laid_out random session n suites exts)
      ≡ 9 + length random + length session + length suites + length exts
length-laid_out random session suites exts n =
    let last = put_uint16 (u16 (length exts)) ++ exts in
    let middle : Bytes = 0x01 ∷ 0x00 ∷ last in
    omega (
      arith,
      length-append random (32 ∷ (session ++ (put_uint16 n ++ (suites ++ middle)))),
      length-append session (put_uint16 n ++ (suites ++ middle)),
      length-append suites middle,
    )

-- The two outer headers.
parse_handshake-header :
    (body : Bytes)
    → length body < 16777216
    → parse_handshake
        (0x01 ∷ u8 (shr (length body) 16) ∷ u8 (shr (length body) 8) ∷ u8 (length body) ∷ body)
      ≡ parse_body body
unfolding parse_handshake index
parse_handshake-header body h =
    let head : Bytes =
      0x01 ∷ u8 (shr (length body) 16) ∷ u8 (shr (length body) 8) ∷ u8 (length body) ∷ [] in
    let hs : Bytes = head ++ body in
    ground (
      arith,
      be24-put (length body) h,
      slice_end-At hs body 4 (At-skip hs head body 0 4 (At-start hs) refl),
    )

parse_sni-header :
    (hs rest : Bytes)
    → length hs < 65536
    → parse_sni (0x16 ∷ 0x03 ∷ 0x01 ∷ u8 (shr (length hs) 8) ∷ u8 (length hs) ∷ (hs ++ rest))
      ≡ parse_handshake hs
unfolding parse_sni index
parse_sni-header hs rest h =
    let head : Bytes = 0x16 ∷ 0x03 ∷ 0x01 ∷ u8 (shr (length hs) 8) ∷ u8 (length hs) ∷ [] in
    let packet : Bytes = head ++ (hs ++ rest) in
    ground (
      arith,
      be16-put (length hs) h,
      length-append hs rest,
      slice-At packet hs rest 5 (5 + length hs)
          (At-skip packet head (hs ++ rest) 0 5 (At-start packet) refl) refl,
    )

-- What makes a profile's hello readable: the order names the server name extension, its types are
-- 16-bit words, and the handshake fits in the 16-bit length of a record.
pub record Encodable (profile : ClientHelloProfile) (use_crypto_random : Bool) (seed : ℕ)
    (rand : Reads) : Type 0 where
  pub named : names_server profile.extension_order ≡ true
  pub types : All (λ t. t < 65536) profile.extension_order
  pub fits : length (build_body profile use_crypto_random seed rand) + 4 < 65536

module _ (profile : ClientHelloProfile) (use_crypto_random : Bool) (seed : ℕ) (rand : Reads)
    (ready : Encodable profile use_crypto_random seed rand) where
  name_size :
      length (server_name_extension profile.server_name) < 65536
      → length profile.server_name < 65533
  unfolding server_name_extension append_uint16
  name_size h = omega arith

  abbrev the_exts : Bytes
  the_exts = exts profile use_crypto_random seed rand

  sizes : (length profile.cipher_suites * 2 < 65536) × (length the_exts < 65536)
  sizes = omega (
    arith,
    ready.fits,
    ap length (build_body-layout profile use_crypto_random seed rand),
    length-laid_out (client_random profile use_crypto_random seed rand)
        (session_id profile use_crypto_random seed rand) (words profile.cipher_suites) the_exts
        (u16 (length profile.cipher_suites * 2)),
    length-words profile.cipher_suites,
  )

  parse_body-build :
      parse_body (build_body profile use_crypto_random seed rand) ≡ ok profile.server_name
  parse_body-build =
      let es = entries profile use_crypto_random seed rand 2 profile.extension_order in
      let named =
        first_name-entries profile use_crypto_random seed rand 2 profile.extension_order
          ready.named in
      let fit =
        entries-Fits profile use_crypto_random seed rand 2 profile.extension_order ready.types
          sizes.1 in
      rw (build_body-layout profile use_crypto_random seed rand) (
        parse_body-laid_out (client_random profile use_crypto_random seed rand)
          (session_id profile use_crypto_random seed rand) (words profile.cipher_suites) the_exts
          (u16 (length profile.cipher_suites * 2))
          (length-client_random profile use_crypto_random seed rand)
          (length-session_id profile use_crypto_random seed rand)
          (omega (arith, length-words profile.cipher_suites, sizes)) (omega arith) sizes.1
        ∙ scan_extensions-first_name es (length the_exts) _ fit (omega arith) named
        ∙ parse_sni_extension-server_name profile.server_name
            (name_size (first_name-Fits es _ fit named)))

  -- For a profile that is Encodable: ParseSNI reads the profile's server name out of the hello that
  -- the builder makes of it, also when more bytes follow, whatever the random source gives.
  pub parse_sni-build :
      (rest : Bytes)
      → parse_sni (build_client_hello profile use_crypto_random seed rand ++ rest)
        ≡ ok profile.server_name
  unfolding build_client_hello
  parse_sni-build rest =
      let body = build_body profile use_crypto_random seed rand in
      let hs : Bytes =
        0x01 ∷ u8 (shr (length body) 16) ∷ u8 (shr (length body) 8) ∷ u8 (length body) ∷ body in
      parse_sni-header hs rest (omega (arith, ready.fits))
      ∙ parse_handshake-header body (omega (arith, ready.fits))
      ∙ parse_body-build
