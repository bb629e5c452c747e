-- ===== src/Fake/Total.antt =====
-- ParseSNI is total: no index or slice of it is out of range, and its loops end.
use gecit_unofficial.Base.{
  ℕ, zero, suc, ◌+◌, ◌-◌, ◌≤◌, ◌≡◌, arith, length, take, drop, length-take, length-drop, Bytes,
  be16, Outcome, ok, panic, stuck, index_lem, slice_lem, get_or, be24,
}
use gecit_unofficial.Fake.Sni.{
  scan_names, parse_sni_extension, scan_extensions, read_extensions, skip_compression,
  skip_cipher_suites, skip_session_id, parse_body, parse_handshake, parse_sni,
}

-- The call returns.
abbrev pub Returns {ℓ} : {A : Type ℓ} → Outcome A → Type 0
Returns (ok a) = Unit
Returns panic = ⊥
Returns stuck = ⊥

length-rest :
    (xs : Bytes) (n : ℕ) → n ≤ length xs → length (take (length xs - n) (drop n xs)) ≡ length xs - n
length-rest xs n h = length-take (length xs - n) (drop n xs) (omega (arith, length-drop n xs))

scan_names-Returns : (fuel : ℕ) (xs : Bytes) → length xs ≤ fuel → Returns (scan_names fuel xs)
unfolding scan_names
scan_names-Returns zero xs h = ground arith
scan_names-Returns (suc fuel) xs h =
    let n = 3 + be16 (get_or xs 1 0) (get_or xs 2 0) in
    ground (
      arith,
      index_lem xs 0,
      index_lem xs 1,
      index_lem xs 2,
      slice_lem xs 3 n,
      slice_lem xs n (length xs),
      length-rest xs n,
      scan_names-Returns fuel (take (length xs - n) (drop n xs)),
    )

parse_sni_extension-Returns : (xs : Bytes) → Returns (parse_sni_extension xs)
unfolding parse_sni_extension
parse_sni_extension-Returns xs =
    let n = 2 + be16 (get_or xs 0 0) (get_or xs 1 0) in
    ground (
      arith,
      index_lem xs 0,
      index_lem xs 1,
      slice_lem xs 2 n,
      scan_names-Returns (length (take (n - 2) (drop 2 xs))) (take (n - 2) (drop 2 xs)),
    )

scan_extensions-Returns :
    (fuel : ℕ) (xs : Bytes) → length xs ≤ fuel → Returns (scan_extensions fuel xs)
unfolding scan_extensions
scan_extensions-Returns zero xs h = ground arith
scan_extensions-Returns (suc fuel) xs h =
    let n = 4 + be16 (get_or xs 2 0) (get_or xs 3 0) in
    ground (
      arith,
      index_lem xs 0,
      index_lem xs 1,
      index_lem xs 2,
      index_lem xs 3,
      slice_lem xs 4 n,
      slice_lem xs n (length xs),
      length-rest xs n,
      parse_sni_extension-Returns (take (n - 4) (drop 4 xs)),
      scan_extensions-Returns fuel (take (length xs - n) (drop n xs)),
    )

read_extensions-Returns : (xs : Bytes) (place : ℕ) → Returns (read_extensions xs place)
unfolding read_extensions
read_extensions-Returns xs place =
    let n = place + 2 + be16 (get_or xs place 0) (get_or xs (place + 1) 0) in
    let exts = take (n - (place + 2)) (drop (place + 2) xs) in
    ground (
      arith,
      index_lem xs place,
      index_lem xs (place + 1),
      slice_lem xs (place + 2) n,
      scan_extensions-Returns (length exts) exts,
    )

skip_compression-Returns : (xs : Bytes) (place : ℕ) → Returns (skip_compression xs place)
unfolding skip_compression
skip_compression-Returns xs place =
    ground (arith, index_lem xs place, read_extensions-Returns xs (place + (1 + get_or xs place 0)))

skip_cipher_suites-Returns : (xs : Bytes) (place : ℕ) → Returns (skip_cipher_suites xs place)
unfolding skip_cipher_suites
skip_cipher_suites-Returns xs place = ground (
  arith,
  index_lem xs place,
  index_lem xs (place + 1),
  skip_compression-Returns xs (place + (2 + be16 (get_or xs place 0) (get_or xs (place + 1) 0))),
)

skip_session_id-Returns : (xs : Bytes) (place : ℕ) → Returns (skip_session_id xs place)
unfolding skip_session_id
skip_session_id-Returns xs place =
    ground
      (arith, index_lem xs place, skip_cipher_suites-Returns xs (place + (1 + get_or xs place 0)))

parse_body-Returns : (xs : Bytes) → Returns (parse_body xs)
unfolding parse_body
parse_body-Returns xs = ground (arith, skip_session_id-Returns xs 34)

parse_handshake-Returns : (xs : Bytes) → Returns (parse_handshake xs)
unfolding parse_handshake
parse_handshake-Returns xs =
    let n = 4 + be24 (get_or xs 1 0) (get_or xs 2 0) (get_or xs 3 0) in
    ground (
      arith,
      index_lem xs 0,
      index_lem xs 1,
      index_lem xs 2,
      index_lem xs 3,
      slice_lem xs 4 n,
      parse_body-Returns (take (n - 4) (drop 4 xs)),
    )

-- ParseSNI returns on every input: none of its index and slice expressions is out of range, and
-- both of its loops end.
pub parse_sni-Returns : (packet : Bytes) → Returns (parse_sni packet)
unfolding parse_sni
parse_sni-Returns packet =
    let n = 5 + be16 (get_or packet 3 0) (get_or packet 4 0) in
    ground (
      arith,
      index_lem packet 0,
      index_lem packet 3,
      index_lem packet 4,
      slice_lem packet 5 n,
      parse_handshake-Returns (take (n - 5) (drop 5 packet)),
    )
