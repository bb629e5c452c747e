-- ===== src/Fake/Sni.antt =====
-- pkg/fake/sni.go: ParseSNI. Indexing and slicing panic out of range, as in Go. The empty list is
-- the empty string. The function is cut where the source moves `place` on.
use gecit_unofficial.Base.{
  ℕ, zero, suc, ◌+◌, ltb, leb, ◌==◌, not, if◌then◌else◌, [], length, Bytes, be16, be24, Outcome, ok,
  stuck, index, slice, ◌>>=◌,
}

-- for len(entries) >= 3; the fuel bounds the rounds
unfoldable pub scan_names : ℕ → Bytes → Outcome Bytes
scan_names zero entries = if leb 3 (length entries) then stuck else ok []
scan_names (suc fuel) entries =
    let found : Outcome Bytes = (do
      name_type ← index entries 0
      a ← index entries 1
      b ← index entries 2
      let name_len = be16 a b
      let next = do rest ← slice entries (3 + name_len) (length entries); scan_names fuel rest
      let name = slice entries 3 (3 + name_len)
      if ltb (length entries) (3 + name_len)
          then ok []
          else if name_type == 0
          then name
          else next) in
    if leb 3 (length entries) then found else ok []

unfoldable pub parse_sni_extension : Bytes → Outcome Bytes
parse_sni_extension ext = if ltb (length ext) 2 then ok [] else do
  a ← index ext 0
  b ← index ext 1
  let list_len = be16 a b
  let found = do entries ← slice ext 2 (2 + list_len); scan_names (length entries) entries
  if ltb (length ext) (2 + list_len) then ok [] else found

-- for len(exts) >= 4; the fuel bounds the rounds
unfoldable pub scan_extensions : ℕ → Bytes → Outcome Bytes
scan_extensions zero exts = if leb 4 (length exts) then stuck else ok []
scan_extensions (suc fuel) exts =
    let found : Outcome Bytes = (do
      a ← index exts 0
      b ← index exts 1
      c ← index exts 2
      d ← index exts 3
      let ext_type = be16 a b
      let ext_data_len = be16 c d
      let here = do ext ← slice exts 4 (4 + ext_data_len); parse_sni_extension ext
      let next = do rest ← slice exts (4 + ext_data_len) (length exts); scan_extensions fuel rest
      if ltb (length exts) (4 + ext_data_len)
          then ok []
          else if ext_type == 0
          then here
          else next) in
    if leb 4 (length exts) then found else ok []

unfoldable pub read_extensions : Bytes → ℕ → Outcome Bytes
read_extensions body place = if ltb (length body) (place + 2) then ok [] else do
  a ← index body place
  b ← index body (place + 1)
  let ext_len = be16 a b
  let found : Outcome Bytes = (do
    exts ← slice body (place + 2) (place + 2 + ext_len)
    scan_extensions (length exts) exts)
  if ltb (length body) (place + 2 + ext_len) then ok [] else found

unfoldable pub skip_compression : Bytes → ℕ → Outcome Bytes
skip_compression body place =
    if leb (length body) place
    then ok []
    else do n ← index body place; read_extensions body (place + (1 + n))

unfoldable pub skip_cipher_suites : Bytes → ℕ → Outcome Bytes
skip_cipher_suites body place = if ltb (length body) (place + 2) then ok [] else do
  a ← index body place
  b ← index body (place + 1)
  skip_compression body (place + (2 + be16 a b))

unfoldable pub skip_session_id : Bytes → ℕ → Outcome Bytes
skip_session_id body place =
    if leb (length body) place
    then ok []
    else do n ← index body place; skip_cipher_suites body (place + (1 + n))

unfoldable pub parse_body : Bytes → Outcome Bytes
parse_body body = if ltb (length body) 34 then ok [] else skip_session_id body 34

unfoldable pub parse_handshake : Bytes → Outcome Bytes
parse_handshake hs = if ltb (length hs) 4 then ok [] else do
  t ← index hs 0
  a ← index hs 1
  b ← index hs 2
  c ← index hs 3
  let hs_len = be24 a b c
  let found = do body ← slice hs 4 (4 + hs_len); parse_body body
  if not (t == 0x01) then ok [] else if ltb (length hs) (4 + hs_len) then ok [] else found

unfoldable pub parse_sni : Bytes → Outcome Bytes
parse_sni packet = if ltb (length packet) 5 then ok [] else do
  t ← index packet 0
  a ← index packet 3
  b ← index packet 4
  let record_len = be16 a b
  let found = do hs ← slice packet 5 (5 + record_len); parse_handshake hs
  if not (t == 0x16) then ok [] else if ltb (length packet) (5 + record_len) then ok [] else found
