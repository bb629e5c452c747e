-- ===== src/Tun/Pipe.antt =====
-- pkg/tun/handler.go: the two loops that copy data, cp in pipe and those of NewPacketConnectionEx.
-- What a Read and the Write after it do is given, round by round.
use gecit_unofficial.Base.{
  ◌≡◌, refl, Bool, false, ◌&&◌, List, [], ◌∷◌, ◌++◌, ltb, if◌then◌else◌, Outcome, ok, panic, stuck,
  length, Bytes, sym, ◌∙◌, ◌⊎◌, inl, inr, true, arith, Bool-cases, All, map,
}
use mathlib.Core.List.{append_assoc, append-nil}

pub record Round : Type 0 where
  pub got : Bytes
  pub read_failed : Bool
  pub write_failed : Bool

abbrev pub write_of : Round → List Bytes
write_of r = if ltb 0 (length r.got) then r.got ∷ [] else []

abbrev pub preceded : List Bytes → Outcome (List Bytes) → Outcome (List Bytes)
preceded ws (ok rest) = ok (ws ++ rest)
preceded ws panic = panic
preceded ws stuck = stuck

-- The writes that cp makes; `stuck` where neither side has ended by the last round
unfoldable pub cp : List Round → Outcome (List Bytes)
cp [] = stuck
cp (r ∷ rs) =
    let rest = cp rs in
    if ltb 0 (length r.got) && r.write_failed
    then ok (write_of r)
    else if r.read_failed
    then ok (write_of r)
    else preceded (write_of r) rest

-- The loops of NewPacketConnectionEx leave on the read's error before the write, and write an empty
-- packet too.
unfoldable pub relay_packets : List Round → Outcome (List Bytes)
relay_packets [] = stuck
relay_packets (r ∷ rs) =
    let rest = relay_packets rs in
    if r.read_failed
    then ok []
    else if r.write_failed
    then ok (r.got ∷ [])
    else preceded (r.got ∷ []) rest

abbrev pub concat : List Bytes → Bytes
concat [] = []
concat (b ∷ bs) = b ++ concat bs

-- What the reads have brought, one after the other
abbrev pub received : List Round → Bytes
received [] = []
received (r ∷ rs) = r.got ++ received rs

-- A round in which neither the Read nor the Write fails
abbrev pub IsFine : Round → Type 0
IsFine r = (r.read_failed ≡ false) × (r.write_failed ≡ false)

write_of-got : (r : Round) → concat (write_of r) ≡ r.got
write_of-got r = by_data r.got
  where
    by_data : (b : Bytes) → concat (if ltb 0 (length b) then b ∷ [] else []) ≡ b
    by_data [] = refl
    by_data (x ∷ xs) = ground (arith, append-nil xs)

concat-append : (xs ys : List Bytes) → concat (xs ++ ys) ≡ concat xs ++ concat ys
concat-append [] ys = refl
concat-append (x ∷ xs) ys = rw (concat-append xs ys) (sym (append_assoc x (concat xs) (concat ys)))

cp_last : (r : Round) (rs : List Round) → r.read_failed ≡ true → cp (r ∷ rs) ≡ ok (write_of r)
unfolding cp
cp_last r rs h = ground (arith, h)

cp_fine : (r : Round) (rs : List Round) → IsFine r → cp (r ∷ rs) ≡ preceded (write_of r) (cp rs)
unfolding cp
cp_fine r rs h = ground (arith, h)

-- Where the reads and writes of the rounds succeed up to one whose Read fails, cp ends there, and
-- what it has written, one write after the other, is exactly what it has read, with the data of the
-- failed Read.
pub cp-received :
    (fine : List Round) (last : Round) (rest : List Round)
    → All IsFine fine
    → last.read_failed ≡ true
    → (ws : List Bytes) × (cp (fine ++ last ∷ rest) ≡ ok ws)
      × (concat ws ≡ received fine ++ last.got)
cp-received [] last rest h e = (write_of last, cp_last last rest e, write_of-got last)
cp-received (r ∷ fine) last rest h e =
    let (ws, ends, same) = cp-received fine last rest h.1 e in
    (
      write_of r ++ ws,
      rw (cp_fine r (fine ++ last ∷ rest) h.0, ends) refl,
      concat-append (write_of r) ws
          ∙ rw (write_of-got r, same) (sym (append_assoc r.got (received fine) last.got)),
    )

cp_nil : cp [] ≡ stuck
unfolding cp
cp_nil = refl

cp_cases :
    (r : Round) (rs : List Round)
    → (cp (r ∷ rs) ≡ ok (write_of r)) ⊎ (cp (r ∷ rs) ≡ preceded (write_of r) (cp rs))
unfolding cp
cp_cases r rs = elim (Bool-cases (ltb 0 (length r.got) && r.write_failed)) [
  | inl e ↦ inl (ground (arith, e))
  | inr e ↦ elim (Bool-cases r.read_failed) [
    | inl f ↦ inl (ground (arith, e, f))
    | inr f ↦ inr (ground (arith, e, f))
  ]
]

preceded-ok :
    (first ws : List Bytes) (o : Outcome (List Bytes))
    → preceded first o ≡ ok ws
    → (rest : List Bytes) × (o ≡ ok rest) × (ws ≡ first ++ rest)
preceded-ok first ws (ok rest) h = (rest, refl, ground (arith, h))
preceded-ok first ws panic h = absurd (ground (arith, h))
preceded-ok first ws stuck h = absurd (ground (arith, h))

-- However its reads and writes fail, what cp has handed to Write when it ends is the beginning of
-- what the reads brought: nothing is left out before the end, repeated or changed.
pub cp_prefix :
    (rounds : List Round) (ws : List Bytes)
    → cp rounds ≡ ok ws
    → (rest : Bytes) × (received rounds ≡ concat ws ++ rest)
cp_prefix [] ws h = absurd (ground (arith, cp_nil, h))
cp_prefix (r ∷ rs) ws h = elim (cp_cases r rs) [
  | inl e ↦
      let same : write_of r ≡ ws = ground (arith, e, h) in
      (received rs, rw (sym same, write_of-got r) refl)
  | inr e ↦
      let (later, ends, joined) = preceded-ok (write_of r) ws (cp rs) (sym e ∙ h) in
      let (rest, same) = cp_prefix rs later ends in
      (
        rest,
        rw (same, joined, concat-append (write_of r) later, write_of-got r)
            (sym (append_assoc r.got (concat later) rest)),
      )
]

-- The packets read, up to the first Read that fails, are written one by one, unchanged and in
-- order, where the writes succeed.
pub relay_packets-map :
    (fine : List Round) (last : Round) (rest : List Round)
    → All IsFine fine
    → last.read_failed ≡ true
    → relay_packets (fine ++ last ∷ rest) ≡ ok (map (λ r. r.got) fine)
unfolding relay_packets
relay_packets-map [] last rest h e = ground (arith, e)
relay_packets-map (r ∷ fine) last rest h e =
    ground (arith, h.0, relay_packets-map fine last rest h.1 e)
