-- ===== src/Router/Batch.antt =====
-- The statements that the batches for nft are made of.
use gecit_unofficial.Base.{
  ℕ, ◌≡◌, refl, ap, false, [], ◌∷◌, ◌++◌, arith, ◌==◌, Text, codes, is_empty, is_space, trim_left,
  trim_right, trim_space, trim_prefix, has_prefix-append, drop_prefix-append,
}
use gecit_unofficial.Router.Nftables.{last_or, without_last, unquote, nft_statement}

-- The last character, at the end of a text that is not empty.
pub last_or-append : (d : ℕ) (s t : Text) → is_empty t ≡ false → last_or d (s ++ t) ≡ last_or d t
last_or-append d [] t h = refl
last_or-append d (c ∷ s) [] h = absurd (ground (arith, h))
last_or-append d (c ∷ s) (e ∷ t) h = last_or-append c s (e ∷ t) h

trim_right_solid : (c : ℕ) (s : Text) → is_space (last_or c s) ≡ false → trim_right (c ∷ s) ≡ c ∷ s
unfolding trim_right
trim_right_solid c [] h = ground (arith, h)
trim_right_solid c (d ∷ s) h = ground (arith, trim_right_solid d s h)

-- A text with solid ends is trimmed already.
trim_space_solid :
    (c : ℕ) (s : Text)
    → is_space c ≡ false
    → is_space (last_or c s) ≡ false
    → trim_space (c ∷ s) ≡ c ∷ s
unfolding trim_space trim_left
trim_space_solid c s h k = ground (arith, h, trim_right_solid c s k)

without_last-append : (s : Text) (c : ℕ) → without_last (s ++ c ∷ []) ≡ s
without_last-append [] c = refl
without_last-append (d ∷ []) c = refl
without_last-append (d ∷ e ∷ s) c = ap (◌∷◌ d) (without_last-append (e ∷ s) c)

solid : is_space 110 ≡ false
unfolding is_space
solid = refl

-- A command without quotes is its statement behind "nft ".
plain_statement :
    (c d : ℕ) (s : Text)
    → (c == 39) ≡ false
    → is_space (last_or d s) ≡ false
    → nft_statement (codes "nft " ++ c ∷ d ∷ s) ≡ c ∷ d ∷ s
unfolding nft_statement unquote trim_prefix
plain_statement c d s h k = rw (trim_space_solid 110 (codes "ft " ++ c ∷ d ∷ s) solid k) (
    rw (has_prefix-append (codes "nft ") (c ∷ d ∷ s), drop_prefix-append (codes "nft ") (c ∷ d ∷ s))
      (ground (arith, h)))

unquoted : (s : Text) → unquote (39 ∷ (s ++ 39 ∷ [])) ≡ s
unfolding unquote
unquoted [] = refl
unquoted (d ∷ s) =
    let last : last_or 39 (d ∷ (s ++ 39 ∷ [])) ≡ 39 = last_or-append d s (39 ∷ []) refl in
    let rest : without_last (d ∷ (s ++ 39 ∷ [])) ≡ d ∷ s = without_last-append (d ∷ s) 39 in
    ground (arith, last, rest)

quote_solid : is_space 39 ≡ false
unfolding is_space
quote_solid = refl

-- A quoted command is its statement between the quotes.
quoted_statement : (s : Text) → nft_statement (codes "nft '" ++ s ++ 39 ∷ []) ≡ s
unfolding nft_statement trim_prefix
quoted_statement s =
    let last : last_or 39 (s ++ 39 ∷ []) ≡ 39 = last_or-append 39 s (39 ∷ []) refl in
    rw (trim_space_solid 110 (codes "ft '" ++ s ++ 39 ∷ []) solid (rw last quote_solid)) (
      rw
        (
          has_prefix-append (codes "nft ") (39 ∷ (s ++ 39 ∷ [])),
          drop_prefix-append (codes "nft ") (39 ∷ (s ++ 39 ∷ [])),
        )
        (unquoted s))

-- nftStatement gives back the statement of a shell command: of "nft '...'" what stands between the
-- quotes, whatever that is; and of "nft ..." what follows, where that has two characters or more,
-- does not begin with a quote and does not end in white space.
pub nft_statement-back :
    (quoted : Text) (c d : ℕ) (s : Text)
    → (nft_statement (codes "nft '" ++ quoted ++ 39 ∷ []) ≡ quoted)
      × ((c == 39) ≡ false
          → is_space (last_or d s) ≡ false
          → nft_statement (codes "nft " ++ c ∷ d ∷ s) ≡ c ∷ d ∷ s)
nft_statement-back quoted c d s = (quoted_statement quoted, plain_statement c d s)
