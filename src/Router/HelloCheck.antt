-- ===== src/Router/HelloCheck.antt =====
-- LooksLikeTLSClientHello returns on every payload, and accepts exactly the payloads of its shape.
use gecit_unofficial.Base.{
  ◌+◌, ◌≤◌, ◌<◌, ◌≡◌, ◌&&◌, [], ◌∷◌, arith, ltb, leb, ok, slice, index_lem, length, get_or, Bytes,
  be16, be24, Bool, ◌==◌, index, sym, ap, ◌∙◌, ◌↔◌, ◌⊎◌, inl, inr, true,
}
use gecit_unofficial.Router.Packet.{check_lengths, looks_like_tls_client_hello}

-- What the check looks at.
pub record HasHelloShape (p : Bytes) : Type 0 where
  pub long : 9 ≤ length p
  pub content_type : get_or p 0 0 ≡ 0x16
  pub major : get_or p 1 0 ≡ 0x03
  pub handshake_type : get_or p 5 0 ≡ 0x01
  pub record_long : 4 ≤ be16 (get_or p 3 0) (get_or p 4 0)
  pub record_whole : 5 + be16 (get_or p 3 0) (get_or p 4 0) ≤ length p
  pub handshake_long : 0 < be24 (get_or p 6 0) (get_or p 7 0) (get_or p 8 0)

length_bytes : (p : Bytes) → 9 ≤ length p → slice p 3 5 ≡ ok (get_or p 3 0 ∷ get_or p 4 0 ∷ [])
unfolding slice
length_bytes [] h = absurd (omega arith)
length_bytes (a ∷ []) h = absurd (omega arith)
length_bytes (a ∷ b ∷ []) h = absurd (omega arith)
length_bytes (a ∷ b ∷ c ∷ []) h = absurd (omega arith)
length_bytes (a ∷ b ∷ c ∷ d ∷ []) h = absurd (omega arith)
length_bytes (a ∷ b ∷ c ∷ d ∷ e ∷ rest) h = ground arith

check_lengths-eq :
    (p : Bytes)
    → 9 ≤ length p
    → check_lengths p
      ≡ ok (
          leb 4 (be16 (get_or p 3 0) (get_or p 4 0))
          && (leb (5 + be16 (get_or p 3 0) (get_or p 4 0)) (length p)
              && ltb 0 (be24 (get_or p 6 0) (get_or p 7 0) (get_or p 8 0))))
unfolding check_lengths index
check_lengths-eq p h =
    rw
      (
        length_bytes p h,
        index_lem p 6 (omega arith),
        index_lem p 7 (omega arith),
        index_lem p 8 (omega arith),
      )
      (ground arith)

-- The Boolean of the check.
abbrev has_shape : Bytes → Bool
has_shape p =
    leb 9 (length p)
    && ((get_or p 0 0 == 0x16)
        && ((get_or p 1 0 == 0x03)
            && ((get_or p 5 0 == 0x01)
                && (leb 4 (be16 (get_or p 3 0) (get_or p 4 0))
                    && (leb (5 + be16 (get_or p 3 0) (get_or p 4 0)) (length p)
                        && ltb 0 (be24 (get_or p 6 0) (get_or p 7 0) (get_or p 8 0)))))))

looks_like-eq : (p : Bytes) → looks_like_tls_client_hello p ≡ ok (has_shape p)
unfolding looks_like_tls_client_hello
looks_like-eq p = elim (compare_nine p) [
  | inl h ↦ ground arith
  | inr h ↦
      rw
        (
          index_lem p 0 (omega arith),
          index_lem p 1 (omega arith),
          index_lem p 5 (omega arith),
          check_lengths-eq p h,
        )
        (ground arith)
]
  where
    compare_nine : (p : Bytes) → (length p < 9) ⊎ (9 ≤ length p)
    compare_nine p = ground arith

shape_iff : (p : Bytes) → (has_shape p ≡ true) ↔ HasHelloShape p
shape_iff p = (
  (λ h. record {
    long = ground arith;
    content_type = ground arith;
    major = ground arith;
    handshake_type = ground arith;
    record_long = ground arith;
    record_whole = ground arith;
    handshake_long = ground arith;
  }),
  (λ s. ground (
    arith, s.long, s.content_type, s.major, s.handshake_type, s.record_long, s.record_whole,
    s.handshake_long,
  )),
)

-- LooksLikeTLSClientHello returns on every payload.
pub looks_like_tls_client_hello-Returns :
    (p : Bytes) → (b : Bool) × (looks_like_tls_client_hello p ≡ ok b)
looks_like_tls_client_hello-Returns p = (has_shape p, looks_like-eq p)

-- LooksLikeTLSClientHello never panics, and it answers true for exactly the payloads of
-- HasHelloShape: nine bytes or more, record type 0x16, major version 3, handshake type 1, a record
-- length of 4 or more that the payload holds whole, and a handshake length other than 0.
pub looks_like_tls_client_hello_iff :
    (p : Bytes)
    → ((b : Bool) × (looks_like_tls_client_hello p ≡ ok b))
      × ((looks_like_tls_client_hello p ≡ ok true) ↔ HasHelloShape p)
looks_like_tls_client_hello_iff p = (
  looks_like_tls_client_hello-Returns p,
  (
    (λ h. (shape_iff p).0 (of_ok (sym (looks_like-eq p) ∙ h))),
    (λ s. looks_like-eq p ∙ ap ok ((shape_iff p).1 s)),
  ),
)
  where
    of_ok : {a b : Bool} → ok a ≡ ok b → a ≡ b
    of_ok e = cc
