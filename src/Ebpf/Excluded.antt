-- ===== src/Ebpf/Excluded.antt =====
-- The keys that pushExcludeIPs pushes, and the addresses that they stand for.
use gecit_unofficial.Base.{
  ℕ, ◌≡◌, some, List, ◌==◌, inl, inr, none, [], ◌∷◌, arith, Option-cases, Bytes, true, refl, sym,
  ap, ◌∙◌, subst, ◌↔◌, Bool-cases, All, Any, IsBytes,
}
use gecit_unofficial.Ebpf.Manager.{key_of, ip_key, uint32_to_ip}
use gecit_unofficial.Ebpf.Sockops.{has_key}
use gecit_unofficial.Ebpf.Switch.{uint32_to_ip-key}
use gecit_unofficial.Rawsock.Headers.{to4_four}
use gecit_unofficial.Rawsock.Packet.{to4}

-- The keys of the IPv4 addresses.
unfoldable pub keys_of : List Bytes → List ℕ
keys_of [] = []
keys_of (ip ∷ ips) = elim (key_of ip) [ none ↦ keys_of ips | some key ↦ key ∷ keys_of ips ]

-- One of the addresses is a.b.c.d.
abbrev pub IsExcluded : ℕ → ℕ → ℕ → ℕ → List Bytes → Type 0
IsExcluded a b c d ips = Any (λ ip. to4 ip ≡ some (a ∷ b ∷ c ∷ d ∷ [])) ips

abbrev pub HasPort : ℕ → List ℕ → Type 0
HasPort port ports = Any (λ p. p ≡ port) ports

pub has_key_iff : (port : ℕ) (ports : List ℕ) → (has_key port ports ≡ true) ↔ HasPort port ports
unfolding has_key
has_key_iff port [] = ((λ h. absurd (ground (arith, h))), (λ o. absurd o))
has_key_iff port (x ∷ xs) =
    let rest = has_key_iff port xs in
    (
      λ h. elim (Bool-cases (x == port)) [
        | inl same ↦ inl (ground (arith, same))
        | inr other ↦ inr (rest.0 (ground (arith, h, other)))
      ],
      λ o. elim o [ inl same ↦ ground (arith, same) | inr later ↦ ground (arith, rest.1 later) ],
    )

to4-IsBytes : (ip q : Bytes) → IsBytes ip → to4 ip ≡ some q → IsBytes q
unfolding to4
to4-IsBytes (a ∷ b ∷ c ∷ d ∷ []) q h e =
    let same : a ∷ b ∷ c ∷ d ∷ [] ≡ q = ground (arith, e) in subst IsBytes same h
to4-IsBytes (z0 ∷ z1 ∷ z2 ∷ z3 ∷ z4 ∷ z5 ∷ z6 ∷ z7 ∷ z8 ∷ z9 ∷ x ∷ y ∷ a ∷ b ∷ c ∷ d ∷ []) q h e =
    let same : a ∷ b ∷ c ∷ d ∷ [] ≡ q = ground (arith, e) in subst IsBytes same (omega (arith, h))
to4-IsBytes _ q h e = absurd (ground (arith, e))

key_of-form :
    (ip : Bytes) (a b c d : ℕ)
    → to4 ip ≡ some (a ∷ b ∷ c ∷ d ∷ [])
    → key_of ip ≡ some (ip_key a b c d)
unfolding key_of
key_of-form ip a b c d form = rw (key_of, form) refl

key_of-none : (ip : Bytes) → to4 ip ≡ none → key_of ip ≡ none
unfolding key_of
key_of-none ip absent = rw (key_of, absent) refl

-- An address's key stands among the keys exactly where the address is excluded.
pub keys_of_iff :
    (a b c d : ℕ) (ips : List Bytes)
    → IsBytes (a ∷ b ∷ c ∷ d ∷ [])
    → All IsBytes ips
    → (has_key (ip_key a b c d) (keys_of ips) ≡ true) ↔ IsExcluded a b c d ips
unfolding has_key keys_of
keys_of_iff a b c d [] h hs = ((λ e. absurd (ground (arith, e))), (λ o. absurd o))
keys_of_iff a b c d (ip ∷ ips) h hs =
    let rest = keys_of_iff a b c d ips h hs.1 in
    elim (Option-cases (to4 ip)) [
      | inl absent ↦
          let skipped : key_of ip ≡ none = key_of-none ip absent in
          (
            λ e. inr (rest.0 (ground (arith, skipped, e))),
            λ o. elim o [
              | inl same ↦ absurd (ground (arith, absent, same))
              | inr later ↦ ground (arith, skipped, rest.1 later)
            ],
          )
      | inr (q, found) ↦
          let (a', b', c', d', four) = to4_four ip q found in
          let form : to4 ip ≡ some (a' ∷ b' ∷ c' ∷ d' ∷ []) = found ∙ ap some four in
          let bytes : IsBytes (a' ∷ b' ∷ c' ∷ d' ∷ []) = to4-IsBytes ip _ hs.0 form in
          let key = key_of-form ip a' b' c' d' form in
          (
            λ e. elim (Bool-cases (ip_key a' b' c' d' == ip_key a b c d)) [
              | inl same ↦
                  let keys : ip_key a' b' c' d' ≡ ip_key a b c d = ground (arith, same) in
                  inl (
                    form
                    ∙ ap some (
                        sym (uint32_to_ip-key a' b' c' d' bytes)
                        ∙ ap uint32_to_ip keys
                        ∙ uint32_to_ip-key a b c d h))
              | inr other ↦ inr (rest.0 (ground (arith, key, other, e)))
            ],
            λ o. elim o [
              | inl same ↦ ground (arith, key_of-form ip a b c d same)
              | inr later ↦ ground (arith, key, rest.1 later)
            ],
          )
    ]
