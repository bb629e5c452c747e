-- ===== src/Capture/Physical.antt =====
-- The interface that detectPhysicalInterface chooses.
use gecit_unofficial.Base.{
  ◌≡◌, refl, Bool, false, not, ◌&&◌, Option, none, some, List, [], ◌∷◌, arith, Bytes, Text, codes,
  text_eq, is_empty, has_prefix, ℕ, sym, ap, subst, ◌∙◌, ◌≢◌, ◌↔◌, ◌⊎◌, inl, inr, true, ◌++◌,
  Bool-cases, Option-cases, Any, text_eq_iff, has_prefix-append,
}
use gecit_unofficial.Rawsock.Packet.{to4}
use gecit_unofficial.Rawsock.Headers.{to4_four}
use gecit_unofficial.Capture.Interfaces.{
  Interface, tun_address, is_physical_ip, has_physical_ip, has_virtual_prefix, virtual_prefixes,
  is_running, detect_physical_interface,
}

-- The tests of the loop, as one
abbrev is_physical : Interface → Bool
is_physical iface =
    (is_running iface && not (is_empty iface.name))
    && (not (has_virtual_prefix iface.name virtual_prefixes) && has_physical_ip iface.addrs)

-- An IPv4 address a.b.c.d outside 127.0.0.0/8 that is not 10.0.85.1
abbrev pub IsOutside : Option Bytes → Type 0
IsOutside none = ⊥
IsOutside (some ip) =
    (a : ℕ) × (b : ℕ) × (c : ℕ) × (d : ℕ) × (to4 ip ≡ some (a ∷ b ∷ c ∷ d ∷ []))
    × (a ≢ 127)
    × ((a ∷ b ∷ c ∷ d ∷ []) ≢ (10 ∷ 0 ∷ 85 ∷ 1 ∷ []))

-- The name does not begin with these letters.
abbrev pub AvoidsPrefix : Text → Text → Type 0
AvoidsPrefix name prefix = (rest : Text) → name ≢ prefix ++ rest

pub record IsPhysical (iface : Interface) : Type 0 where
  pub up : iface.is_up ≡ true
  pub no_loopback : iface.is_loopback ≡ false
  pub named : iface.name ≢ []
  pub no_utun : AvoidsPrefix iface.name (codes "utun")
  pub no_bridge : AvoidsPrefix iface.name (codes "bridge")
  pub no_veth : AvoidsPrefix iface.name (codes "veth")
  pub no_vmnet : AvoidsPrefix iface.name (codes "vmnet")
  pub no_lo : AvoidsPrefix iface.name (codes "lo")
  pub outside : Any IsOutside iface.addrs

-- The name is that of the first physical interface, or empty where there is none.
abbrev pub IsFirstPhysical : List Interface → Text → Type 0
IsFirstPhysical [] name = name ≡ []
IsFirstPhysical (iface ∷ ifaces) name =
    (IsPhysical iface × (name ≡ iface.name))
    ⊎ ((IsPhysical iface → ⊥) × IsFirstPhysical ifaces name)

physical_ip-IsOutside : (ip : Bytes) → is_physical_ip ip ≡ true → IsOutside (some ip)
unfolding is_physical_ip
physical_ip-IsOutside ip h = elim (Option-cases (to4 ip)) [
  | inl absent ↦ absurd (ground (arith, absent, h))
  | inr (q, found) ↦
      let (a, b, c, d, four) = to4_four ip q found in
      let form : to4 ip ≡ some (a ∷ b ∷ c ∷ d ∷ []) = found ∙ ap some four in
      (
        a,
        b,
        c,
        d,
        form,
        ground (arith, form, h),
        λ e. absurd (ground (arith, form, h, (text_eq_iff (a ∷ b ∷ c ∷ d ∷ []) tun_address).1 e)),
      )
]

outside-is_physical_ip : (ip : Bytes) → IsOutside (some ip) → is_physical_ip ip ≡ true
unfolding is_physical_ip
outside-is_physical_ip ip (a, b, c, d, form, no_loop, no_tun) =
    elim (Bool-cases (text_eq (a ∷ b ∷ c ∷ d ∷ []) tun_address)) [
      | inl same ↦ absurd (no_tun ((text_eq_iff (a ∷ b ∷ c ∷ d ∷ []) tun_address).0 same))
      | inr differs ↦ ground (arith, form, no_loop, differs)
    ]

has_physical_ip_iff :
    (addrs : List (Option Bytes)) → (has_physical_ip addrs ≡ true) ↔ Any IsOutside addrs
unfolding has_physical_ip
has_physical_ip_iff [] = ((λ h. absurd (ground (arith, h))), (λ o. absurd o))
has_physical_ip_iff (none ∷ addrs) =
    let rest = has_physical_ip_iff addrs in
    ((λ h. inr (rest.0 h)), (λ o. elim o [ inl never ↦ absurd never | inr later ↦ rest.1 later ]))
has_physical_ip_iff (some ip ∷ addrs) =
    let rest = has_physical_ip_iff addrs in
    (
      λ h. elim (Bool-cases (is_physical_ip ip)) [
        | inl found ↦ inl (physical_ip-IsOutside ip found)
        | inr other ↦ inr (rest.0 (ground (arith, h, other)))
      ],
      λ o. elim o [
        | inl found ↦ ground (arith, outside-is_physical_ip ip found)
        | inr later ↦ ground (arith, rest.1 later)
      ],
    )

has_prefix_rest :
    (prefix name : Text) → has_prefix prefix name ≡ true → (rest : Text) × (name ≡ prefix ++ rest)
unfolding has_prefix
has_prefix_rest [] name h = (name, refl)
has_prefix_rest (p ∷ prefix) [] h = absurd (ground (arith, h))
has_prefix_rest (p ∷ prefix) (c ∷ name) h =
    let (rest, same) = has_prefix_rest prefix name (ground (arith, h)) in
    (rest, ground (arith, h, same))

has_prefix-AvoidsPrefix :
    (prefix name : Text) → (has_prefix prefix name ≡ false) ↔ AvoidsPrefix name prefix
has_prefix-AvoidsPrefix prefix name = (
  λ h rest e. absurd (ground (arith, h, rw (← e) at (has_prefix-append prefix rest))),
  λ avoids. elim (Bool-cases (has_prefix prefix name)) [
    | inl found ↦ let (rest, same) = has_prefix_rest prefix name found in absurd (avoids rest same)
    | inr other ↦ other
  ],
)

is_physical-IsPhysical : (iface : Interface) → is_physical iface ≡ true → IsPhysical iface
unfolding has_virtual_prefix
is_physical-IsPhysical iface h =
    let avoids : (p : Text) → has_prefix p iface.name ≡ false → AvoidsPrefix iface.name p =
      λ p. (has_prefix-AvoidsPrefix p iface.name).0 in
    record {
      up = ground (arith, h);
      no_loopback = ground (arith, h);
      named = λ e. absurd (ground (arith, h, e));
      no_utun = avoids (codes "utun") (ground (arith, h));
      no_bridge = avoids (codes "bridge") (ground (arith, h));
      no_veth = avoids (codes "veth") (ground (arith, h));
      no_vmnet = avoids (codes "vmnet") (ground (arith, h));
      no_lo = avoids (codes "lo") (ground (arith, h));
      outside = (has_physical_ip_iff iface.addrs).0 (ground (arith, h));
    }

is_empty-false : (s : Text) → s ≢ [] → is_empty s ≡ false
is_empty-false [] h = absurd (h refl)
is_empty-false (c ∷ s) h = refl

IsPhysical-is_physical : (iface : Interface) → IsPhysical iface → is_physical iface ≡ true
unfolding has_virtual_prefix
IsPhysical-is_physical iface h =
    let lacks : (p : Text) → AvoidsPrefix iface.name p → has_prefix p iface.name ≡ false =
      λ p. (has_prefix-AvoidsPrefix p iface.name).1 in
    rw
      (
        h.up,
        h.no_loopback,
        is_empty-false iface.name h.named,
        lacks (codes "utun") h.no_utun,
        lacks (codes "bridge") h.no_bridge,
        lacks (codes "veth") h.no_veth,
        lacks (codes "vmnet") h.no_vmnet,
        lacks (codes "lo") h.no_lo,
        (has_physical_ip_iff iface.addrs).1 h.outside,
      )
      refl

-- detectPhysicalInterface gives the name of the first interface in the system's order that is up,
-- no loopback, with a name that is not empty and begins with none of utun, bridge, veth, vmnet and
-- lo, and that has an IPv4 address outside 127.0.0.0/8 other than 10.0.85.1, the TUN device's; else
-- the empty name.
pub detect_physical_interface-IsFirstPhysical :
    (ifaces : List Interface) → IsFirstPhysical ifaces (detect_physical_interface ifaces)
unfolding detect_physical_interface
detect_physical_interface-IsFirstPhysical [] = refl
detect_physical_interface-IsFirstPhysical (iface ∷ ifaces) = elim (Bool-cases (is_physical iface)) [
  | inl found ↦ inl (is_physical-IsPhysical iface found, ground (arith, found))
  | inr other ↦
      let same : detect_physical_interface (iface ∷ ifaces) ≡ detect_physical_interface ifaces =
        ground (arith, other) in
      inr (
        (λ h. absurd (ground (arith, other, IsPhysical-is_physical iface h))),
        subst (IsFirstPhysical ifaces) (sym same)
            (detect_physical_interface-IsFirstPhysical ifaces),
      )
]
