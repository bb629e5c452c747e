-- ===== src/Ebpf/Pushed.antt =====
-- The maps after the manager's pushes: which destinations the program intercepts.
use gecit_unofficial.Base.{
  ℕ, ◌≡◌, ◌||◌, some, List, ◌==◌, inl, inr, [], ◌∷◌, arith, Option-cases, Bytes, ◌⊎◌, true, false,
  refl, sym, ap, ◌∙◌, ◌+◌, ◌*◌, ◌%◌, ◌<◌, bit_or, ◌↔◌, Bool-cases, All, IsBytes,
}
use gecit_unofficial.Ebpf.Manager.{
  Update, push_target_ports, key_of, push_exclude_ips, ManagerConfig, new_manager, config_with,
  push_config, push_all, ip_key,
}
use gecit_unofficial.Ebpf.Sockops.{
  has_key, Maps, SockOpsMd, Abi, dst_port_of, gecit_sockops, BpfConfig, Call, set_max_seg,
  output_event, set_cb_flags, update,
}
use gecit_unofficial.Ebpf.Established.{interception, gecit_sockops-established}
use gecit_unofficial.Ebpf.Switch.{ip_key-sum}
use gecit_unofficial.Ebpf.Excluded.{keys_of, IsExcluded, HasPort, has_key_iff, keys_of_iff}

-- A successful Update adds its key and no other.
abbrev pub Adds : Update → Type 0
Adds put =
    (k j : ℕ) (keys keys' : List ℕ)
    → put k keys ≡ some keys'
    → has_key j keys' ≡ (k == j) || has_key j keys

has_key-nil : (j : ℕ) → has_key j [] ≡ false
unfolding has_key
has_key-nil j = refl

pushed_ports :
    (put : Update) (adds : Adds put) (ports keys keys' : List ℕ) (j : ℕ)
    → push_target_ports put ports keys ≡ some keys'
    → has_key j keys' ≡ has_key j ports || has_key j keys
unfolding push_target_ports has_key
pushed_ports put adds [] keys keys' j h = ground (arith, h)
pushed_ports put adds (port ∷ ports) keys keys' j h = elim (Option-cases (put port keys)) [
  | inl failed ↦ ground (arith, failed, h)
  | inr (next, stored) ↦
      let added = adds port j keys next stored in
      let rest = pushed_ports put adds ports next keys' j (rw (push_target_ports, stored) at h) in
      ground (arith, added, rest)
]

pushed_ips :
    (put : Update) (adds : Adds put) (ips : List Bytes) (keys keys' : List ℕ) (j : ℕ)
    → push_exclude_ips put ips keys ≡ some keys'
    → has_key j keys' ≡ has_key j (keys_of ips) || has_key j keys
unfolding push_exclude_ips has_key keys_of
pushed_ips put adds [] keys keys' j h = ground (arith, h)
pushed_ips put adds (ip ∷ ips) keys keys' j h = elim (Option-cases (key_of ip)) [
  | inl skipped ↦
      let rest = pushed_ips put adds ips keys keys' j (rw (push_exclude_ips, skipped) at h) in
      ground (arith, skipped, rest)
  | inr (key, found) ↦ elim (Option-cases (put key keys)) [
    | inl failed ↦ ground (arith, failed, found, h)
    | inr (next, stored) ↦
        let added = adds key j keys next stored in
        let rest =
          pushed_ips put adds ips next keys' j (rw stored at (rw (push_exclude_ips, found) at h)) in
        ground (arith, found, added, rest)
  ]
]

intercepts_by_key :
    (put : Update) (abi : Abi) (c : ManagerConfig) (m m' : Maps) (ctx : SockOpsMd)
    → Adds put
    → m.target_ports ≡ []
    → m.exclude_ips ≡ []
    → push_all put (new_manager c) m ≡ some m'
    → ctx.op ≡ abi.active_established_cb
    → (has_key ctx.remote_ip4 (keys_of c.exclude_ips) ≡ false
        → has_key (dst_port_of abi ctx) (new_manager c).ports ≡ true
        → gecit_sockops abi m' ctx ≡ interception abi m' ctx (config_with (new_manager c) 1))
      × ((has_key ctx.remote_ip4 (keys_of c.exclude_ips) ≡ true)
            ⊎ (has_key (dst_port_of abi ctx) (new_manager c).ports ≡ false)
          → gecit_sockops abi m' ctx ≡ (m', []))
unfolding push_all push_config new_manager
intercepts_by_key put abi c m m' ctx adds no_ports no_ips pushed op =
    elim (Option-cases (push_target_ports put (new_manager c).ports m.target_ports)) [
      | inl failed ↦ absurd (ground (arith, failed, pushed))
      | inr (ports, e0) ↦ elim (Option-cases (push_exclude_ips put c.exclude_ips m.exclude_ips)) [
        | inl failed ↦ absurd (ground (arith, e0, failed, pushed))
        | inr (ips, e1) ↦
            let same : record m {
              config_map = some (config_with (new_manager c) 1);
              target_ports = ports;
              exclude_ips = ips;
            }
                ≡ m' =
              ground (arith, e0, e1, pushed) in
            let of_ports =
              pushed_ports put adds (new_manager c).ports m.target_ports ports (dst_port_of abi ctx)
                e0 in
            let of_ips = pushed_ips put adds c.exclude_ips m.exclude_ips ips ctx.remote_ip4 e1 in
            let no_port : has_key (dst_port_of abi ctx) m.target_ports ≡ false =
              rw no_ports (has_key-nil _) in
            let no_ip : has_key ctx.remote_ip4 m.exclude_ips ≡ false = rw no_ips (has_key-nil _) in
            let cfg_at : m'.config_map ≡ some (config_with (new_manager c) 1) =
              ap (λ n. n.config_map) (sym same) in
            let ports_at : m'.target_ports ≡ ports = ap (λ n. n.target_ports) (sym same) in
            let ips_at : m'.exclude_ips ≡ ips = ap (λ n. n.exclude_ips) (sym same) in
            let ports_key : has_key (dst_port_of abi ctx) m'.target_ports
                ≡ has_key (dst_port_of abi ctx) (new_manager c).ports =
              rw ports_at (ground (arith, of_ports, no_port)) in
            let ips_key : has_key ctx.remote_ip4 m'.exclude_ips
                ≡ has_key ctx.remote_ip4 (keys_of c.exclude_ips) =
              rw ips_at (ground (arith, of_ips, no_ip)) in
            let (intercepts, passes) =
              gecit_sockops-established abi m' ctx (config_with (new_manager c) 1) cfg_at
                (omega arith) op in
            (
              (λ free target. intercepts (ips_key ∙ free, ports_key ∙ target)),
              (λ spared. passes (λ t. ground (arith, spared, ips_key, ports_key, t))),
            )
      ]
    ]

-- The maps and the calls of an intercepted handshake to `port`.
abbrev pub handshake_to : ℕ → Abi → BpfConfig → Maps → SockOpsMd → Maps × List Call
handshake_to port abi cfg m ctx = (
  record m {
    connections = update ctx.cookie (record { bytes_sent = 0; mss_restored = 0 }) m.connections;
  },
  set_max_seg cfg.mss
      ∷ output_event (record {
        src_ip = ctx.local_ip4;
        dst_ip = ctx.remote_ip4;
        src_port = ctx.local_port % 65536;
        dst_port = port;
        seq = ctx.snd_nxt;
        ack = ctx.rcv_nxt;
      })
      ∷ set_cb_flags (bit_or ctx.cb_flags abi.write_hdr_opt_cb_flag)
      ∷ [],
)

-- After NewManager and the pushes of Start succeed on empty maps, where a successful Update adds
-- its key and no other: at a handshake with the address a.b.c.d, the lowest byte first in the
-- context, and with `port`, in network order in the context, under the pushed configuration, the
-- program either makes its three calls and tracks the connection, where the address is none of the
-- excluded ones and the port is one of the manager's; or it makes no call and leaves the maps,
-- where the address is excluded or the port is none of them.
pub pushed-intercepts_iff :
    (put : Update) (abi : Abi) (c : ManagerConfig) (m m' : Maps) (ctx : SockOpsMd)
    (b0 b1 b2 b3 port : ℕ)
    → Adds put
    → m.target_ports ≡ []
    → m.exclude_ips ≡ []
    → push_all put (new_manager c) m ≡ some m'
    → ctx.op ≡ abi.active_established_cb
    → All IsBytes c.exclude_ips
    → IsBytes (b0 ∷ b1 ∷ b2 ∷ b3 ∷ [])
    → ctx.remote_ip4 ≡ b0 + b1 * 256 + b2 * 65536 + b3 * 16777216
    → abi.ntohl ctx.remote_port ≡ port
    → port < 65536
    → (((IsExcluded b0 b1 b2 b3 c.exclude_ips → ⊥) × HasPort port (new_manager c).ports)
        × (gecit_sockops abi m' ctx ≡ handshake_to port abi (config_with (new_manager c) 1) m' ctx))
      ⊎ ((IsExcluded b0 b1 b2 b3 c.exclude_ips ⊎ (HasPort port (new_manager c).ports → ⊥))
          × (gecit_sockops abi m' ctx ≡ (m', [])))
pushed-intercepts_iff put abi c m m' ctx b0 b1 b2 b3 port adds no_ports no_ips pushed op ips quad
      address converted small =
    let (intercepts, passes) =
      intercepts_by_key put abi c m m' ctx adds no_ports no_ips pushed op in
    let key : ctx.remote_ip4 ≡ ip_key b0 b1 b2 b3 = address ∙ sym (ip_key-sum b0 b1 b2 b3 quad) in
    let to_port : dst_port_of abi ctx ≡ port = omega (arith, converted, small) in
    let excluded : (has_key ctx.remote_ip4 (keys_of c.exclude_ips) ≡ true)
        ↔ IsExcluded b0 b1 b2 b3 c.exclude_ips =
      rw key (keys_of_iff b0 b1 b2 b3 c.exclude_ips quad ips) in
    let targeted : (has_key (dst_port_of abi ctx) (new_manager c).ports ≡ true)
        ↔ HasPort port (new_manager c).ports =
      rw to_port (has_key_iff port (new_manager c).ports) in
    elim (Bool-cases (has_key ctx.remote_ip4 (keys_of c.exclude_ips))) [
      | inl out ↦ inr (inl (excluded.0 out), passes (inl out))
      | inr free ↦ elim (Bool-cases (has_key (dst_port_of abi ctx) (new_manager c).ports)) [
        | inl target ↦ inl (
          (λ x. absurd (ground (arith, free, excluded.1 x)), targeted.0 target),
          intercepts free target
              ∙ ap (λ n. handshake_to n abi (config_with (new_manager c) 1) m' ctx) to_port,
        )
        | inr other ↦
            inr (inr (λ x. absurd (ground (arith, other, targeted.1 x))), passes (inr other))
      ]
    ]
