-- ===== src/Ebpf/Established.antt =====
-- The callback of an outgoing handshake.
use gecit_unofficial.Base.{
  bit_or, ◌≡◌, ◌≢◌, inl, inr, true, false, some, List, [], ◌∷◌, arith, Option-cases,
}
use gecit_unofficial.Ebpf.Sockops.{
  BpfConfig, Maps, SockOpsMd, Abi, Call, set_max_seg, output_event, set_cb_flags, has_key, update,
  dst_port_of, event_of, handle_established, dispatch, gecit_sockops,
}

-- The destination is not excluded and its port is targeted.
abbrev pub IsIntercepted : Abi → Maps → SockOpsMd → Type 0
IsIntercepted abi m ctx =
    (has_key ctx.remote_ip4 m.exclude_ips ≡ false)
    × (has_key (dst_port_of abi ctx) m.target_ports ≡ true)

-- The calls of an intercepted handshake, and the maps after it.
abbrev pub interception : Abi → Maps → SockOpsMd → BpfConfig → Maps × List Call
interception abi m ctx cfg = (
  record m {
    connections = update ctx.cookie (record { bytes_sent = 0; mss_restored = 0 }) m.connections;
  },
  set_max_seg cfg.mss
      ∷ output_event (event_of abi ctx)
      ∷ set_cb_flags (bit_or ctx.cb_flags abi.write_hdr_opt_cb_flag)
      ∷ [],
)

-- At a handshake under an enabled configuration the program makes its three calls (the MSS, the
-- perf event, the flag) and tracks the connection exactly for an intercepted destination; for any
-- other it makes no call and leaves the maps.
pub gecit_sockops-established :
    (abi : Abi) (m : Maps) (ctx : SockOpsMd) (cfg : BpfConfig)
    → m.config_map ≡ some cfg
    → cfg.enabled ≢ 0
    → ctx.op ≡ abi.active_established_cb
    → (IsIntercepted abi m ctx → gecit_sockops abi m ctx ≡ interception abi m ctx cfg)
      × ((IsIntercepted abi m ctx → ⊥) → gecit_sockops abi m ctx ≡ (m, []))
unfolding gecit_sockops dispatch handle_established
gecit_sockops-established abi m ctx cfg found on op =
    ((λ t. ground (arith, found, on, op, t)), (λ t. ground (arith, found, on, op, t)))

-- With no configuration, or with the switch off, no callback makes a call or changes a map.
pub gecit_sockops-off :
    (abi : Abi) (m : Maps) (ctx : SockOpsMd)
    → ((cfg : BpfConfig) → m.config_map ≡ some cfg → cfg.enabled ≡ 0)
    → gecit_sockops abi m ctx ≡ (m, [])
unfolding gecit_sockops
gecit_sockops-off abi m ctx off = elim (Option-cases m.config_map) [
  | inl absent ↦ ground (arith, absent)
  | inr (cfg, found) ↦ ground (arith, found, off cfg found)
]
