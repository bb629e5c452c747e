-- ===== src/Ebpf/Sockops.antt =====
-- pkg/ebpf/bpf/src/sockops.go: the sock_ops program. A hash map is a list of its keys, or of pairs
-- for the connections; what a callback does through the kernel's helpers is a list of calls, in
-- order. Every path of the program returns SockOpsOk, so the result is the maps and the calls.
use gecit_unofficial.Base.{
  ℕ, ◌+◌, bit_and, bit_or, bit_xor, Bool, false, not, ◌||◌, Option, none, some, List, [], ◌∷◌, ltb,
  ◌==◌, if◌then◌else◌, u16, u32,
}

pub record BpfConfig : Type 0 where
  pub mss : ℕ
  pub restore_mss : ℕ
  pub restore_after_bytes : ℕ
  pub enabled : ℕ

pub record ConnEvent : Type 0 where
  pub src_ip : ℕ
  pub dst_ip : ℕ
  pub src_port : ℕ
  pub dst_port : ℕ
  pub seq : ℕ
  pub ack : ℕ

pub record ConnState : Type 0 where
  pub bytes_sent : ℕ
  pub mss_restored : ℕ

-- ConfigMap, TargetPorts, ExcludeIps and Connections
pub record Maps : Type 0 where
  pub config_map : Option BpfConfig
  pub target_ports : List ℕ
  pub exclude_ips : List ℕ
  pub connections : List (ℕ × ConnState)

-- bpf.SockOpsMd, with the socket cookie that the helper GetSocketCookie gives for it.
pub record SockOpsMd : Type 0 where
  pub op : ℕ
  pub remote_ip4 : ℕ
  pub remote_port : ℕ
  pub local_ip4 : ℕ
  pub local_port : ℕ
  pub snd_nxt : ℕ
  pub rcv_nxt : ℕ
  pub skb_len : ℕ
  pub cb_flags : ℕ
  pub cookie : ℕ

-- What the program takes from gobee's package bpf.
pub record Abi : Type 0 where
  pub ntohl : ℕ → ℕ
  pub active_established_cb : ℕ
  pub hdr_opt_len_cb : ℕ
  pub write_hdr_opt_cb : ℕ
  pub write_hdr_opt_cb_flag : ℕ

-- Setsockopt at TCP_MAXSEG, the perf event, SockOpsCbFlagsSet and ReserveHdrOpt
pub data Call : Type 0 where
  set_max_seg : ℕ → Call
  output_event : ConnEvent → Call
  set_cb_flags : ℕ → Call
  reserve_hdr_opt : ℕ → Call

unfoldable pub has_key : ℕ → List ℕ → Bool
has_key k [] = false
has_key k (x ∷ xs) = (x == k) || has_key k xs

unfoldable pub lookup : ℕ → List (ℕ × ConnState) → Option ConnState
lookup k [] = none
lookup k ((x, s) ∷ xs) = if x == k then some s else lookup k xs

-- Connections.Delete
unfoldable pub delete : ℕ → List (ℕ × ConnState) → List (ℕ × ConnState)
delete k [] = []
delete k ((x, s) ∷ xs) = if x == k then delete k xs else (x, s) ∷ delete k xs

-- Connections.Update, and the write through the pointer that Lookup gives
unfoldable pub update : ℕ → ConnState → List (ℕ × ConnState) → List (ℕ × ConnState)
update k s xs = (k, s) ∷ delete k xs

abbrev pub dst_port_of : Abi → SockOpsMd → ℕ
dst_port_of abi ctx = u16 (abi.ntohl ctx.remote_port)

abbrev pub event_of : Abi → SockOpsMd → ConnEvent
event_of abi ctx = record {
  src_ip = ctx.local_ip4;
  dst_ip = ctx.remote_ip4;
  src_port = u16 ctx.local_port;
  dst_port = dst_port_of abi ctx;
  seq = ctx.snd_nxt;
  ack = ctx.rcv_nxt;
}

unfoldable pub handle_established : Abi → Maps → SockOpsMd → BpfConfig → Maps × List Call
handle_established abi m ctx cfg =
    if has_key ctx.remote_ip4 m.exclude_ips
    then (m, [])
    else if not (has_key (dst_port_of abi ctx) m.target_ports)
    then (m, [])
    else (
      record m {
        connections = update ctx.cookie (record { bytes_sent = 0; mss_restored = 0 }) m.connections;
      },
      set_max_seg cfg.mss
          ∷ output_event (event_of abi ctx)
          ∷ set_cb_flags (bit_or ctx.cb_flags abi.write_hdr_opt_cb_flag)
          ∷ [],
    )

unfoldable pub handle_hdr_opt_len : Maps → Maps × List Call
handle_hdr_opt_len m = (m, reserve_hdr_opt 0 ∷ [])

abbrev pub normal_mss : BpfConfig → ℕ
normal_mss cfg = if cfg.restore_mss == 0 then 1460 else cfg.restore_mss

-- The branch that restores: the entry is written and then deleted.
unfoldable pub count_bytes : Abi → Maps → SockOpsMd → BpfConfig → ConnState → Maps × List Call
count_bytes abi m ctx cfg state =
    let sent = u32 (state.bytes_sent + ctx.skb_len) in
    if ltb cfg.restore_after_bytes sent
    then (
      record m {
        connections =
            delete ctx.cookie
              (update ctx.cookie (record { bytes_sent = sent; mss_restored = 1 }) m.connections);
      },
      set_max_seg (normal_mss cfg)
          ∷ set_cb_flags (bit_and ctx.cb_flags (bit_xor 0xffffffff abi.write_hdr_opt_cb_flag))
          ∷ [],
    )
    else (
      record m {
        connections = update ctx.cookie (record state { bytes_sent = sent }) m.connections;
      },
      [],
    )

unfoldable pub handle_write_hdr_opt : Abi → Maps → SockOpsMd → BpfConfig → Maps × List Call
handle_write_hdr_opt abi m ctx cfg = elim (lookup ctx.cookie m.connections) [
  | none ↦ (m, [])
  | some state ↦ if not (state.mss_restored == 0) then (m, []) else count_bytes abi m ctx cfg state
]

unfoldable pub dispatch : Abi → Maps → SockOpsMd → BpfConfig → Maps × List Call
dispatch abi m ctx cfg =
    if ctx.op == abi.active_established_cb
    then handle_established abi m ctx cfg
    else if ctx.op == abi.hdr_opt_len_cb
    then handle_hdr_opt_len m
    else if ctx.op == abi.write_hdr_opt_cb
    then handle_write_hdr_opt abi m ctx cfg
    else (m, [])

unfoldable pub gecit_sockops : Abi → Maps → SockOpsMd → Maps × List Call
gecit_sockops abi m ctx = elim m.config_map [
  | none ↦ (m, [])
  | some cfg ↦ if cfg.enabled == 0 then (m, []) else dispatch abi m ctx cfg
]
