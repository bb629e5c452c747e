-- ===== src/Ebpf/Threshold.antt =====
-- From the handshake to the restored MSS: the bytes that a connection sends, summed up.
use gecit_unofficial.Base.{
  ℕ, ◌+◌, ◌≤◌, ◌<◌, ◌≡◌, refl, ap, ◌≢◌, none, some, List, [], ◌∷◌, ◌++◌, arith, All, u32, ◌∙◌, ◌⊎◌,
  inl, inr,
}
use gecit_unofficial.Ebpf.Sockops.{
  BpfConfig, ConnState, Maps, SockOpsMd, Abi, Call, set_max_seg, output_event, set_cb_flags,
  reserve_hdr_opt, lookup, update, normal_mss, count_bytes, handle_write_hdr_opt, dispatch,
  gecit_sockops,
}
use gecit_unofficial.Ebpf.Restore.{lookup_deleted}
use mathlib.Core.List.{append-nil}
use gecit_unofficial.Ebpf.Established.{IsIntercepted, interception, gecit_sockops-established}

-- The callbacks in order, with all their calls.
unfoldable pub run_callbacks : Abi → Maps → List SockOpsMd → Maps × List Call
run_callbacks abi m [] = (m, [])
run_callbacks abi m (ctx ∷ ctxs) =
    let r = gecit_sockops abi m ctx in
    let rest = run_callbacks abi r.0 ctxs in (rest.0, r.1 ++ rest.1)

abbrev pub total_len : List SockOpsMd → ℕ
total_len [] = 0
total_len (ctx ∷ ctxs) = ctx.skb_len + total_len ctxs

-- A written segment of the socket `k`.
abbrev pub IsWrite : Abi → ℕ → SockOpsMd → Type 0
IsWrite abi k ctx = (ctx.op ≡ abi.write_hdr_opt_cb) × (ctx.cookie ≡ k)

-- The operations have numbers of their own.
abbrev pub AreDistinct : Abi → Type 0
AreDistinct abi =
    (abi.write_hdr_opt_cb ≢ abi.active_established_cb) × (abi.write_hdr_opt_cb ≢ abi.hdr_opt_len_cb)

abbrev pub sent_so_far : ℕ → ConnState
sent_so_far b = record { bytes_sent = b; mss_restored = 0 }

-- The settings of the MSS among the calls, in order.
abbrev pub mss_settings : List Call → List ℕ
mss_settings [] = []
mss_settings (set_max_seg n ∷ cs) = n ∷ mss_settings cs
mss_settings (output_event e ∷ cs) = mss_settings cs
mss_settings (set_cb_flags n ∷ cs) = mss_settings cs
mss_settings (reserve_hdr_opt n ∷ cs) = mss_settings cs

mss_settings-append :
    (cs ds : List Call) → mss_settings (cs ++ ds) ≡ mss_settings cs ++ mss_settings ds
mss_settings-append [] ds = refl
mss_settings-append (set_max_seg n ∷ cs) ds = ap (◌∷◌ n) (mss_settings-append cs ds)
mss_settings-append (output_event e ∷ cs) ds = mss_settings-append cs ds
mss_settings-append (set_cb_flags n ∷ cs) ds = mss_settings-append cs ds
mss_settings-append (reserve_hdr_opt n ∷ cs) ds = mss_settings-append cs ds

lookup_updated :
    (k : ℕ) (s : ConnState) (xs : List (ℕ × ConnState)) → lookup k (update k s xs) ≡ some s
unfolding lookup update
lookup_updated k s xs = ground arith

module _ (abi : Abi) (k : ℕ) (cfg : BpfConfig) (on : cfg.enabled ≢ 0)
    (codes_ok : AreDistinct abi) where
  -- One segment of a tracked connection.
  write_step :
      (m : Maps) (ctx : SockOpsMd) (b : ℕ)
      → m.config_map ≡ some cfg
      → IsWrite abi k ctx
      → lookup k m.connections ≡ some (sent_so_far b)
      → gecit_sockops abi m ctx ≡ count_bytes abi m ctx cfg (sent_so_far b)
  unfolding gecit_sockops dispatch handle_write_hdr_opt
  write_step m ctx b found w tracked = ground (arith, found, w, tracked, on, codes_ok)

  below :
      (m : Maps) (ctx : SockOpsMd) (b : ℕ)
      → ctx.cookie ≡ k
      → b + ctx.skb_len < 4294967296
      → b + ctx.skb_len ≤ cfg.restore_after_bytes
      → count_bytes abi m ctx cfg (sent_so_far b)
        ≡ (record m { connections = update k (sent_so_far (b + ctx.skb_len)) m.connections }, [])
  unfolding count_bytes
  below m ctx b same fits small =
      let e : u32 (b + ctx.skb_len) ≡ b + ctx.skb_len = omega arith in
      ground (arith, same, e, small)

  above :
      (m : Maps) (ctx : SockOpsMd) (b : ℕ)
      → ctx.cookie ≡ k
      → b + ctx.skb_len < 4294967296
      → cfg.restore_after_bytes < b + ctx.skb_len
      → (mss_settings (count_bytes abi m ctx cfg (sent_so_far b)).1 ≡ normal_mss cfg ∷ [])
        × (lookup k (count_bytes abi m ctx cfg (sent_so_far b)).0.connections ≡ none)
        × ((count_bytes abi m ctx cfg (sent_so_far b)).0.config_map ≡ m.config_map)
  unfolding count_bytes
  above m ctx b same fits big =
      let e : u32 (b + ctx.skb_len) ≡ b + ctx.skb_len = omega arith in
      ground (
        arith,
        same,
        e,
        big,
        lookup_deleted k
            (update k (record { bytes_sent = b + ctx.skb_len; mss_restored = 1 }) m.connections),
      )

  -- Segments of a connection that is no longer tracked.
  after_restore :
      (m : Maps) (ctxs : List SockOpsMd)
      → m.config_map ≡ some cfg
      → All (IsWrite abi k) ctxs
      → lookup k m.connections ≡ none
      → run_callbacks abi m ctxs ≡ (m, [])
  unfolding run_callbacks gecit_sockops dispatch handle_write_hdr_opt
  after_restore m [] found w gone = refl
  after_restore m (ctx ∷ ctxs) found w gone =
      ground (arith, found, w.0, gone, on, codes_ok, after_restore m ctxs found w.1 gone)

  -- What the segments of a tracked connection come to.
  abbrev Counted : Maps × List Call → ℕ → Type 0
  Counted r total =
      (total ≤ cfg.restore_after_bytes
        → (mss_settings r.1 ≡ []) × (lookup k r.0.connections ≡ some (sent_so_far total)))
      × (cfg.restore_after_bytes < total
          → (mss_settings r.1 ≡ normal_mss cfg ∷ []) × (lookup k r.0.connections ≡ none))

  writes :
      (m : Maps) (ctxs : List SockOpsMd) (b : ℕ)
      → m.config_map ≡ some cfg
      → All (IsWrite abi k) ctxs
      → lookup k m.connections ≡ some (sent_so_far b)
      → b ≤ cfg.restore_after_bytes
      → b + total_len ctxs < 4294967296
      → Counted (run_callbacks abi m ctxs) (b + total_len ctxs)
  unfolding run_callbacks
  writes m [] b found w tracked small fits =
      let e : b + 0 ≡ b = omega arith in
      (λ h. (refl, rw e tracked), λ h. absurd (omega (arith, small, h)))
  writes m (ctx ∷ ctxs) b found w tracked small fits =
      let first = write_step m ctx b found w.0 tracked in
      let assoc : b + (ctx.skb_len + total_len ctxs) ≡ b + ctx.skb_len + total_len ctxs =
        omega arith in
      elim (le_or_lt (b + ctx.skb_len) cfg.restore_after_bytes) [
        | inl le ↦
            let next : Maps = record m {
              connections = update k (sent_so_far (b + ctx.skb_len)) m.connections;
            } in
            rw (first, below m ctx b w.0.1 (omega arith) le, assoc)
              (writes next ctxs (b + ctx.skb_len) found w.1
                (lookup_updated k (sent_so_far (b + ctx.skb_len)) m.connections) le (omega arith))
        | inr lt ↦
            let (set_once, gone, same) = above m ctx b w.0.1 (omega arith) lt in
            let rest =
              after_restore (count_bytes abi m ctx cfg (sent_so_far b)).0 ctxs (same ∙ found) w.1
                gone in
            rw (first, rest, append-nil) (λ h. absurd (omega arith), λ h. (set_once, gone))
      ]
    where
      le_or_lt : (x y : ℕ) → (x ≤ y) ⊎ (y < x)
      le_or_lt x y = ground arith

-- The life of an intercepted connection under an enabled configuration, while it has sent fewer
-- than 2^32 bytes since its handshake: the handshake sets the small MSS; the segments set nothing
-- as long as their bytes do not pass RestoreAfterBytes; and once they do, the normal MSS was set
-- exactly once and the connection is no longer tracked.
pub mss_cycle :
    (abi : Abi) (m : Maps) (ctx : SockOpsMd) (cfg : BpfConfig) (ctxs : List SockOpsMd)
    → m.config_map ≡ some cfg
    → cfg.enabled ≢ 0
    → AreDistinct abi
    → ctx.op ≡ abi.active_established_cb
    → IsIntercepted abi m ctx
    → All (IsWrite abi ctx.cookie) ctxs
    → total_len ctxs < 4294967296
    → (total_len ctxs ≤ cfg.restore_after_bytes
        → mss_settings (run_callbacks abi m (ctx ∷ ctxs)).1 ≡ cfg.mss ∷ [])
      × (cfg.restore_after_bytes < total_len ctxs
          → (mss_settings (run_callbacks abi m (ctx ∷ ctxs)).1 ≡ cfg.mss ∷ normal_mss cfg ∷ [])
            × (lookup ctx.cookie (run_callbacks abi m (ctx ∷ ctxs)).0.connections ≡ none))
unfolding run_callbacks
mss_cycle abi m ctx cfg ctxs found on distinct op target w fits =
    let after = interception abi m ctx cfg in
    let none_yet : 0 + total_len ctxs ≡ total_len ctxs = omega arith in
    let (small, big) = rw none_yet at (
      writes abi ctx.cookie cfg on distinct after.0 ctxs 0 found w
        (lookup_updated ctx.cookie (sent_so_far 0) m.connections) (omega arith) (omega arith)) in
    rw ((gecit_sockops-established abi m ctx cfg found on op).0 target)
      ((λ h. ap (◌∷◌ cfg.mss) (small h).0), (λ h. (ap (◌∷◌ cfg.mss) (big h).0, (big h).1)))
