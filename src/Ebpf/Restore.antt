-- ===== src/Ebpf/Restore.antt =====
-- The MSS of a connection is restored once, when its bytes pass the limit.
use gecit_unofficial.Base.{
  ℕ, suc, ◌+◌, ◌≡◌, refl, ◌≢◌, Bool, false, none, List, [], ◌∷◌, arith, ◌==◌, if◌then◌else◌, ◌⊎◌,
  some, u32, ◌≤◌, sym, ◌∙◌, inl, inr, Bool-cases, Option-cases, All,
}
use gecit_unofficial.Ebpf.Sockops.{
  ConnState, Maps, SockOpsMd, Abi, Call, set_max_seg, lookup, delete, gecit_sockops, update,
  handle_established, count_bytes, handle_write_hdr_opt, BpfConfig, handle_hdr_opt_len, dispatch,
}

-- A callback, the kernel's eviction of a connection, or a write of the configuration by the
-- manager.
pub data Event : Type 0 where
  callback : SockOpsMd → Event
  evicted : ℕ → Event
  reconfigured : BpfConfig → Event

abbrev pub step : Abi → Maps → Event → Maps × List Call
step abi m (callback ctx) = gecit_sockops abi m ctx
step abi m (evicted k) = (record m { connections = delete k m.connections }, [])
step abi m (reconfigured cfg) = (record m { config_map = some cfg }, [])

-- The calls that a callback of another socket makes are not the connection's.
abbrev pub restores_of : List Call → ℕ
restores_of [] = 0
restores_of (set_max_seg n ∷ cs) = suc (restores_of cs)
restores_of (c ∷ cs) = restores_of cs

abbrev pub is_of : ℕ → Event → Bool
is_of k (callback ctx) = ctx.cookie == k
is_of k (evicted j) = false
is_of k (reconfigured cfg) = false

-- The MSS settings that the events make on the socket `k`.
unfoldable pub count_settings : Abi → ℕ → Maps → List Event → ℕ
count_settings abi k m [] = 0
count_settings abi k m (e ∷ es) =
    let rest = count_settings abi k (step abi m e).0 es in
    if is_of k e then restores_of (step abi m e).1 + rest else rest

-- No event is the socket's own handshake.
abbrev pub NotEstablished : Abi → ℕ → Event → Type 0
NotEstablished abi k (callback ctx) = ctx.cookie ≡ k → ctx.op ≢ abi.active_established_cb
NotEstablished abi k (evicted j) = Unit
NotEstablished abi k (reconfigured cfg) = Unit

pub lookup_deleted : (k : ℕ) (xs : List (ℕ × ConnState)) → lookup k (delete k xs) ≡ none
unfolding lookup delete
lookup_deleted k [] = refl
lookup_deleted k ((x, s) ∷ xs) = ground (arith, lookup_deleted k xs)

lookup_other :
    (k j : ℕ) (xs : List (ℕ × ConnState)) → (k ≡ j → ⊥) → lookup k (delete j xs) ≡ lookup k xs
unfolding lookup delete
lookup_other k j [] h = refl
lookup_other k j ((x, s) ∷ xs) h = ground (arith, lookup_other k j xs h)

update_other :
    (k j : ℕ) (s : ConnState) (xs : List (ℕ × ConnState))
    → (k ≡ j → ⊥)
    → lookup k (update j s xs) ≡ lookup k xs
unfolding update lookup
update_other k j s xs h = ground (arith, lookup_other k j xs h)

module _ (abi : Abi) (k : ℕ) (m : Maps) where
  -- What is not tracked stays so, and nothing is set on it.
  established_other :
      (ctx : SockOpsMd) (cfg : BpfConfig)
      → (k ≡ ctx.cookie → ⊥)
      → lookup k (handle_established abi m ctx cfg).0.connections ≡ lookup k m.connections
  unfolding handle_established
  established_other ctx cfg h =
      let new : ConnState = record { bytes_sent = 0; mss_restored = 0 } in
      ground (arith, update_other k ctx.cookie new m.connections h)

  module _ (ctx : SockOpsMd) (cfg : BpfConfig) (state : ConnState) where
    abbrev sent : ℕ
    sent = u32 (state.bytes_sent + ctx.skb_len)

    abbrev counted : ConnState
    counted = record state { bytes_sent = sent }

    abbrev settled : ConnState
    settled = record { bytes_sent = sent; mss_restored = 1 }

  count_other :
      (ctx : SockOpsMd) (cfg : BpfConfig) (state : ConnState)
      → (k ≡ ctx.cookie → ⊥)
      → lookup k (count_bytes abi m ctx cfg state).0.connections ≡ lookup k m.connections
  unfolding count_bytes
  count_other ctx cfg state h = ground (
    arith,
    update_other k ctx.cookie (counted ctx cfg state) m.connections h,
    update_other k ctx.cookie (settled ctx cfg state) m.connections h,
    lookup_other k ctx.cookie (update ctx.cookie (settled ctx cfg state) m.connections) h,
  )

  write_other :
      (ctx : SockOpsMd) (cfg : BpfConfig)
      → (k ≡ ctx.cookie → ⊥)
      → lookup k (handle_write_hdr_opt abi m ctx cfg).0.connections ≡ lookup k m.connections
  unfolding handle_write_hdr_opt
  write_other ctx cfg h =
      let other : (state : ConnState)
          → lookup k (count_bytes abi m ctx cfg state).0.connections ≡ lookup k m.connections =
        λ state. count_other ctx cfg state h in
      grind (arith, other)

  count_once :
      (ctx : SockOpsMd) (cfg : BpfConfig) (state : ConnState)
      → k ≡ ctx.cookie
      → (restores_of (count_bytes abi m ctx cfg state).1 ≡ 0)
        ⊎ ((restores_of (count_bytes abi m ctx cfg state).1 ≡ 1)
            × (lookup k (count_bytes abi m ctx cfg state).0.connections ≡ none))
  unfolding count_bytes
  count_once ctx cfg state h =
      ground (arith, h, lookup_deleted k (update ctx.cookie (settled ctx cfg state) m.connections))

  -- What a callback of the socket itself does, its handshake apart.
  abbrev Own : Maps × List Call → Type 0
  Own r =
      ((restores_of r.1 ≡ 0) ⊎ ((restores_of r.1 ≡ 1) × (lookup k r.0.connections ≡ none)))
      × (lookup k m.connections ≡ none → (restores_of r.1 ≡ 0) × (lookup k r.0.connections ≡ none))

  write-Own :
      (ctx : SockOpsMd) (cfg : BpfConfig)
      → k ≡ ctx.cookie
      → Own (handle_write_hdr_opt abi m ctx cfg)
  unfolding handle_write_hdr_opt
  write-Own ctx cfg h = elim (Option-cases (lookup ctx.cookie m.connections)) [
    | inl absent ↦ ground (arith, absent, h)
    | inr (state, found) ↦
        let counted_once = count_once ctx cfg state h in ground (arith, found, h, counted_once)
  ]

  dispatch-Own :
      (ctx : SockOpsMd) (cfg : BpfConfig)
      → k ≡ ctx.cookie
      → ctx.op ≢ abi.active_established_cb
      → Own (dispatch abi m ctx cfg)
  unfolding dispatch handle_hdr_opt_len
  dispatch-Own ctx cfg h op = ground (arith, write-Own ctx cfg h, op)

  dispatch_other :
      (ctx : SockOpsMd) (cfg : BpfConfig)
      → (k ≡ ctx.cookie → ⊥)
      → lookup k (dispatch abi m ctx cfg).0.connections ≡ lookup k m.connections
  unfolding dispatch handle_hdr_opt_len
  dispatch_other ctx cfg h = ground (arith, write_other ctx cfg h, established_other ctx cfg h)

  sockops-Own :
      (ctx : SockOpsMd)
      → k ≡ ctx.cookie
      → ctx.op ≢ abi.active_established_cb
      → Own (gecit_sockops abi m ctx)
  unfolding gecit_sockops
  sockops-Own ctx h op = elim (Option-cases m.config_map) [
    | inl absent ↦ ground (arith, absent)
    | inr (cfg, found) ↦ ground (arith, found, dispatch-Own ctx cfg h op)
  ]

  sockops_other :
      (ctx : SockOpsMd)
      → (k ≡ ctx.cookie → ⊥)
      → lookup k (gecit_sockops abi m ctx).0.connections ≡ lookup k m.connections
  unfolding gecit_sockops
  sockops_other ctx h = elim (Option-cases m.config_map) [
    | inl absent ↦ ground (arith, absent)
    | inr (cfg, found) ↦ ground (arith, found, dispatch_other ctx cfg h)
  ]

  delete_absent : (j : ℕ) → lookup k m.connections ≡ none → lookup k (delete j m.connections) ≡ none
  delete_absent j h = elim (Bool-cases (k == j)) [
    | inl e ↦ let same : j ≡ k = ground (arith, e) in rw same (lookup_deleted k m.connections)
    | inr e ↦ lookup_other k j m.connections (ground (arith, e)) ∙ h
  ]

-- Of a socket that is not tracked, no setting is made until its handshake.
count_absent :
    (abi : Abi) (k : ℕ) (m : Maps) (es : List Event)
    → All (NotEstablished abi k) es
    → lookup k m.connections ≡ none
    → count_settings abi k m es ≡ 0
unfolding count_settings
count_absent abi k m [] n absent = refl
count_absent abi k m (callback ctx ∷ es) n absent = elim (Bool-cases (ctx.cookie == k)) [
  | inl e ↦
      let same : k ≡ ctx.cookie = ground (arith, e) in
      let (settings, gone) = (sockops-Own abi k m ctx same (n.0 (sym same))).1 absent in
      ground (arith, e, settings, count_absent abi k (gecit_sockops abi m ctx).0 es n.1 gone)
  | inr e ↦
      let other : lookup k (gecit_sockops abi m ctx).0.connections ≡ none =
        sockops_other abi k m ctx (ground (arith, e)) ∙ absent in
      ground (arith, e, count_absent abi k (gecit_sockops abi m ctx).0 es n.1 other)
]
count_absent abi k m (evicted j ∷ es) n absent =
    count_absent abi k (step abi m (evicted j)).0 es n.1 (delete_absent abi k m j absent)
count_absent abi k m (reconfigured cfg ∷ es) n absent =
    count_absent abi k (step abi m (reconfigured cfg)).0 es n.1 absent

-- Between two handshakes of a socket the program sets its MSS at most once, whatever callbacks of
-- this and of other sockets, evictions and new configurations come.
pub count_settings_le :
    (abi : Abi) (k : ℕ) (m : Maps) (es : List Event)
    → All (NotEstablished abi k) es
    → count_settings abi k m es ≤ 1
unfolding count_settings
count_settings_le abi k m [] n = omega arith
count_settings_le abi k m (callback ctx ∷ es) n =
    let later = count_settings_le abi k (gecit_sockops abi m ctx).0 es n.1 in
    elim (Bool-cases (ctx.cookie == k)) [
      | inr e ↦ ground (arith, e, later)
      | inl e ↦
          let same : k ≡ ctx.cookie = ground (arith, e) in
          elim (sockops-Own abi k m ctx same (n.0 (sym same))).0 [
            | inl zero_settings ↦ ground (arith, e, zero_settings, later)
            | inr (settings, gone) ↦
                ground
                  (arith, e, settings, count_absent abi k (gecit_sockops abi m ctx).0 es n.1 gone)
          ]
    ]
count_settings_le abi k m (evicted j ∷ es) n =
    count_settings_le abi k (step abi m (evicted j)).0 es n.1
count_settings_le abi k m (reconfigured cfg ∷ es) n =
    count_settings_le abi k (step abi m (reconfigured cfg)).0 es n.1
