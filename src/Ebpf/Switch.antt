-- ===== src/Ebpf/Switch.antt =====
-- The master switch, and the keys of addresses.
use gecit_unofficial.Base.{
  ℕ, ◌+◌, ◌*◌, bit_or, ◌≡◌, refl, ◌∙◌, true, false, [], ◌∷◌, arith, shl, bit_or-shl, bit_or_comm,
  IsBytes, List,
}
use gecit_unofficial.Ebpf.Manager.{ManagerConfig, push_config, update_enabled, ip_key, uint32_to_ip}
use gecit_unofficial.Ebpf.Sockops.{Maps, SockOpsMd, Abi, gecit_sockops}
use gecit_unofficial.Ebpf.Threshold.{run_callbacks}

disabled_callback :
    (abi : Abi) (c : ManagerConfig) (m : Maps) (ctx : SockOpsMd)
    → gecit_sockops abi (update_enabled c false m) ctx ≡ (update_enabled c false m, [])
unfolding update_enabled gecit_sockops
disabled_callback abi c m ctx = refl

disabled_callbacks :
    (abi : Abi) (c : ManagerConfig) (m : Maps) (ctxs : List SockOpsMd)
    → run_callbacks abi (update_enabled c false m) ctxs ≡ (update_enabled c false m, [])
unfolding run_callbacks
disabled_callbacks abi c m [] = refl
disabled_callbacks abi c m (ctx ∷ ctxs) =
    rw (disabled_callback abi c m ctx, disabled_callbacks abi c m ctxs) refl

-- After UpdateEnabled(false) no sequence of callbacks makes a call or changes a map, and
-- UpdateEnabled(true) after it leaves the maps as pushConfig does, with the connections that were
-- tracked before.
pub update_enabled-run_callbacks :
    (abi : Abi) (c : ManagerConfig) (m : Maps) (ctxs : List SockOpsMd)
    → ((run_callbacks abi (update_enabled c false m) ctxs).1 ≡ [])
      × (update_enabled c true (run_callbacks abi (update_enabled c false m) ctxs).0
          ≡ push_config c m)
unfolding update_enabled push_config
update_enabled-run_callbacks abi c m ctxs = rw (disabled_callbacks abi c m ctxs) (refl, refl)

pub ip_key-sum :
    (a b c d : ℕ)
    → IsBytes (a ∷ b ∷ c ∷ d ∷ [])
    → ip_key a b c d ≡ a + b * 256 + c * 65536 + d * 16777216
unfolding ip_key
ip_key-sum a b c d h =
    let e1 : bit_or a (shl b 8) ≡ b * 256 + a = bit_or_comm a (b * 256) ∙ bit_or-shl 8 b a h.0 in
    let e2 : bit_or (b * 256 + a) (shl c 16) ≡ c * 65536 + (b * 256 + a) =
      bit_or_comm (b * 256 + a) (c * 65536) ∙ bit_or-shl 16 c (b * 256 + a) (omega (arith, h)) in
    let e3 : bit_or (c * 65536 + (b * 256 + a)) (shl d 24)
        ≡ d * 16777216 + (c * 65536 + (b * 256 + a)) =
      bit_or_comm (c * 65536 + (b * 256 + a)) (d * 16777216)
      ∙ bit_or-shl 24 d (c * 65536 + (b * 256 + a)) (omega (arith, h)) in
    rw (e1, e2, e3) (omega arith)

-- The key under which an IPv4 address of four bytes is excluded turns back into the
-- address by uint32ToIP, so different addresses have different keys.
pub uint32_to_ip-key :
    (a b c d : ℕ)
    → IsBytes (a ∷ b ∷ c ∷ d ∷ [])
    → uint32_to_ip (ip_key a b c d) ≡ a ∷ b ∷ c ∷ d ∷ []
uint32_to_ip-key a b c d h = rw (ip_key-sum a b c d h) (grind (arith, h))
