-- ===== src/Router/Validate.antt =====
-- Validate accepts exactly the sane configurations.
use gecit_unofficial.Base.{
  ℕ, ◌<◌, ◌≡◌, refl, ◌⊎◌, inl, inr, Bool, true, false, not, ◌||◌, none, some, List, arith,
  if◌then◌else◌, length, Text, codes, text_eq, text_eq_iff, ◌≤◌, ◌≢◌, ◌↔◌, ◌&&◌, Option, ◌==◌, [],
  ◌∷◌,
}
use gecit_unofficial.Router.Sane.{
  NoZero, IsSane, validate_ports-none, ttl_range, flows_range, split_error, check-none,
  NoZero-validate_ports, some_ports, matches→IsTableName, IsTableName→matches,
}
use gecit_unofficial.Router.Config.{
  Config, queue_backend_nf_queue, queue_backend_dry_run, validate_ports, validate_normalized,
  default_config, normalized, ConfigError, no_target_port, first_error, check, validate,
  unsupported_backend, wan_required, invalid_table_name, fake_ttl_range, max_flows_range,
}
use gecit_unofficial.Base.Int.{ℤ, pos, ltb_ℤ, gtb_ℤ}

backend_cases :
    (b : Text)
    → not (text_eq b queue_backend_nf_queue || text_eq b queue_backend_dry_run) ≡ false
    → (b ≡ queue_backend_nf_queue) ⊎ (b ≡ queue_backend_dry_run)
backend_cases b h =
    ground (arith, text_eq_iff b queue_backend_nf_queue, text_eq_iff b queue_backend_dry_run)

udp_checked :
    (quic : Bool) (ports : List ℕ)
    → (if quic then validate_ports (codes "udp") ports else none) ≡ none
    → quic ≡ true
    → NoZero ports
udp_checked true ports h e = validate_ports-none (codes "udp") ports h
udp_checked false ports h e = cc

validate_normalized-IsSane :
    (c : Config) → 0 < length c.tcp_ports → validate_normalized c ≡ none → IsSane c
unfolding validate_normalized
validate_normalized-IsSane c filled h =
    let (backend, h1) = split_error _ _ h in
    let (wan, h2) = split_error _ _ h1 in
    let (table, h3) = split_error _ _ h2 in
    let (tcp_ok, h4) = split_error _ _ h3 in
    let (udp_ok, h5) = split_error _ _ h4 in
    let (ports, h6) = split_error _ _ h5 in
    let (ttl, flows) = split_error _ _ h6 in
    record {
      backend_known = backend_cases c.backend (check-none _ _ backend);
      wan_named = check-none _ _ wan;
      table_safe = matches→IsTableName c.table_name (not_false (check-none _ _ table));
      tcp_ports = validate_ports-none (codes "tcp") c.tcp_ports tcp_ok;
      tcp_some = filled;
      udp_ports = udp_checked c.enable_quic c.udp_ports udp_ok;
      ttl = ttl_range c.fake_ttl (check-none _ _ ttl);
      flows = flows_range c.max_flows (check-none _ _ flows);
    }
  where
    not_false : {b : Bool} → not b ≡ false → b ≡ true
    not_false {b} e = ground arith

backend_passes :
    (b : Text)
    → (b ≡ queue_backend_nf_queue) ⊎ (b ≡ queue_backend_dry_run)
    → not (text_eq b queue_backend_nf_queue || text_eq b queue_backend_dry_run) ≡ false
backend_passes b (inl e) = rw e (unfold text_eq in refl)
backend_passes b (inr e) = rw e (unfold text_eq in refl)

both_none : {a b : Option ConfigError} → a ≡ none → b ≡ none → first_error a b ≡ none
both_none {a} {b} p q = rw (p, first_error) q

passes : {failed : Bool} (e : ConfigError) → failed ≡ false → check failed e ≡ none
passes {failed} e h = rw (h, check)

udp_passes :
    (quic : Bool) (ports : List ℕ)
    → (quic ≡ true → NoZero ports)
    → (if quic then validate_ports (codes "udp") ports else none) ≡ none
udp_passes true ports h = NoZero-validate_ports (codes "udp") ports (h refl)
udp_passes false ports h = refl

ttl_passes : (x : ℤ) (n : ℕ) → x ≡ pos n → 1 ≤ n → n ≤ 255 → (ltb_ℤ x 1 || gtb_ℤ x 255) ≡ false
ttl_passes x n e lo hi = rw e (ground arith)

flows_passes : (x : ℤ) (n : ℕ) → x ≡ pos n → 1 ≤ n → ltb_ℤ x 1 ≡ false
flows_passes x n e lo = rw e (ground arith)

filled_passes :
    (ports : List ℕ) (rest : Bool) → 0 < length ports → (length ports == 0 && rest) ≡ false
filled_passes ports rest h = ground arith

flip_true : {b : Bool} → b ≡ true → not b ≡ false
flip_true {b} e = ground arith

IsSane-validate_normalized : (c : Config) → IsSane c → validate_normalized c ≡ none
unfolding validate_normalized
IsSane-validate_normalized c s =
    let (n, en, lo, hi) = s.ttl in
    let (m, em, most) = s.flows in
    both_none (passes _ (backend_passes c.backend s.backend_known)) (
      both_none (passes _ s.wan_named) (
        both_none (passes _ (flip_true (IsTableName→matches c.table_name s.table_safe))) (
          both_none (NoZero-validate_ports (codes "tcp") c.tcp_ports s.tcp_ports) (
            both_none (udp_passes c.enable_quic c.udp_ports s.udp_ports) (
              both_none (passes _ (filled_passes c.tcp_ports _ s.tcp_some)) (
                both_none (passes _ (ttl_passes c.fake_ttl n en lo hi))
                  (passes _ (flows_passes c.max_flows m em most))))))))

tcp_filled : (c : Config) → 0 < length (normalized c).tcp_ports
unfolding normalized
tcp_filled c = some_ports c.tcp_ports default_config.tcp_ports (omega arith)

-- Validate returns nil exactly when the normalized configuration is sane: a known backend, a WAN
-- interface, a table name of at most 32 word characters that starts with a letter, at least one
-- TCP port and none of them 0, no UDP port 0 if QUIC is on, a TTL from 1 to 255 and at least one
-- flow.
pub validate-IsSane_iff : (c : Config) → (validate c ≡ none) ↔ IsSane (normalized c)
unfolding validate
validate-IsSane_iff c = (
  validate_normalized-IsSane (normalized c) (tcp_filled c),
  IsSane-validate_normalized (normalized c),
)

validate_ports-ne-no_target_port :
    (proto : Text) (ports : List ℕ) → validate_ports proto ports ≢ some no_target_port
unfolding validate_ports
validate_ports-ne-no_target_port proto [] e = cc
validate_ports-ne-no_target_port proto (p ∷ ps) e =
    ground (arith, validate_ports-ne-no_target_port proto ps)

first_error-ne :
    {a b : Option ConfigError} {e : ConfigError}
    → a ≢ some e
    → b ≢ some e
    → first_error a b ≢ some e
first_error-ne {a = none} p q = q
first_error-ne {a = some x} p q = p

check-ne : (failed : Bool) (e e' : ConfigError) → e ≢ e' → check failed e ≢ some e'
check-ne failed e e' h k = ground (arith, h)

passed-ne : {failed : Bool} (e e' : ConfigError) → failed ≡ false → check failed e ≢ some e'
passed-ne {failed} e e' h k = ground arith

udp-ne :
    (quic : Bool) (ports : List ℕ)
    → (if quic then validate_ports (codes "udp") ports else none) ≢ some no_target_port
udp-ne true ports e = validate_ports-ne-no_target_port (codes "udp") ports e
udp-ne false ports e = cc

-- The check for an empty port list can never fail, since Normalized fills the list in.
pub validate-ne-no_target_port : (c : Config) → validate c ≢ some no_target_port
unfolding validate validate_normalized
validate-ne-no_target_port c =
    let n = normalized c in
    first_error-ne (check-ne _ (unsupported_backend n.backend) no_target_port (λ e. cc)) (
      first_error-ne (check-ne _ wan_required no_target_port (λ e. cc)) (
        first_error-ne (check-ne _ (invalid_table_name n.table_name) no_target_port (λ e. cc)) (
          first_error-ne (validate_ports-ne-no_target_port (codes "tcp") n.tcp_ports) (
            first_error-ne (udp-ne n.enable_quic n.udp_ports) (
              first_error-ne
                (passed-ne no_target_port no_target_port
                  (filled_passes n.tcp_ports _ (tcp_filled c)))
                (first_error-ne (check-ne _ (fake_ttl_range n.fake_ttl) no_target_port (λ e. cc))
                  (check-ne _ (max_flows_range n.max_flows) no_target_port (λ e. cc))))))))
