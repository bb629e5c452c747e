-- ===== src/Router/Config.antt =====
-- pkg/router/config.go. A Go `int` is an integer of Base.Int, a uint16 or uint32 a number. An
-- error is a value of its own type, with what its message names.
use gecit_unofficial.Base.{
  ℕ, Bool, true, false, not, ◌&&◌, ◌||◌, Option, none, some, List, [], ◌∷◌, leb, ◌==◌,
  if◌then◌else◌, Text, codes, text_eq, is_empty, trim_space, length,
}
use gecit_unofficial.Base.Int.{ℤ, pos, is_zero, ltb_ℤ, gtb_ℤ}

pub record Config : Type 0 where
  pub wan_interface : Text
  pub lan_interfaces : List Text
  pub table_name : Text
  pub backend : Text
  pub queue_num : ℕ
  pub packet_mark : ℕ
  pub tcp_ports : List ℕ
  pub udp_ports : List ℕ
  pub fake_ttl : ℤ
  pub max_flows : ℤ
  pub probe_targets : List Text
  pub auto_hostlist_path : Text
  pub enable_quic : Bool
  pub enable_post_nat : Bool

abbrev pub queue_backend_nf_queue : Text
queue_backend_nf_queue = codes "nfqueue"

abbrev pub queue_backend_dry_run : Text
queue_backend_dry_run = codes "dryrun"

abbrev pub default_config : Config
default_config = record {
  wan_interface = [];
  lan_interfaces = [];
  table_name = codes "gecit_router";
  backend = queue_backend_nf_queue;
  queue_num = 200;
  packet_mark = 0x40000000;
  tcp_ports = 443 ∷ [];
  udp_ports = 443 ∷ [];
  fake_ttl = pos 8;
  max_flows = pos 4096;
  probe_targets = codes "discord.com" ∷ codes "youtube.com" ∷ [];
  auto_hostlist_path = [];
  enable_quic = false;
  enable_post_nat = true;
}

-- trimStrings: each value trimmed, the empty ones left out.
unfoldable pub trim_strings : List Text → List Text
trim_strings [] = []
trim_strings (v ∷ vs) =
    if is_empty (trim_space v) then trim_strings vs else trim_space v ∷ trim_strings vs

-- `if len(c.X) == 0 { c.X = def.X }`, for a string or a slice
abbrev pub or_default {ℓ} : {A : Type ℓ} → List A → List A → List A
or_default [] def = def
or_default (x ∷ xs) def = x ∷ xs

unfoldable pub normalized : Config → Config
normalized c = record c {
  wan_interface = trim_space (or_default c.wan_interface default_config.wan_interface);
  lan_interfaces = trim_strings c.lan_interfaces;
  table_name = or_default c.table_name default_config.table_name;
  backend = or_default c.backend default_config.backend;
  queue_num = if c.queue_num == 0 then default_config.queue_num else c.queue_num;
  packet_mark = if c.packet_mark == 0 then default_config.packet_mark else c.packet_mark;
  tcp_ports = or_default c.tcp_ports default_config.tcp_ports;
  udp_ports = or_default c.udp_ports default_config.udp_ports;
  fake_ttl = if is_zero c.fake_ttl then default_config.fake_ttl else c.fake_ttl;
  max_flows = if is_zero c.max_flows then default_config.max_flows else c.max_flows;
  probe_targets = or_default (trim_strings c.probe_targets) default_config.probe_targets;
}

pub data ConfigError : Type 0 where
  unsupported_backend : Text → ConfigError
  wan_required : ConfigError
  invalid_table_name : Text → ConfigError
  zero_port : Text → ConfigError
  no_target_port : ConfigError
  fake_ttl_range : ℤ → ConfigError
  max_flows_range : ℤ → ConfigError

unfoldable pub is_letter : ℕ → Bool
is_letter c = (leb b'A' c && leb c b'Z') || (leb b'a' c && leb c b'z')

unfoldable pub is_word : ℕ → Bool
is_word c = is_letter c || (leb b'0' c && leb c b'9') || c == b'_'

unfoldable pub all_word : Text → Bool
all_word [] = true
all_word (c ∷ s) = is_word c && all_word s

-- tableNameRE: ^[A-Za-z][A-Za-z0-9_]{0,31}$
unfoldable pub table_name_matches : Text → Bool
table_name_matches [] = false
table_name_matches (c ∷ s) = is_letter c && (leb (length s) 31 && all_word s)

-- validatePorts; `none` is the nil error.
unfoldable pub validate_ports : Text → List ℕ → Option ConfigError
validate_ports proto [] = none
validate_ports proto (port ∷ ports) =
    if port == 0 then some (zero_port proto) else validate_ports proto ports

-- The first error of two checks.
abbrev pub first_error : Option ConfigError → Option ConfigError → Option ConfigError
first_error none later = later
first_error (some e) later = some e

abbrev pub check : Bool → ConfigError → Option ConfigError
check failed e = if failed then some e else none

-- Validate behind its own normalization.
unfoldable pub validate_normalized : Config → Option ConfigError
validate_normalized c =
    first_error
      (check
        (not (text_eq c.backend queue_backend_nf_queue || text_eq c.backend queue_backend_dry_run))
        (unsupported_backend c.backend))
      (first_error (check (is_empty c.wan_interface) wan_required) (
        first_error
          (check (not (table_name_matches c.table_name)) (invalid_table_name c.table_name))
          (first_error (validate_ports (codes "tcp") c.tcp_ports) (
            first_error (if c.enable_quic then validate_ports (codes "udp") c.udp_ports else none) (
              first_error
                (check (length c.tcp_ports == 0 && (not c.enable_quic || length c.udp_ports == 0))
                  no_target_port)
                (first_error
                  (check (ltb_ℤ c.fake_ttl 1 || gtb_ℤ c.fake_ttl 255) (fake_ttl_range c.fake_ttl))
                  (check (ltb_ℤ c.max_flows 1) (max_flows_range c.max_flows))))))))

unfoldable pub validate : Config → Option ConfigError
validate c = validate_normalized (normalized c)
