-- ===== src/Router/Nftables.antt =====
-- pkg/router/nftables.go: the nftables commands and the batches made of them. strconv.Quote, which
-- prints the interface's name, is a parameter.
use gecit_unofficial.Base.{
  ℕ, ◌+◌, ◌%◌, not, ◌&&◌, none, some, List, [], ◌∷◌, ◌++◌, ltb, ◌==◌, if◌then◌else◌, shr, length,
  Result, returns, fails, Text, codes, is_empty, trim_space, trim_prefix,
}
use gecit_unofficial.Router.Config.{Config, normalized, ConfigError, validate}
use gecit_unofficial.Router.Processor.{decimal}

pub record RuleSet : Type 0 where
  pub table_name : Text
  pub setup : List Text
  pub teardown : List Text

abbrev pub Quote : Type 0
Quote = Text → Text

abbrev pub hex_digit : ℕ → ℕ
hex_digit d = if ltb d 10 then 48 + d else 87 + d

-- fmt.Sprintf("0x%08x", mark)
unfoldable pub format_mark : ℕ → Text
format_mark mark =
    codes "0x"
    ++ hex_digit (shr mark 28 % 16)
      ∷ hex_digit (shr mark 24 % 16)
      ∷ hex_digit (shr mark 20 % 16)
      ∷ hex_digit (shr mark 16 % 16)
      ∷ hex_digit (shr mark 12 % 16)
      ∷ hex_digit (shr mark 8 % 16)
      ∷ hex_digit (shr mark 4 % 16)
      ∷ hex_digit (mark % 16)
      ∷ []

-- The ports behind the first, each with its separator
unfoldable pub more_ports : List ℕ → Text
more_ports [] = []
more_ports (port ∷ ports) = codes ", " ++ decimal port ++ more_ports ports

unfoldable pub format_port_set : List ℕ → Text
format_port_set [] = codes "{  }"
format_port_set (port ∷ []) = decimal port
format_port_set (port ∷ q ∷ ports) =
    codes "{ " ++ decimal port ++ more_ports (q ∷ ports) ++ codes " }"

abbrev pub queue_chain : Config → Text
queue_chain c = if not c.enable_post_nat then codes "post" else codes "postnat"

abbrev pub priority : Config → Text
priority c = if not c.enable_post_nat then codes "mangle" else codes "srcnat + 1"

unfoldable pub table_command : Config → Text
table_command c = codes "nft add table inet " ++ c.table_name

unfoldable pub chain_command : Config → Text
chain_command c =
    codes "nft 'add chain inet "
    ++ c.table_name
    ++ codes " "
    ++ queue_chain c
    ++ codes " { type filter hook postrouting priority "
    ++ priority c
    ++ codes "; }'"

unfoldable pub queue_command : Quote → Config → Text → List ℕ → Text
queue_command quote c proto ports =
    codes "nft add rule inet "
    ++ c.table_name
    ++ codes " "
    ++ queue_chain c
    ++ codes " oifname "
    ++ quote c.wan_interface
    ++ codes " meta mark and "
    ++ format_mark c.packet_mark
    ++ codes " == 0 "
    ++ proto
    ++ codes " dport "
    ++ format_port_set ports
    ++ codes " ct original packets 1-6 queue num "
    ++ decimal c.queue_num
    ++ codes " bypass"

unfoldable pub predefrag_command : Config → Text
predefrag_command c =
    codes "nft 'add chain inet "
    ++ c.table_name
    ++ codes " predefrag { type filter hook output priority -401; }'"

unfoldable pub notrack_command : Config → Text
notrack_command c =
    codes "nft add rule inet "
    ++ c.table_name
    ++ codes " predefrag mark and "
    ++ format_mark c.packet_mark
    ++ codes " != 0 notrack"

unfoldable pub quic_commands : Quote → Config → List Text
quic_commands quote c =
    if c.enable_quic && not (length c.udp_ports == 0)
    then queue_command quote c (codes "udp") c.udp_ports ∷ []
    else []

unfoldable pub rules_of : Quote → Config → RuleSet
rules_of quote c = record {
  table_name = c.table_name;
  setup =
      (table_command c ∷ chain_command c ∷ queue_command quote c (codes "tcp") c.tcp_ports ∷ [])
      ++ quic_commands quote c
      ++ predefrag_command c ∷ notrack_command c ∷ [];
  teardown = (codes "nft delete table inet " ++ c.table_name) ∷ [];
}

unfoldable pub build_rule_set : Quote → Config → Result ConfigError RuleSet
build_rule_set quote cfg = elim (validate (normalized cfg)) [
  | some e ↦ fails e
  | none ↦ returns (rules_of quote (normalized cfg))
]

abbrev pub last_or : ℕ → Text → ℕ
last_or d [] = d
last_or d (c ∷ s) = last_or c s

abbrev pub without_last : Text → Text
without_last [] = []
without_last (c ∷ []) = []
without_last (c ∷ d ∷ s) = c ∷ without_last (d ∷ s)

-- The quotes of the shell around a statement, if both are there
unfoldable pub unquote : Text → Text
unquote [] = []
unquote (c ∷ []) = c ∷ []
unquote (c ∷ d ∷ s) = if c == 39 && last_or c (d ∷ s) == 39 then without_last (d ∷ s) else c ∷ d ∷ s

unfoldable pub nft_statement : Text → Text
nft_statement command = unquote (trim_prefix (codes "nft ") (trim_space command))

unfoldable pub render_batch : List Text → Text
render_batch [] = []
render_batch (cmd ∷ cmds) =
    if is_empty (nft_statement cmd)
    then render_batch cmds
    else nft_statement cmd ++ 10 ∷ render_batch cmds

unfoldable pub setup_batch : RuleSet → Text
setup_batch r = render_batch r.setup

unfoldable pub teardown_batch : RuleSet → Text
teardown_batch r = render_batch r.teardown

-- The loops of ShellScript
unfoldable pub script_lines : Text → List Text → Text
script_lines before [] = []
script_lines before (cmd ∷ cmds) = before ++ cmd ++ 10 ∷ script_lines before cmds

unfoldable pub shell_script : RuleSet → Text
shell_script r =
    codes "#!/bin/sh\nset -eu\n\n# Setup\n"
    ++ script_lines [] r.setup
    ++ codes "\n# Teardown\n"
    ++ script_lines (codes "# ") r.teardown
