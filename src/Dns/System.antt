-- ===== src/Dns/System.antt =====
-- pkg/dns/system_linux.go: /etc/resolv.conf as a text. Reading and writing the file are the
-- operating system's; here is what SetSystemDNS and RestoreSystemDNS write for what they read.
use gecit_unofficial.Base.{
  Bool, false, not, ◌||◌, List, [], ◌∷◌, ◌++◌, if◌then◌else◌, Text, codes, text_eq, is_empty,
  trim_space, has_prefix, trim_prefix, split, join,
}

abbrev pub marker : Text
marker = codes "# gecit"

abbrev pub saved : Text
saved = codes "# gecit-saved: "

abbrev pub local_nameserver : Text
local_nameserver = codes "nameserver 127.0.0.1"

abbrev pub header_line : Text
header_line = codes "# gecit: DoH DNS active — original lines commented below"

unfoldable pub set_lines : List Text → List Text
set_lines [] = []
set_lines (line ∷ lines) =
    if is_empty (trim_space line) || has_prefix marker (trim_space line)
    then set_lines lines
    else if has_prefix (codes "nameserver") (trim_space line)
    then (saved ++ trim_space line) ∷ set_lines lines
    else line ∷ set_lines lines

-- strings.Join(lines, "\n")+"\n"
abbrev pub file_of : List Text → Text
file_of lines = join 10 lines ++ 10 ∷ []

unfoldable pub set_system_dns : Text → Text
set_system_dns orig = file_of (header_line ∷ local_nameserver ∷ set_lines (split 10 orig))

unfoldable pub has_state_line : List Text → Bool
has_state_line [] = false
has_state_line (line ∷ lines) =
    (has_prefix (codes "# gecit:") (trim_space line) || has_prefix saved (trim_space line))
    || has_state_line lines

unfoldable pub has_gecit_dns_state : Text → Bool
has_gecit_dns_state text = has_state_line (split 10 text)

unfoldable pub restore_lines : List Text → List Text
restore_lines [] = []
restore_lines (line ∷ lines) =
    if has_prefix saved (trim_space line)
    then trim_prefix saved (trim_space line) ∷ restore_lines lines
    else if has_prefix marker (trim_space line)
    then restore_lines lines
    else if text_eq (trim_space line) local_nameserver
    then restore_lines lines
    else if not (is_empty (trim_space line))
    then line ∷ restore_lines lines
    else restore_lines lines

-- The safe fallback
abbrev pub or_fallback : List Text → List Text
or_fallback [] = codes "nameserver 8.8.8.8" ∷ []
or_fallback (l ∷ ls) = l ∷ ls

unfoldable pub restore_system_dns : Text → Text
restore_system_dns text =
    if not (has_gecit_dns_state text)
    then text
    else file_of (or_fallback (restore_lines (split 10 text)))
