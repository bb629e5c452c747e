-- ===== src/Dns/Windows.antt =====
-- pkg/dns/system_windows.go. What netsh prints is given, `none` for an error, and what is done with
-- the tools and with the breadcrumb file is a list of calls, in order. net.ParseIP with IsLoopback
-- is a parameter.
use gecit_unofficial.Base.{
  Bool, not, ◌&&◌, Option, none, some, List, [], ◌∷◌, ◌++◌, leb, if◌then◌else◌, length, drop, split,
  join, split_once, fields, contains, Text, codes, text_eq, is_empty, trim_space,
}
use gecit_unofficial.Dns.System.{saved}
use gecit_unofficial.Dns.Queue.{behind}

pub data WinCall : Type 0 where
  -- netsh interface ip set dns iface dhcp, and static with a server
  set_dhcp : Text → WinCall
  set_static : Text → Text → WinCall
  flush_dns : WinCall
  write_file : Text → WinCall
  remove_file : WinCall

-- Whether a word is an address other than a loopback address
abbrev pub IsServer : Type 0
IsServer = Text → Bool

unfoldable pub first_server : IsServer → List Text → Option Text
first_server is_server [] = none
first_server is_server (p ∷ words) = if is_server p then some p else first_server is_server words

unfoldable pub server_in : IsServer → List Text → Text
server_in is_server [] = codes "dhcp"
server_in is_server (line ∷ lines) = elim (first_server is_server (fields (trim_space line))) [
  | some p ↦ p
  | none ↦ server_in is_server lines
]

unfoldable pub get_current_dns : IsServer → Option Text → Text
get_current_dns is_server none = codes "dhcp"
get_current_dns is_server (some out) = server_in is_server (split 10 out)

-- strings.Join(fields[3:], " ") of the first line of a connected interface; `none` is the error.
unfoldable pub interface_in : List Text → Option Text
interface_in [] = none
interface_in (line ∷ lines) =
    let next = interface_in lines in
    let words = fields (trim_space line) in
    if contains (trim_space line) (codes "Connected")
      && not (contains (trim_space line) (codes "Loopback"))
    then (if leb 4 (length words) then some (join 32 (drop 3 words)) else next)
    else next

unfoldable pub detect_windows_interface : Option Text → Option Text
detect_windows_interface none = none
detect_windows_interface (some out) = interface_in (split 10 out)

-- netsh ... dhcp, or static with a server
abbrev pub put_dns : Text → Text → WinCall
put_dns iface prev = if text_eq prev (codes "dhcp") then set_dhcp iface else set_static iface prev

-- What a run that did not restore has left; the two texts of strings.SplitN
unfoldable pub recover_lines : Text × List Text → List WinCall
recover_lines (prev, []) = []
recover_lines (prev, behind ∷ rest) =
    if not (is_empty (trim_space prev))
      && not (text_eq (trim_space prev) (codes "127.0.0.1"))
      && not (is_empty (trim_space behind))
    then put_dns (trim_space behind) (trim_space prev) ∷ []
    else []

unfoldable pub recover : Option Text → List WinCall
recover none = []
recover (some text) = recover_lines (split_once 10 text)

abbrev pub crumb : Text → Text → Text
crumb current iface = (current ++ 10 ∷ iface) ++ 10 ∷ []

pub record WinAnswers : Type 0 where
  pub interfaces : Option Text
  pub file : Option Text
  pub dns_shown : Option Text
  pub set_ok : Bool

-- The calls, and savedInterface; `none` is the error before any call.
unfoldable pub set_windows_dns : IsServer → WinAnswers → Option (List WinCall × Text)
set_windows_dns is_server ans = elim (detect_windows_interface ans.interfaces) [
  | none ↦ none
  | some iface ↦ some (
    recover ans.file
        ++ write_file (crumb (get_current_dns is_server ans.dns_shown) iface)
          ∷ set_static iface (codes "127.0.0.1")
          ∷ (if ans.set_ok then flush_dns ∷ [] else []),
    iface,
  )
]

abbrev pub or_detected : Text → Option Text → Text
or_detected saved found =
    if is_empty saved then (elim found [ none ↦ [] | some iface ↦ iface ]) else saved

abbrev pub second_or : List Text → Text → Text
second_or [] saved = saved
second_or (behind ∷ rest) saved = if is_empty (trim_space behind) then saved else trim_space behind

unfoldable pub restore_parts : Text → Text × List Text → List WinCall
restore_parts saved (prev, rest) =
    (if is_empty (trim_space prev)
      then set_dhcp (second_or rest saved)
      else put_dns (second_or rest saved) (trim_space prev))
    ∷ flush_dns
    ∷ remove_file
    ∷ []

-- For the breadcrumb file, savedInterface, and the interfaces where they are asked for
unfoldable pub restore_windows_dns : Option Text → Text → Option Text → List WinCall
restore_windows_dns none saved interfaces =
    let iface = or_detected saved (detect_windows_interface interfaces) in
    if is_empty iface then [] else set_dhcp iface ∷ []
restore_windows_dns (some text) saved interfaces = restore_parts saved (split_once 10 text)
