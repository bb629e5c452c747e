-- ===== src/App/Cleanup.antt =====
-- cmd/gecit/app/cleanup_darwin.go and cleanup_windows.go: platformCleanup. The breadcrumb file and
-- what the tools print are given, `none` for an error; what is done with the tools is a list of
-- calls.
use gecit_unofficial.Base.{
  ◌||◌, Option, none, some, List, [], ◌∷◌, ◌++◌, map, if◌then◌else◌, split_once, fields, contains,
  Text, codes, text_eq, is_empty, trim_space,
}
use gecit_unofficial.Dns.Darwin.{MacCall, set_servers, remove_breadcrumb, hup_responder}
use gecit_unofficial.Dns.Windows.{WinCall, restore_parts}

abbrev pub trimmed_or : Text → Text → Text
trimmed_or otherwise t = if is_empty (trim_space t) then otherwise else trim_space t

-- strings.SplitN(s, "\n", 3): the first line, and the second if there is one
abbrev pub second_line : List Text → Text
second_line [] = []
second_line (rest ∷ more) = (split_once 10 rest).0

unfoldable pub servers_of : Text → List Text
servers_of prev =
    if is_empty prev || text_eq prev (codes "empty") || contains prev (codes "aren't any")
    then codes "empty" ∷ []
    else fields prev

-- The calls for the breadcrumb
unfoldable pub mac_breadcrumb_calls : Option Text → List MacCall
mac_breadcrumb_calls none = []
mac_breadcrumb_calls (some text) =
    let lines = split_once 10 text in
    set_servers (trimmed_or (codes "Wi-Fi") (second_line lines.1)) (servers_of (trim_space lines.0))
    ∷ remove_breadcrumb
    ∷ []

-- and for a Wi-Fi service that is left at 127.0.0.1
unfoldable pub mac_wi_fi_calls : Option Text → List MacCall
mac_wi_fi_calls none = []
mac_wi_fi_calls (some out) =
    if text_eq (trim_space out) (codes "127.0.0.1")
    then set_servers (codes "Wi-Fi") (codes "empty" ∷ []) ∷ []
    else []

abbrev pub resumed_if_any : List MacCall → List MacCall
resumed_if_any [] = []
resumed_if_any (c ∷ cs) = (c ∷ cs) ++ hup_responder ∷ []

-- Something is cleaned where there is a call.
unfoldable pub mac_cleanup : Option Text → Option Text → List MacCall
mac_cleanup file wi_fi = resumed_if_any (mac_breadcrumb_calls file ++ mac_wi_fi_calls wi_fi)

pub data CleanupCall : Type 0 where
  delete_route : Text → CleanupCall
  dns_call : WinCall → CleanupCall

unfoldable pub stale_routes : Option Text → List CleanupCall
stale_routes none = []
stale_routes (some out) =
    if contains out (codes "10.0.85.1")
    then delete_route (codes "0.0.0.0 mask 128.0.0.0")
      ∷ delete_route (codes "128.0.0.0 mask 128.0.0.0")
      ∷ delete_route (codes "1.1.1.1")
      ∷ delete_route (codes "8.8.8.8")
      ∷ []
    else []

unfoldable pub windows_breadcrumb_calls : Option Text → List WinCall
windows_breadcrumb_calls none = []
windows_breadcrumb_calls (some text) = restore_parts (codes "Ethernet") (split_once 10 text)

unfoldable pub windows_cleanup : Option Text → Option Text → List CleanupCall
windows_cleanup routes file = stale_routes routes ++ map dns_call (windows_breadcrumb_calls file)
