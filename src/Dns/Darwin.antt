-- ===== src/Dns/Darwin.antt =====
-- pkg/dns/system_darwin.go. The tools that it runs are the system's: what they print is given,
-- `none` for an error, and what is done with them is a list of calls, in order.
use gecit_unofficial.Base.{
  Bool, not, ◌&&◌, Option, none, some, List, [], ◌∷◌, ◌++◌, if◌then◌else◌, split, fields, contains,
  Text, codes, text_eq, is_empty, trim_space, has_prefix, trim_prefix,
}
use gecit_unofficial.Dns.System.{saved}

pub data MacCall : Type 0 where
  -- networksetup -setdnsservers service servers...
  set_servers : Text → List Text → MacCall
  write_breadcrumb : Text → MacCall
  remove_breadcrumb : MacCall
  -- killall -HUP mDNSResponder
  hup_responder : MacCall

-- savedDNS and savedService
pub record Saved : Type 0 where
  pub dns : Text
  pub service : Text

abbrev pub device_of : Text → Text
device_of iface = codes "Device: " ++ iface

-- The loop over the lines, with the one before
unfoldable pub service_in : Text → Option Text → List Text → Text
service_in iface before [] = []
service_in iface none (line ∷ lines) = service_in iface (some line) lines
service_in iface (some before) (line ∷ lines) =
    let next = service_in iface (some line) lines in
    if contains line (device_of iface)
    then trim_prefix (codes "Hardware Port: ") (trim_space before)
    else next

-- NetworkServiceForInterface, for the output of networksetup -listallhardwareports
unfoldable pub network_service_for_interface : Text → Option Text → Text
network_service_for_interface iface none = []
network_service_for_interface iface (some out) =
    if is_empty iface then [] else service_in iface none (split 10 out)

-- The interface of the default route
unfoldable pub route_interface : List Text → Text
route_interface [] = []
route_interface (line ∷ lines) =
    if has_prefix (codes "interface:") (trim_space line)
    then trim_space (trim_prefix (codes "interface:") (trim_space line))
    else route_interface lines

abbrev pub or_wi_fi : Text → Text
or_wi_fi svc = if is_empty svc then codes "Wi-Fi" else svc

unfoldable pub detect_active_service : Option Text → Option Text → Text
detect_active_service none ports = codes "Wi-Fi"
detect_active_service (some route) ports =
    or_wi_fi (network_service_for_interface (route_interface (split 10 route)) ports)

-- The argument, if it is given and not empty
unfoldable pub service_or : List Text → Text → Text
service_or [] svc = svc
service_or (s ∷ rest) svc = if is_empty s then svc else s

abbrev pub none_set : Text → Bool
none_set dns = contains dns (codes "aren't any")

-- What a run that did not restore has left
unfoldable pub recovery : Text → Option Text → List MacCall
recovery svc none = []
recovery svc (some crumb) =
    if not (is_empty (trim_space crumb)) && not (text_eq (trim_space crumb) (codes "127.0.0.1"))
    then set_servers svc (fields (trim_space crumb)) ∷ []
    else []

abbrev pub breadcrumb : Text → Text → Text
breadcrumb dns svc = (if none_set dns then codes "empty" else dns) ++ 10 ∷ svc ++ 10 ∷ []

-- What SetSystemDNS reads: the default route, the hardware ports, the breadcrumb file and the
-- servers of the service
pub record MacAnswers : Type 0 where
  pub route : Option Text
  pub hardware_ports : Option Text
  pub crumb : Option Text
  pub servers : Option Text

unfoldable pub service_of : List Text → MacAnswers → Text
service_of given ans = service_or given (detect_active_service ans.route ans.hardware_ports)

-- The calls, and what is saved; the last call's error is returned.
unfoldable pub set_mac_dns : List Text → MacAnswers → Saved → List MacCall × Saved
set_mac_dns given ans saved =
    let svc = service_of given ans in
    let here = set_servers svc (codes "127.0.0.1" ∷ []) ∷ [] in
    elim ans.servers [
      | none ↦ (recovery svc ans.crumb ++ here, record saved { service = svc })
      | some out ↦ (
        recovery svc ans.crumb ++ write_breadcrumb (breadcrumb (trim_space out) svc) ∷ here,
        record { dns = trim_space out; service = svc },
      )
    ]

unfoldable pub restore_mac_dns : List Text → Saved → List MacCall
restore_mac_dns given saved =
    let svc = service_or given (or_wi_fi saved.service) in
    let servers =
      if not (is_empty saved.dns) && not (none_set saved.dns)
      then fields saved.dns
      else codes "empty" ∷ [] in
    set_servers svc servers ∷ hup_responder ∷ remove_breadcrumb ∷ []
