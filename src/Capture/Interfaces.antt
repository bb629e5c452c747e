-- ===== src/Capture/Interfaces.antt =====
-- How the physical interface is chosen: DefaultInterface of pkg/capture/capture_darwin.go and
-- detectPhysicalInterface of pkg/tun/manager.go. The list is what net.Interfaces gives.
use gecit_unofficial.Base.{
  Bool, false, not, ◌&&◌, ◌||◌, Option, none, some, List, [], ◌∷◌, leb, ◌==◌, if◌then◌else◌, length,
  take, Bytes, Text, codes, text_eq, is_empty, has_prefix,
}
use gecit_unofficial.Rawsock.Packet.{to4}

pub record Interface : Type 0 where
  pub name : Text
  pub is_up : Bool
  pub is_loopback : Bool
  pub hardware_addr : Bytes
  -- what Addrs gives: of each address the IP, if it is a *net.IPNet
  pub addrs : List (Option Bytes)
  pub addrs_failed : Bool

-- IsLoopback and Equal(net.IPv4(10, 0, 85, 1)) of the four bytes of an address
abbrev pub is_loopback_ip : Bytes → Bool
is_loopback_ip (a ∷ rest) = a == 127
is_loopback_ip [] = false

-- The address of the TUN device itself
abbrev pub tun_address : Bytes
tun_address = 10 ∷ 0 ∷ 85 ∷ 1 ∷ []

-- An IPv4 address that is neither a loopback address nor the TUN device's
unfoldable pub is_physical_ip : Bytes → Bool
is_physical_ip ip = elim (to4 ip) [
  | none ↦ false
  | some ipv4 ↦ not (is_loopback_ip ipv4) && not (text_eq ipv4 tun_address)
]

unfoldable pub has_physical_ip : List (Option Bytes) → Bool
has_physical_ip [] = false
has_physical_ip (none ∷ addrs) = has_physical_ip addrs
has_physical_ip (some ip ∷ addrs) = is_physical_ip ip || has_physical_ip addrs

-- for _, prefix := range ...
unfoldable pub has_virtual_prefix : Text → List Text → Bool
has_virtual_prefix name [] = false
has_virtual_prefix name (prefix ∷ prefixes) =
    has_prefix prefix name || has_virtual_prefix name prefixes

abbrev pub virtual_prefixes : List Text
virtual_prefixes = codes "utun" ∷ codes "bridge" ∷ codes "veth" ∷ codes "vmnet" ∷ codes "lo" ∷ []

abbrev pub is_running : Interface → Bool
is_running iface = iface.is_up && not iface.is_loopback

-- The error of Addrs is not looked at; the addresses are none then.
unfoldable pub detect_physical_interface : List Interface → Text
detect_physical_interface [] = []
detect_physical_interface (iface ∷ ifaces) =
    let next = detect_physical_interface ifaces in
    if not iface.is_up || iface.is_loopback
    then next
    else (let name = if has_virtual_prefix iface.name virtual_prefixes then [] else iface.name in
        if is_empty name then next else if has_physical_ip iface.addrs then name else next)

-- DefaultInterface; `none` is the error.
unfoldable pub default_interface : List Interface → Option Text
default_interface [] = none
default_interface (iface ∷ ifaces) =
    let next = default_interface ifaces in
    if not iface.is_up || iface.is_loopback
    then next
    else if iface.addrs_failed || length iface.addrs == 0
    then next
    else if leb 2 (length iface.name) && text_eq (take 2 iface.name) (codes "en")
    then some iface.name
    else next
