-- ===== src/Rawsock/Windows.antt =====
-- pkg/rawsock/rawsock_windows_pcap.go. The devices of pcap, the interfaces and what route and arp
-- print are given; net.ParseIP, net.ParseMAC and IP.String are parameters.
use gecit_unofficial.Base.{
  ℕ, ◌+◌, bit_and, Bool, false, not, ◌&&◌, ◌||◌, Option, none, some, List, [], ◌∷◌, ◌++◌, ◌==◌,
  if◌then◌else◌, length, set, take, drop, replicate, Bytes, split, fields, replace_char, Text,
  codes, text_eq, trim_space,
}
use gecit_unofficial.Fake.Layout.{words}
use gecit_unofficial.Capture.Interfaces.{
  Interface, is_loopback_ip, tun_address, is_physical_ip, has_physical_ip,
}
use gecit_unofficial.Rawsock.Packet.{windows, ConnInfo, to4, copy_at, build_packet}

pub record Address : Type 0 where
  pub ip : Bytes
  -- empty for nil
  pub netmask : Bytes

pub record Device : Type 0 where
  pub name : Text
  pub addresses : List Address

pub record Net : Type 0 where
  pub parse_ip : Text → Option Bytes
  pub parse_mac : Text → Option Bytes
  pub ip_string : Bytes → Text

-- The Ethernet frame of SendFake
unfoldable pub frame_of : Bytes → Bytes → Bytes → Bytes
frame_of src_mac dst_mac ip_tcp =
    let frame0 = replicate (14 + length ip_tcp) 0 in
    let frame1 = copy_at 0 (take 6 dst_mac) frame0 in
    let frame2 = copy_at 6 (take 6 src_mac) frame1 in
    let frame3 = set (set frame2 12 0x08) 13 0x00 in copy_at 14 ip_tcp frame3

unfoldable pub windows_frame : Bytes → Bytes → ConnInfo → Bytes → ℕ → Bytes
windows_frame src_mac dst_mac conn payload ttl =
    frame_of src_mac dst_mac (build_packet windows conn payload ttl)

abbrev pub any_network : Text
any_network = codes "0.0.0.0"

-- The third word of a row of the default route
unfoldable pub gateway_word : List Text → Option Text
gateway_word (a ∷ b ∷ c ∷ rest) =
    if text_eq a any_network && text_eq b any_network then some c else none
gateway_word words = none

-- The first such row's, in what route prints
unfoldable pub gateway_in : List Text → Option Text
gateway_in [] = none
gateway_in (line ∷ lines) = elim (gateway_word (fields (trim_space line))) [
  | some gateway ↦ some gateway
  | none ↦ gateway_in lines
]

unfoldable pub default_gateway_ip : Net → Option Text → Option Bytes
default_gateway_ip net none = none
default_gateway_ip net (some out) = elim (gateway_in (split 10 out)) [
  | none ↦ none
  | some gateway ↦ net.parse_ip gateway
]

-- The address in a row of arp's table, if the row is the gateway's and it parses
unfoldable pub mac_word : Net → Text → List Text → Option Bytes
mac_word net gateway (a ∷ b ∷ rest) =
    if text_eq a gateway then net.parse_mac (replace_char 45 58 b) else none
mac_word net gateway words = none

unfoldable pub mac_in : Net → Text → List Text → Option Bytes
mac_in net gateway [] = none
mac_in net gateway (line ∷ lines) = elim (mac_word net gateway (fields (trim_space line))) [
  | some mac ↦ some mac
  | none ↦ mac_in net gateway lines
]

-- gatewayMAC, for what route and arp print
unfoldable pub gateway_mac : Net → Option Text → Option Text → Option Bytes
gateway_mac net none arp = none
gateway_mac net (some route) arp = elim (gateway_in (split 10 route)) [
  | none ↦ none
  | some gateway ↦ elim arp [ none ↦ none | some table ↦ mac_in net gateway (split 10 table) ]
]

abbrev pub no_mac : Bytes
no_mac = replicate 6 0

abbrev pub broadcast : Bytes
broadcast = replicate 6 0xff

abbrev pub or_broadcast : Option Bytes → Bytes
or_broadcast none = broadcast
or_broadcast (some mac) = mac

-- discoverMACs: the source's and the gateway's
unfoldable pub discover_macs : Net → Option Text → Option Text → List Interface → Bytes × Bytes
discover_macs net route arp [] = (no_mac, broadcast)
discover_macs net route arp (iface ∷ ifaces) =
    let next = discover_macs net route arp ifaces in
    if not iface.is_up || iface.is_loopback || length iface.hardware_addr == 0
    then next
    else if has_physical_ip iface.addrs
    then (iface.hardware_addr, or_broadcast (gateway_mac net route arp))
    else next

unfoldable pub has_text : Text → List Text → Bool
has_text t [] = false
has_text t (s ∷ ss) = text_eq s t || has_text t ss

-- The set of the interface's addresses, printed
unfoldable pub printed_addrs : Net → List (Option Bytes) → List Text
printed_addrs net [] = []
printed_addrs net (none ∷ addrs) = printed_addrs net addrs
printed_addrs net (some ip ∷ addrs) = net.ip_string ip ∷ printed_addrs net addrs

unfoldable pub has_address : Net → List Text → List Address → Bool
has_address net ips [] = false
has_address net ips (addr ∷ addrs) =
    has_text (net.ip_string addr.ip) ips || has_address net ips addrs

unfoldable pub device_with : Net → List Text → List Device → Option Text
device_with net ips [] = none
device_with net ips (dev ∷ devs) =
    if has_address net ips dev.addresses then some dev.name else device_with net ips devs

-- resolvePcapDevice; `none` is an error, of the interface, of its addresses or of pcap, or no
-- match.
unfoldable pub resolve_pcap_device : Net → Option Interface → Option (List Device) → Option Text
resolve_pcap_device net none devs = none
resolve_pcap_device net (some iface) devs =
    if iface.addrs_failed || length iface.addrs == 0 then none else elim devs [
      | none ↦ none
      | some found ↦ device_with net (printed_addrs net iface.addrs) found
    ]

-- IP.Mask and IP.Equal; nil is empty.
unfoldable pub and_bytes : Bytes → Bytes → Bytes
and_bytes [] ms = []
and_bytes (b ∷ bs) [] = []
and_bytes (b ∷ bs) (m ∷ ms) = bit_and b m ∷ and_bytes bs ms

abbrev pub v4_in_v6 : Bytes
v4_in_v6 = replicate 10 0 ++ 0xff ∷ 0xff ∷ []

unfoldable pub mask_ip : Bytes → Bytes → Bytes
mask_ip ip mask =
    let m =
      if (length mask == 16 && length ip == 4) && text_eq (take 12 mask) (replicate 12 0xff)
      then drop 12 mask
      else mask in
    let i =
      if (length m == 4 && length ip == 16) && text_eq (take 12 ip) v4_in_v6
      then drop 12 ip
      else ip in
    if length i == length m then and_bytes i m else []

unfoldable pub equal_ip : Bytes → Bytes → Bool
equal_ip a b =
    if length a == length b
    then text_eq a b
    else if length a == 4 && length b == 16
    then text_eq (take 12 b) v4_in_v6 && text_eq a (drop 12 b)
    else if length a == 16 && length b == 4
    then text_eq (take 12 a) v4_in_v6 && text_eq (drop 12 a) b
    else false

-- The first pass: on the subnet of the gateway
unfoldable pub is_near : Bytes → Address → Bool
is_near gateway addr = elim (to4 addr.ip) [
  | none ↦ false
  | some ip ↦
      if is_loopback_ip ip || text_eq ip tun_address
      then false
      else not (length addr.netmask == 0)
        && equal_ip (mask_ip ip addr.netmask) (mask_ip gateway addr.netmask)
]

-- The first device with an address of a kind
unfoldable pub has_such : (Address → Bool) → List Address → Bool
has_such p [] = false
has_such p (addr ∷ addrs) = p addr || has_such p addrs

unfoldable pub device_such : (Address → Bool) → List Device → Option Text
device_such p [] = none
device_such p (dev ∷ devs) = if has_such p dev.addresses then some dev.name else device_such p devs

abbrev pub is_usable : Address → Bool
is_usable addr = is_physical_ip addr.ip

abbrev pub or_else : Option Text → Option Text → Option Text
or_else none later = later
or_else (some name) later = some name

abbrev pub near_device : Option Bytes → List Device → Option Text
near_device none devs = none
near_device (some gateway) devs = device_such (is_near gateway) devs

-- defaultInterface; `none` is an error.
unfoldable pub default_device : Net → Option Text → Option (List Device) → Option Text
default_device net route none = none
default_device net route (some devs) =
    or_else (near_device (default_gateway_ip net route) devs) (device_such is_usable devs)
