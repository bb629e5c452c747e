-- ===== src/Rawsock/Devices.antt =====
-- The frame that is sent on Windows, and the device it is sent on.
use gecit_unofficial.Base.{
  ℕ, ◌≡◌, refl, ap, inl, inr, true, [], ◌∷◌, arith, Option-cases, length, replicate, Bytes, suc,
  ◌+◌, ◌⊎◌, Bool, Option, none, some, List, Bool-cases, Text,
}
use gecit_unofficial.Capture.Interfaces.{is_physical_ip}
use gecit_unofficial.Rawsock.Windows.{
  Address, Device, frame_of, windows_frame, is_near, has_such, is_usable, Net, default_gateway_ip,
  device_such, or_else, near_device, default_device,
}
use gecit_unofficial.Rawsock.Packet.{windows, ConnInfo, to4, overwrite, build_packet}

copy_all : (src : Bytes) → overwrite src (replicate (length src) 0) ≡ src
copy_all [] = refl
copy_all (b ∷ src) = ap (◌∷◌ b) (copy_all src)

abbrev suc14 : ℕ → ℕ
suc14 n = suc (suc (suc (suc (suc (suc (suc (suc (suc (suc (suc (suc (suc (suc n)))))))))))))

-- For hardware addresses of six bytes, the frame is the destination's, the source's, the type of
-- IPv4 and then the packet, byte for byte.
pub windows_frame-packet :
    (s0 s1 s2 s3 s4 s5 d0 d1 d2 d3 d4 d5 : ℕ) (conn : ConnInfo) (payload : Bytes) (ttl : ℕ)
    → windows_frame
        (s0 ∷ s1 ∷ s2 ∷ s3 ∷ s4 ∷ s5 ∷ [])
        (d0 ∷ d1 ∷ d2 ∷ d3 ∷ d4 ∷ d5 ∷ [])
        conn
        payload
        ttl
      ≡ d0
        ∷ d1
        ∷ d2
        ∷ d3
        ∷ d4
        ∷ d5
        ∷ s0
        ∷ s1
        ∷ s2
        ∷ s3
        ∷ s4
        ∷ s5
        ∷ 8
        ∷ 0
        ∷ build_packet windows conn payload ttl
unfolding windows_frame frame_of
windows_frame-packet s0 s1 s2 s3 s4 s5 d0 d1 d2 d3 d4 d5 conn payload ttl =
    let packet = build_packet windows conn payload ttl in
    let long : 14 + length packet ≡ suc14 (length packet) = omega arith in
    rw long (
      ap (λ b. d0 ∷ d1 ∷ d2 ∷ d3 ∷ d4 ∷ d5 ∷ s0 ∷ s1 ∷ s2 ∷ s3 ∷ s4 ∷ s5 ∷ 8 ∷ 0 ∷ b)
        (copy_all packet))

near-usable :
    (gateway : Bytes) (addr : Address) → is_near gateway addr ≡ true → is_usable addr ≡ true
unfolding is_near is_physical_ip
near-usable gateway addr h = elim (Option-cases (to4 addr.ip)) [
  | inl missing ↦ absurd (ground (arith, h, missing))
  | inr (ip, there) ↦ ground (arith, h, there)
]

such-usable :
    (gateway : Bytes) (addrs : List Address)
    → has_such (is_near gateway) addrs ≡ true
    → has_such is_usable addrs ≡ true
unfolding has_such
such-usable gateway [] h = absurd (ground (arith, h))
such-usable gateway (addr ∷ addrs) h =
    ground (arith, h, near-usable gateway addr, such-usable gateway addrs)

-- A device of the list, by its name
abbrev pub IsNamed : Text → (Device → Type 0) → List Device → Type 0
IsNamed name P [] = ⊥
IsNamed name P (dev ∷ devs) = ((dev.name ≡ name) × P dev) ⊎ IsNamed name P devs

device_such-IsNamed :
    (p : Address → Bool) (devs : List Device) (name : Text)
    → device_such p devs ≡ some name
    → IsNamed name (λ dev. has_such p dev.addresses ≡ true) devs
unfolding device_such
device_such-IsNamed p [] name h = absurd (ground (arith, h))
device_such-IsNamed p (dev ∷ devs) name h = elim (Bool-cases (has_such p dev.addresses)) [
  | inl found ↦ inl (ground (arith, h, found), found)
  | inr other ↦ inr (device_such-IsNamed p devs name (ground (arith, h, other)))
]

IsNamed-map :
    (name : Text) (P Q : Device → Type 0) (devs : List Device)
    → ((dev : Device) → P dev → Q dev)
    → IsNamed name P devs
    → IsNamed name Q devs
IsNamed-map name P Q [] f h = h
IsNamed-map name P Q (dev ∷ devs) f (inl (e, p)) = inl (e, f dev p)
IsNamed-map name P Q (dev ∷ devs) f (inr rest) = inr (IsNamed-map name P Q devs f rest)

-- defaultInterface gives the name of a device of the list that has an IPv4 address which is no
-- loopback address and not the TUN device's.
pub default_device-IsNamed :
    (net : Net) (route : Option Text) (devs : List Device) (name : Text)
    → default_device net route (some devs) ≡ some name
    → IsNamed name (λ dev. has_such is_usable dev.addresses ≡ true) devs
unfolding default_device
default_device-IsNamed net route devs name h = by_gateway (default_gateway_ip net route) h
  where
    by_gateway :
        (g : Option Bytes)
        → or_else (near_device g devs) (device_such is_usable devs) ≡ some name
        → IsNamed name (λ dev. has_such is_usable dev.addresses ≡ true) devs
    by_gateway none e = device_such-IsNamed is_usable devs name e
    by_gateway (some gateway) e = elim (Option-cases (device_such (is_near gateway) devs)) [
      | inl missing ↦ device_such-IsNamed is_usable devs name (ground (arith, e, missing))
      | inr (near, found) ↦
          IsNamed-map name (λ dev. has_such (is_near gateway) dev.addresses ≡ true)
            (λ dev. has_such is_usable dev.addresses ≡ true) devs
            (λ dev. such-usable gateway dev.addresses)
            (device_such-IsNamed (is_near gateway) devs name (ground (arith, e, found)))
    ]

-- Where a device has an address on the subnet of the gateway, the first such one is given.
pub default_device_near :
    (net : Net) (route : Option Text) (devs : List Device) (gateway : Bytes) (name : Text)
    → default_gateway_ip net route ≡ some gateway
    → device_such (is_near gateway) devs ≡ some name
    → default_device net route (some devs) ≡ some name
unfolding default_device
default_device_near net route devs gateway name at_gateway found = ground (arith, at_gateway, found)
