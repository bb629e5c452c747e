-- ===== src/Capture/Tests.antt =====
-- The theorems on the capture and the tracker at a concrete handshake.
use gecit_unofficial.Base.{◌≡◌, refl, true, false, none, some, [], ◌∷◌, arith, ok, codes}
use gecit_unofficial.Capture.Fresh.{newest}
use gecit_unofficial.Capture.Delivery.{get_seq_ack_stale}
use gecit_unofficial.Capture.Packet.{has_port, Handshake, first_segment, captured}
use gecit_unofficial.Capture.Interfaces.{Interface, detect_physical_interface}
use gecit_unofficial.Capture.Tracker.{load, delete_port, store_all, Poll, get_seq_ack}
use gecit_unofficial.Rawsock.Packet.{ConnInfo}
use gecit_unofficial.Capture.Physical.{IsFirstPhysical, detect_physical_interface-IsFirstPhysical}

abbrev pub hand : Handshake
hand = record {
  client_ip = 192 ∷ 168 ∷ 1 ∷ 7 ∷ [];
  server_ip = 93 ∷ 184 ∷ 216 ∷ 34 ∷ [];
  client_port = 50000;
  server_port = 443;
  client_isn = 1000;
  server_isn = 4294967295;
}

pub https-has_port : has_port 443 (443 ∷ []) ≡ true
unfolding has_port
https-has_port = refl

pub load-none : load 50000 [] ≡ none
unfolding load
load-none = refl

pub captured_nothing : newest 50000 none (captured (443 ∷ []) []) ≡ none
unfolding captured
captured_nothing = refl

abbrev pub quiet_poll : Poll
quiet_poll = record { now = 10; arrivals = [] }

abbrev old_event : ConnInfo
old_event = record (first_segment hand) { seq = 7; ack = 8 }

held : load 50000 ((50000, old_event) ∷ []) ≡ some old_event
unfolding load
held = refl

get_seq_ack_stale_example :
    get_seq_ack (some ((50000, old_event) ∷ [])) (some 50000) 0 (quiet_poll ∷ [])
    ≡ ok ((7, 8), some (delete_port 50000 (store_all ((50000, old_event) ∷ []) [])))
get_seq_ack_stale_example =
    get_seq_ack_stale ((50000, old_event) ∷ []) 50000 old_event 0 quiet_poll [] held (omega arith)
      refl

abbrev cable : Interface
cable = record {
  name = codes "en0";
  is_up = true;
  is_loopback = false;
  hardware_addr = [];
  addrs = some (192 ∷ 168 ∷ 1 ∷ 7 ∷ []) ∷ [];
  addrs_failed = false;
}

-- The TUN device's own address, in front of the cable's
abbrev own_device : Interface
own_device = record cable { name = codes "tun0"; addrs = some (10 ∷ 0 ∷ 85 ∷ 1 ∷ []) ∷ [] }

detect_physical_interface-IsFirstPhysical_example :
    IsFirstPhysical (own_device ∷ cable ∷ []) (detect_physical_interface (own_device ∷ cable ∷ []))
detect_physical_interface-IsFirstPhysical_example =
    detect_physical_interface-IsFirstPhysical (own_device ∷ cable ∷ [])
