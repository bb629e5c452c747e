-- ===== src/Rawsock/Tests.antt =====
-- The theorems at a concrete connection.
use gecit_unofficial.Base.{◌≡◌, refl, [], ◌∷◌, ◌++◌, arith, length, get_or, take, drop}
use gecit_unofficial.Rawsock.Segment.{pseudo, build_packet_verifies}
use gecit_unofficial.Rawsock.Headers.{IsQuad}
use gecit_unofficial.Rawsock.Fields.{
  word16, word32, IpFields, build_packet-IpFields, build_packet_tcp_fields,
}
use gecit_unofficial.Rawsock.Packet.{linux, darwin, ConnInfo, to4, build_packet}
use gecit_unofficial.Rawsock.Verify.{PassesCheck}

abbrev sample : ConnInfo
sample = record {
  src_ip = 192 ∷ 168 ∷ 1 ∷ 2 ∷ [];
  dst_ip = 1 ∷ 1 ∷ 1 ∷ 1 ∷ [];
  src_port = 50000;
  dst_port = 443;
  seq = 1000;
  ack = 2000;
}

from : IsQuad sample.src_ip 192 168 1 2
unfolding to4
from = record { form = refl; bytes = ground arith }

to : IsQuad sample.dst_ip 1 1 1 1
unfolding to4
to = record { form = refl; bytes = ground arith }

build_packet_verifies_example :
    (length (build_packet linux sample (22 ∷ 3 ∷ 1 ∷ []) 8) ≡ 43)
    × (drop 40 (build_packet linux sample (22 ∷ 3 ∷ 1 ∷ []) 8) ≡ 22 ∷ 3 ∷ 1 ∷ [])
    × PassesCheck (take 20 (build_packet linux sample (22 ∷ 3 ∷ 1 ∷ []) 8))
    × PassesCheck (
        pseudo linux sample (22 ∷ 3 ∷ 1 ∷ []) 8 from to
        ++ drop 20 (build_packet linux sample (22 ∷ 3 ∷ 1 ∷ []) 8))
build_packet_verifies_example =
    build_packet_verifies linux sample (22 ∷ 3 ∷ 1 ∷ []) 8 from to (ground arith) (omega arith)

build_packet-IpFields_example :
    IpFields sample 8 from to darwin 22 (build_packet darwin sample (22 ∷ 3 ∷ []) 8)
build_packet-IpFields_example =
    build_packet-IpFields sample 8 from to darwin (22 ∷ 3 ∷ []) (omega arith)

build_packet_tcp_fields_example :
    (word16 (build_packet linux sample (22 ∷ 3 ∷ []) 8) 20 ≡ 50000)
    × (word16 (build_packet linux sample (22 ∷ 3 ∷ []) 8) 22 ≡ 443)
    × (word32 (build_packet linux sample (22 ∷ 3 ∷ []) 8) 24 ≡ 1000)
    × (word32 (build_packet linux sample (22 ∷ 3 ∷ []) 8) 28 ≡ 2000)
    × (get_or (build_packet linux sample (22 ∷ 3 ∷ []) 8) 33 0 ≡ 0x18)
build_packet_tcp_fields_example =
    build_packet_tcp_fields sample 8 from to linux (22 ∷ 3 ∷ []) (omega arith) (omega arith)
      (omega arith) (omega arith)
