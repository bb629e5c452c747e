-- ===== src/Ebpf/Events.antt =====
-- What the kernel program writes into an event is what the manager reads from it.
use gecit_unofficial.Base.{ℕ, ◌<◌, ◌≡◌, some, ◌++◌, arith, Bytes, refl, false, ltb, length}
use gecit_unofficial.Ebpf.Manager.{
  native_uint16, native_uint32, native_put_uint16, native_put_uint32, decode_event,
}
use gecit_unofficial.Ebpf.Sockops.{ConnEvent}

-- The layout of the event's struct in memory.
abbrev pub event_bytes : ConnEvent → Bytes
event_bytes e =
    native_put_uint32 e.src_ip
    ++ native_put_uint32 e.dst_ip
    ++ native_put_uint16 e.src_port
    ++ native_put_uint16 e.dst_port
    ++ native_put_uint32 e.seq
    ++ native_put_uint32 e.ack

pub record FitsEvent (e : ConnEvent) : Type 0 where
  pub src_ip : e.src_ip < 4294967296
  pub dst_ip : e.dst_ip < 4294967296
  pub src_port : e.src_port < 65536
  pub dst_port : e.dst_port < 65536
  pub seq : e.seq < 4294967296
  pub ack : e.ack < 4294967296

uint16_back : (v : ℕ) → v < 65536 → native_uint16 (native_put_uint16 v) ≡ v
uint16_back v h = omega arith

uint32_back : (v : ℕ) → v < 4294967296 → native_uint32 (native_put_uint32 v) ≡ v
uint32_back v h = omega arith

-- Reading the event's bytes, with whatever padding the sample has behind them, gives the event
-- back.
pub decode_event-bytes :
    (e : ConnEvent) (rest : Bytes) → FitsEvent e → decode_event (event_bytes e ++ rest) ≡ some e
unfolding decode_event
decode_event-bytes e rest f =
    let long : ltb (length (event_bytes e ++ rest)) 20 ≡ false = ground arith in
    rw
      (
        long,
        uint32_back e.src_ip f.src_ip,
        uint32_back e.dst_ip f.dst_ip,
        uint16_back e.src_port f.src_port,
        uint16_back e.dst_port f.dst_port,
        uint32_back e.seq f.seq,
        uint32_back e.ack f.ack,
      )
      refl
