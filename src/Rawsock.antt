-- ===== src/Rawsock.antt =====
-- pkg/rawsock/rawsock.go: crafted IP and TCP packets.
pub mod Checksum
pub mod Sums
pub mod Verify
pub mod Packet
pub mod Headers
pub mod Segment
pub mod Fields
mod Tests
pub mod Windows
pub mod Devices
