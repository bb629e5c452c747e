-- ===== src/Capture.antt =====
-- pkg/capture and pkg/seqtrack: the sequence numbers of a connection, read from its SYN-ACK.
pub mod Packet
pub mod Tracker
pub mod Fresh
pub mod Polls
pub mod Delivery
pub mod Loop
pub mod Interfaces
pub mod Physical
pub mod Tests
