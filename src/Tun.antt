-- ===== src/Tun.antt =====
-- pkg/tun: the handler of the connections that the TUN device brings, and the manager.
pub mod Pipe
pub mod Deadlines
pub mod Handler
pub mod Fakes
pub mod Calls
pub mod Closing
pub mod Stream
pub mod Manager
pub mod Lifecycle
mod Tests
