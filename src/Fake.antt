-- ===== src/Fake.antt =====
-- pkg/fake: the fake TLS ClientHello and the reader of its server name.
pub mod Wire
pub mod Hello
pub mod Sni
pub mod Total
pub mod Layout
pub mod Names
pub mod RoundTrip
pub mod Shipped
mod Tests
