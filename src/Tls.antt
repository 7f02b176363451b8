-- ===== src/Tls.antt =====
-- A TLS ClientHello, with its extensions and the server name.
mod Types
mod Record
mod Vectors
mod Extensions
mod ServerName
mod Parse
pub mod Cases
pub mod Sound
mod Tests
unfoldable pub use Types.*
unfoldable pub use Record.*
unfoldable pub use Vectors.*
unfoldable pub use Extensions.*
unfoldable pub use ServerName.*
unfoldable pub use Parse.*
