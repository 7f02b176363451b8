-- ===== src/FlowDissector.antt =====
-- The flow dissector of Linux.
mod Types
mod Link
mod Network
mod Tunnel
mod Transport
mod Parse
pub mod Cases
pub mod Sound
mod Tests
unfoldable pub use Types.*
unfoldable pub use Link.*
unfoldable pub use Network.*
unfoldable pub use Tunnel.*
unfoldable pub use Transport.*
unfoldable pub use Parse.*
