-- ===== src/DpdkPtype.antt =====
-- The packet type classifier of DPDK.
mod Types
mod Link
mod Network
mod Tunnel
mod Inner
mod Parse
pub mod Cases
pub mod Sound
mod Tests
unfoldable pub use Types.*
unfoldable pub use Link.*
unfoldable pub use Network.*
unfoldable pub use Tunnel.*
unfoldable pub use Inner.*
unfoldable pub use Parse.*
