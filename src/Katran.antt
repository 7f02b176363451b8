-- ===== src/Katran.antt =====
-- The packet parser of the Katran load balancer.
mod Types
mod Outer
mod Icmp
mod Transport
mod Parse
pub mod Cases
pub mod Sound
mod Tests
unfoldable pub use Types.*
unfoldable pub use Outer.*
unfoldable pub use Icmp.*
unfoldable pub use Transport.*
unfoldable pub use Parse.*
