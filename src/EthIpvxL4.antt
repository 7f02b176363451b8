-- ===== src/EthIpvxL4.antt =====
-- The example parser eth_ipvx_l4: Ethernet, IPv4 or IPv6, TCP or UDP.
mod Types
mod Network
mod Transport
mod Parse
pub mod Cases
pub mod Sound
mod Tests
unfoldable pub use Types.*
unfoldable pub use Network.*
unfoldable pub use Transport.*
unfoldable pub use Parse.*
