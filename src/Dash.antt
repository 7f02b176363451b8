-- ===== src/Dash.antt =====
-- The parser of the DASH pipeline.
mod Types
mod Flow
mod Encap
mod Underlay
mod Customer
mod Parse
pub mod Cases
pub mod Sound
mod Tests
unfoldable pub use Types.*
unfoldable pub use Flow.*
unfoldable pub use Encap.*
unfoldable pub use Underlay.*
unfoldable pub use Customer.*
unfoldable pub use Parse.*
