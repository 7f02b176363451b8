-- ===== src/Tlv.antt =====
-- The example parser tlv_items: a total length opens a region, and items fill it.
mod Types
mod States
mod Parse
pub mod Cases
pub mod Sound
mod Wire
mod Items
mod Exact
mod Tests
unfoldable pub use Types.*
unfoldable pub use States.*
unfoldable pub use Parse.*
