-- ===== src/Counted.antt =====
-- The example parser counted_items: a count, then as many one-byte items.
mod Types
mod States
mod Parse
pub mod Cases
pub mod Sound
mod Exact
mod Tests
unfoldable pub use Types.*
unfoldable pub use States.*
unfoldable pub use Parse.*
