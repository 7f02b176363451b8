-- ===== src/Quic.antt =====
-- The header of a QUIC version 1 packet, as far as an Initial packet goes.
mod Types
mod Header
mod Kind
mod Varint
mod Parse
pub mod Cases
pub mod Sound
mod Integers
mod Lengths
mod Tokens
mod Tests
unfoldable pub use Types.*
unfoldable pub use Header.*
unfoldable pub use Kind.*
unfoldable pub use Varint.*
unfoldable pub use Parse.*
