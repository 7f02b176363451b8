-- ===== src/Sai.antt =====
-- The parser of the sai_p4 switch model.
mod Types
mod Link
mod Network
mod Transport
mod Parse
pub mod Cases
pub mod Sound
mod Tests
unfoldable pub use Types.*
unfoldable pub use Link.*
unfoldable pub use Network.*
unfoldable pub use Transport.*
unfoldable pub use Parse.*
