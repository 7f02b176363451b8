-- ===== src/Interp.antt =====
-- The region operations of the interpreter, which is the normative semantics, and what the generated
-- C makes of them.
mod Regions
mod Refinement
mod Tests
unfoldable pub use Regions.*
pub use Refinement.*
