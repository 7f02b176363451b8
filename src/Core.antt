-- ===== src/Core.antt =====
-- The shape that every generated `parse_core` has: what the emitter's statements do
-- (rust/pakeles/src/codegen/c.rs, and any gen/parser.c that it wrote). A `case` of a parser's
-- `switch` is a do block over these statements, and its value is the next `state`.
mod Monad
mod Loads
mod Statements
mod Regions
mod Loop
unfoldable pub use Monad.*
unfoldable pub use Loads.*
unfoldable pub use Statements.*
unfoldable pub use Regions.*
unfoldable pub use Loop.*
