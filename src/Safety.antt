-- ===== src/Safety.antt =====
-- A judgement on statements in the manner of a Hoare logic, and a rule for each statement of a parse
-- core, whatever its states.
mod Judgement
mod Reads
mod Blind
mod Statements
mod Regions
mod Fields
mod Loop
pub use Judgement.*
pub use Reads.*
pub use Statements.*
pub use Regions.*
pub use Fields.*
pub use Loop.*
