-- ===== src/Values.antt =====
-- What the packet reads of `Core` return.
mod Numbers
mod Reads
mod Statements
mod Regions
mod Tests
pub use Numbers.*
pub use Reads.*
pub use Statements.*
pub use Regions.*
