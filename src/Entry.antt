-- ===== src/Entry.antt =====
-- `pk_entry` of parser.bpf.c, the same in every parser.
mod Pack
mod Frames
mod Tests
unfoldable pub use Pack.*
pub use Frames.*
