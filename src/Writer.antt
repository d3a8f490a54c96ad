-- ===== src/Writer.antt =====
-- The per-thread trace writer of src/writer.c: a buffer for one fragment, compressed into a file
-- of its own when it is full.
pub mod Files
pub mod Frame
pub mod Defs
pub mod Ops
pub mod Invariant
pub mod Flush
pub mod Opening
pub mod Ensure
pub mod Reserve
pub mod Lifetime
pub mod WriteAll
pub mod Fragment
pub mod Names
pub mod Decimals
pub mod Named
pub mod FirstFragment
mod Tests
