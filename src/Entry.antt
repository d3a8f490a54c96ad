-- ===== src/Entry.antt =====
-- The entries of a trace: include/coldtrace/entries.h and src/entries.c.
pub mod Kind
pub mod Header
pub mod Layout
pub mod RoundTrip
pub mod Sizes
pub mod Names
mod Tests
