-- ===== src/Aliases.antt =====
-- The event names of include/coldtrace/aliases.h.
pub mod Defs
pub mod Apart
mod Tests
