-- ===== src/Config.antt =====
-- The global configuration of src/config.c (include/coldtrace/config.h).
pub mod Defs
pub mod Init
pub mod Enabled
mod Tests
