-- ===== src/Version.antt =====
-- The version header of src/version.c.
pub mod Defs
pub mod Check
mod Tests
