-- ===== src/Utils.antt =====
-- The directory helpers of src/utils.c.
pub mod Defs
pub mod Clean
mod Tests
