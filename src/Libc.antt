-- ===== src/Libc.antt =====
-- The calls of libc that include/coldtrace/libc.h keeps from being intercepted.
pub mod Defs
pub mod Race
mod Tests
