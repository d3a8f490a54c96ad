-- ===== src/Thread.antt =====
-- The per-thread state of src/thread.c: the writer, and the call stack that entries refer to.
pub mod Defs
pub mod Memory
pub mod Read
pub mod Sound
pub mod Place
pub mod Last
pub mod Write
pub mod Append
pub mod Granted
pub mod Record
pub mod Stack
pub mod Run
pub mod Bounded
pub mod Gone
pub mod Calls
pub mod Loss
pub mod Started
mod Tests
