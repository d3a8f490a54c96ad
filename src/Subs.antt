-- ===== src/Subs.antt =====
-- The subscribers of src/subs_*.c, which turn the events of a thread into entries.
pub mod Counters
pub mod Fill
pub mod Memory
pub mod Marker
pub mod Sync
pub mod Pthread
pub mod Areas
pub mod Atomics
pub mod Exclusion
pub mod Filled
pub mod Filling
pub mod Layouts
pub mod Run
pub mod Course
pub mod Follows
pub mod Events
pub mod Dispatch
pub mod Begun
pub mod Locks
pub mod LockOrder
pub mod Ended
pub mod Index
mod Tests
mod EventTests
