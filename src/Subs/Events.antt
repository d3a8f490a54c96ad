-- ===== src/Subs/Events.antt =====
-- The events that Dice publishes for a thread, and the handlers that answer them.
pub mod MemoryEvents
pub mod SyncEvents
pub mod PthreadEvents
pub mod AtomicEvents
