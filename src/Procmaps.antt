-- ===== src/Procmaps.antt =====
-- src/procmaps.c: the copies of /proc/self/maps and of the mapped files.
pub mod Fs
pub mod Paths
pub mod Defs
pub mod Substrings
pub mod Copy
pub mod Directories
pub mod Chosen
pub mod Mapped
pub mod Steps
pub mod Files
pub mod Events
pub mod Once
pub mod Dump
mod Memory
mod Tests
pub mod Lines
