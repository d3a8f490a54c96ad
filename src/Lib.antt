-- ===== src/Lib.antt =====
-- Verification of coldtrace, a tracer that writes the memory and synchronisation events of a
-- multithreaded program to binary files.
--
-- How the program works. Dice publishes an event; a subscriber (src/subs_*.c) appends an entry for it
-- to the trace of the thread (src/thread.c), fills its fields in place, and takes indexes from two
-- global counters (src/counters.c). A thread keeps the call stack and writes, with entries of six
-- types, only what has changed of it since the last such entry. The writer of a thread (src/writer.c)
-- places entries in a buffer and writes a full buffer as one compressed fragment to a file of its own.
-- src/entries.c lays entries out and reads them back. src/config.c holds the settings.
--
-- The files of this library:
--   Prelude, Prelude/*   Boolean tests, lists over native numbers, bit operations, C strings.
--   Sys                  Memory, the file system and the answers of the calls that leave the sources
--                        (mmap, malloc, mempool, open, write, LZ4), as a record of functions.
--   Config/*             src/config.c: Defs (the settings and what sets them), Init (the module
--                        initialiser), and the proofs in Enabled.
--   Utils/*              src/utils.c: Defs, and the proofs in Clean.
--   Entry/*              include/coldtrace/entries.h and src/entries.c: Kind (types and names), Header
--                        (the packed word), Layout (sizes and fields), and the proofs in RoundTrip,
--                        Sizes and Names.
--   Writer/*             src/writer.c: Files (write_all_, first_fragment_), Defs (flush_, fail_ and
--                        below), Ops (ensure_buffer_, new_trace_ and the public functions), Names (the
--                        file names), and the proofs: Decimals and Named show that the names tell the files
--                        apart, which the others keep by their two ids.
--   Thread/*             src/thread.c: Defs, then Read (how a reader walks a fragment), Sound (the
--                        invariant), Place, Last, Write, Append, Granted, Record, Stack, Bounded,
--                        Run, Calls, Gone and Loss (the proofs).
--   Subs/*               src/counters.c and the subscribers: Fill (include/coldtrace/subs_utils.h and
--                        the fields), Memory, Marker (src/marker.c), Sync, Pthread, Areas and Atomics
--                        (src/subs_tsan.c); Exclusion, Filled, Filling, Layouts, Index, Run, Course, Follows and
--                        Ended (the proofs). Events/* list the events with their handlers and what each
--                        is to do; Dispatch and Begun (any sequence of events of a thread), and Locks
--                        and LockOrder (a mutex under any number of threads) put them together.
--   Aliases/*            include/coldtrace/aliases.h: Defs (the header as a change of the macros), Apart
--                        (the proofs).
--   Libc/*               include/coldtrace/libc.h: Defs (the wrappers and their cache), Race (threads that
--                        look a symbol up at the same time).
--   Version/*            src/version.c: Defs (the header as a struct and as a word), Check (the proofs).
--   Procmaps/*           src/procmaps.c: Fs (the disk as an interface with laws), Paths (string
--                        functions), Defs (mkdir_, cp_, the copies), Events (the flag and handlers);
--                        Substrings, Copy, Directories, Chosen, Mapped, Steps, Lines, Files, Dump and
--                        Once (the proofs); Memory (a disk for the tests).
--   Example              A system, a configuration and states that the tests share.
--
-- Conventions. Numbers are native; a sum of size_t or uint32_t keeps its modulus. A pointer into a
-- buffer is an offset in bytes, and a buffer is a function from word indexes to words: entries
-- consist of whole words, and the model does not stop a store behind the end of the buffer. A system
-- call is numbered by a clock, so that a Sys may answer each call differently. Blocks obtained and
-- released are counted in Held.
-- `World.crashed` stands for a division by zero.
--
-- Fuel. `write_loop` has enough for every byte and every interruption that Sys allows (`write_rounds`);
-- `first_loop` has 2 ^ 32 rounds, after which the uint32_t enumerator has had every value.
--
-- Not modelled: the LZ4 sources under deps (vendored), the values of the version header (generated),
-- logging, and the tests, benchmarks and scripts.
pub mod Prelude
pub mod Entry
pub mod Aliases
pub mod Config
pub mod Utils
pub mod Sys
pub mod Writer
pub mod Thread
pub mod Subs
pub mod Procmaps
pub mod Libc
pub mod Version
pub mod Example
