-- ===== src/Subs/Counters.antt =====
-- src/counters.c: the two counters that all threads share, with the increment of `vatomic64_get_inc`.
use coldtrace.Prelude.{ℕ, ◌+◌, ◌%◌, ◌^◌}
use coldtrace.Sys.{World}
use coldtrace.Thread.Defs.{Self}

-- `coldtrace_next_alloc_idx`
unfoldable pub next_alloc_idx : World → ℕ × World
next_alloc_idx w =
    (w.next_alloc_index, record w { next_alloc_index = (w.next_alloc_index + 1) % 2 ^ 64 })

-- `coldtrace_next_atomic_idx`
unfoldable pub next_atomic_idx : World → ℕ × World
next_atomic_idx w =
    (w.next_atomic_index, record w { next_atomic_index = (w.next_atomic_index + 1) % 2 ^ 64 })

abbrev pub with_world : Self → World → Self
with_world s w = record s { io = record (s.io) { world = w } }
