-- ===== src/Subs/Fill.antt =====
-- What the subscribers share: `COLDTRACE_APPEND_OR_RETURN_OK` of include/coldtrace/subs_utils.h, and
-- the fields of the entry structs of include/coldtrace/entries.h that they write behind the header.
use coldtrace.Prelude.{ℕ, ◌+◌, ◌/◌, ◌%◌, ◌^◌, Option, none, some, Bool, if◌then◌else◌}
use coldtrace.Entry.Layout.{word_size}
use coldtrace.Sys.{Sys}
use coldtrace.Thread.Defs.{Self, poke, thread_append}
use coldtrace.Subs.Counters.{next_alloc_idx, next_atomic_idx, with_world}

-- A word of the entry at `e`: word 0 is the header.
abbrev pub set_field : (e i value : ℕ) → Self → Self
set_field e i value s = record s { io = poke (e / word_size + i) (value % 2 ^ 64) s.io }

-- `COLDTRACE_APPEND_OR_RETURN_OK` and what the subscriber does with the entry that it gets
abbrev pub and_fill : (ℕ → Self → Self) → Option ℕ × Self → Self
and_fill fill (none, s) = s
and_fill fill (some e, s) = fill e s

unfoldable pub append_and : Sys → (type ptr : ℕ) → (ℕ → Self → Self) → Self → Self
append_and sys type ptr fill s = and_fill fill (thread_append sys type ptr s)

-- A field that is given the next index of a counter.
abbrev pub set_alloc_index : (e i : ℕ) → Self → Self
unfolding next_alloc_idx
set_alloc_index e i s =
    let (index, w) = next_alloc_idx s.io.world in set_field e i index (with_world s w)

abbrev pub set_atomic_index : (e i : ℕ) → Self → Self
unfolding next_atomic_idx
set_atomic_index e i s =
    let (index, w) = next_atomic_idx s.io.world in set_field e i index (with_world s w)

-- `coldtrace_access_entry`: `size`, `caller`
abbrev pub fill_access : (size pc e : ℕ) → Self → Self
fill_access size pc e s = set_field e 2 pc (set_field e 1 size s)

-- `coldtrace_alloc_entry`: `size`, `alloc_index`, `caller`
abbrev pub fill_alloc : (size pc e : ℕ) → Self → Self
fill_alloc size pc e s = set_field e 3 pc (set_alloc_index e 2 (set_field e 1 size s))

-- `coldtrace_free_entry`: `alloc_index`, `caller`
abbrev pub fill_free : (pc e : ℕ) → Self → Self
fill_free pc e s = set_field e 2 pc (set_alloc_index e 1 s)

-- `coldtrace_atomic_entry`: `atomic_index`
abbrev pub fill_atomic : ℕ → Self → Self
fill_atomic e s = set_atomic_index e 1 s

-- `coldtrace_atomic_access_entry`: `size`, `atomic_index`
abbrev pub fill_atomic_access : (size index e : ℕ) → Self → Self
fill_atomic_access size index e s = set_field e 2 index (set_field e 1 size s)

-- An entry of the atomic layout with the next atomic index
unfoldable pub append_atomic : Sys → (type ptr : ℕ) → Self → Self
unfolding append_and
append_atomic sys type ptr s = append_and sys type ptr fill_atomic s

-- the same where the call that the event reports has succeeded (`ev->ret == 0`)
unfoldable pub append_atomic_if : Bool → Sys → (type ptr : ℕ) → Self → Self
unfolding append_atomic
append_atomic_if ok sys type ptr s = if ok then append_atomic sys type ptr s else s
