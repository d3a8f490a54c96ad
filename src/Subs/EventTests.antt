-- ===== src/Subs/EventTests.antt =====
-- A thread that starts, calls a function, reads a word that is zero and takes a lock.
use coldtrace.Prelude.{◌^◌, ◌<◌, ◌≡◌, refl, true, false, [], ◌∷◌, is_some, arith}
use coldtrace.Entry.Kind
use coldtrace.Entry.Kind.{is_type_valid, with_stack}
use coldtrace.Entry.Layout.{fixed_size}
use coldtrace.Writer.Defs.{validate_trace_size}
use coldtrace.Writer.Files.{first_loop}
use coldtrace.Writer.Ops.{writer_init, writer_reserve, ensure_buffer, writer_new_trace, reserve_in}
use coldtrace.Thread.Defs.{get_thread, thread_init, thread_append, stack_push}
use coldtrace.Thread.Bounded.{Keeps}
use coldtrace.Thread.Started.{newborn-IsReleased, ready, ready-IsBounded, ready_capacity}
use coldtrace.Example.{slow, newborn}
use coldtrace.Subs.Areas.{AreaMap}
use coldtrace.Subs.Atomics.{Traced}
use coldtrace.Subs.Counters.{next_atomic_idx}
use coldtrace.Subs.Fill.{append_and}
use coldtrace.Subs.Memory.{on_stack_enter, on_read, append_access}
use coldtrace.Subs.Pthread.{on_thread_start}
use coldtrace.Subs.Course.{Course}
use coldtrace.Subs.Events.MemoryEvents.{stack_enter_seen, read_seen}
use coldtrace.Subs.Dispatch.{memory, Handles, idle, next, Shown, Handles-Shown, handle-Keeps}
use coldtrace.Subs.Locks
use coldtrace.Subs.Begun.{on_thread_start-Shown}
use coldtrace.Subs.LockOrder.{Interleaves-Ordered}
use coldtrace.Subs.Locks.{
  Scene, unlocked, locked, IsIn, Ordered, no_section, no_index, no_type, lock, acquire, acquired_by,
}

abbrev free_areas : AreaMap
free_areas i = record { held = false; idx_a = 0 }

abbrev begun : Traced
begun = (free_areas, get_thread newborn)

abbrev entered : Traced
entered = (free_areas, on_stack_enter slow 11 begun.1)

abbrev has_read : Traced
has_read = (free_areas, on_read slow 0xab 8 0 77 entered.1)

small_stack : entered.1.thread.stack_capacity < 2 ^ 31
unfolding on_stack_enter get_thread stack_push
small_stack = omega arith

events :
    Handles slow begun (memory (read_seen 0xab 8 0 77) ∷ memory (stack_enter_seen 11) ∷ []) has_read
events =
    next (next idle (memory (stack_enter_seen 11)) entered ready_capacity refl)
      (memory (read_seen 0xab 8 0 77)) has_read small_stack refl

read_there : is_some has_read.1.io.impl.buffer ≡ true
unfolding on_stack_enter on_read append_access append_and get_thread stack_push thread_append
    writer_init fixed_size is_type_valid with_stack writer_reserve ensure_buffer validate_trace_size
    first_loop reserve_in writer_new_trace
read_there = refl

read_fine : has_read.1.thread.failed ≡ false
unfolding on_stack_enter on_read append_access append_and get_thread stack_push thread_append
    writer_init fixed_size is_type_valid with_stack writer_reserve ensure_buffer validate_trace_size
    first_loop reserve_in writer_new_trace
read_fine = refl

-- What a reader is to find
abbrev one_read : Course
one_read = record {
  inside = 11 ∷ [];
  history = record { type = 130; ptr = 0xab; stack = 11 ∷ [] } ∷ [];
}

Handles-Shown_example : Shown one_read has_read.1
unfolding get_thread
Handles-Shown_example = Handles-Shown ready ready-IsBounded events read_there read_fine

-- A thread that only starts
abbrev started : Traced
started = (free_areas, on_thread_start slow 5 0x1000 64 newborn)

start_there : is_some started.1.io.impl.buffer ≡ true
unfolding on_thread_start append_and thread_init get_thread thread_append writer_init fixed_size
    is_type_valid with_stack writer_reserve ensure_buffer validate_trace_size first_loop reserve_in
    writer_new_trace
start_there = refl

start_fine : started.1.thread.failed ≡ false
unfolding on_thread_start append_and thread_init get_thread thread_append writer_init fixed_size
    is_type_valid with_stack writer_reserve ensure_buffer validate_trace_size first_loop reserve_in
    writer_new_trace next_atomic_idx
start_fine = refl

abbrev one_start : Course
one_start = record {
  inside = [];
  history = record { type = Kind.thread_start; ptr = 5; stack = [] } ∷ [];
}

on_thread_start-Shown_example : Shown one_start started.1
on_thread_start-Shown_example =
    on_thread_start-Shown 5 0x1000 64 free_areas newborn refl refl refl refl newborn-IsReleased
      (omega arith) idle start_there start_fine

handle-Keeps_example : Keeps begun.1 entered.1
handle-Keeps_example =
    handle-Keeps slow begun entered (memory (stack_enter_seen 11)) ready ready-IsBounded
      ready_capacity refl

-- A mutex that one thread locks
abbrev free_mutex : Scene
free_mutex = record { phase = unlocked; world = begun.1.io.world; notes = [] }

free_mutex-Ordered : Ordered free_mutex
free_mutex-Ordered = record { nested = no_section; below = no_index; typed = no_type }

begun-IsIn : IsIn (record free_mutex { phase = locked 5 }) begun.1
unfolding get_thread
begun-IsIn = record {
  reader = [];
  log = [];
  sound = ready;
  bounded = ready-IsBounded;
  shared = refl;
  counter = omega arith;
}

Interleaves-Ordered_example :
    Ordered (acquired_by slow 0xab 5 begun.1 (record free_mutex { phase = locked 5 }))
Interleaves-Ordered_example =
    Interleaves-Ordered free_mutex-Ordered
      (Locks.next (Locks.next Locks.here (lock 5 refl)) (acquire 5 begun.1 refl begun-IsIn))
