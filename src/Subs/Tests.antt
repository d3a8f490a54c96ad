-- ===== src/Subs/Tests.antt =====
-- Runs of the subscribers on concrete states.
use coldtrace.Prelude.{ℕ, ◌≡◌, refl, true, false, none, some}
use coldtrace.Entry.Kind
use coldtrace.Sys.{World}
use coldtrace.Example.{half_full, slow, world, newborn}
use coldtrace.Subs.Counters.{next_atomic_idx}
use coldtrace.Prelude.{List, [], ◌∷◌, is_some, arith}
use coldtrace.Entry.Kind.{is_type_valid, with_stack}
use coldtrace.Entry.Layout.{is_alloc, is_access, is_atomic_access, is_atomic, fixed_size}
use coldtrace.Writer.Defs.{words, validate_trace_size}
use coldtrace.Writer.Files.{first_loop}
use coldtrace.Writer.Ops.{writer_init, writer_reserve, ensure_buffer, writer_new_trace, reserve_in}
use coldtrace.Thread.Defs.{Self, get_thread, stack_push, stack_pop, thread_append}
use coldtrace.Thread.Read.{Seen, Laid, Walk}
use coldtrace.Subs.Index.{append_atomic-index}
use coldtrace.Entry.Header.{parse_type}
use coldtrace.Entry.Layout.{parse_atomic_index}
use coldtrace.Thread.Read.{view}
use coldtrace.Subs.Pthread.{fill_create}
use coldtrace.Subs.Fill.{set_field, append_atomic}
use coldtrace.Prelude.{◌+◌, ◌%◌, ◌<◌, ◌^◌, arith}
use coldtrace.Thread.Started.{
  called-IsSound, called, ready, ready-IsBounded, ready_capacity, called_config, called_offset,
}
use coldtrace.Subs.Counters.{with_world}
use coldtrace.Subs.Fill.{
  append_and, set_field, fill_alloc, fill_free, fill_access, fill_atomic_access, fill_atomic,
}
use coldtrace.Subs.Pthread.{fill_thread_start}
use coldtrace.Subs.Filled.{IsFill}
use coldtrace.Subs.Layouts.{layout-IsFill}
use coldtrace.Subs.Run.{Reaches, here, enter, exit, event, other, Agrees, Reaches-Laid}
use coldtrace.Subs.Areas.{AreaMap, get_area, set_area, fetch_stack_acq, release_area}
use coldtrace.Subs.Atomics.{after_aread, after_awrite, after_cmpxchg, after_fence, log_access}
use coldtrace.Subs.Exclusion.{Scene, set_owner, Interleaves, next, before, IsOwned, after-index}

abbrev quiet : Scene
quiet = record {
  areas = λ i. record { held = false; idx_a = 0 };
  world = record world { next_atomic_index = 7 };
  owners = λ i. none;
}

quiet-IsOwned : IsOwned quiet
quiet-IsOwned i = ((λ _. refl), λ tid index e. cc)

abbrev locked : AreaMap
locked = set_area quiet.areas 2 (record { held = true; idx_a = 7 })

abbrev counted : World
counted = record world { next_atomic_index = 8 }

abbrev busy : Scene
busy = record { areas = locked; world = counted; owners = set_owner quiet.owners 2 (some (5, 7)) }

fetched : fetch_stack_acq 130 (quiet.areas, quiet.world) ≡ some (locked, counted)
unfolding fetch_stack_acq next_atomic_idx
fetched = refl

one_access : Interleaves quiet busy
one_access = next Interleaves.here (before 5 130 locked counted fetched)

after-index_example :
    ((w : World) → fetch_stack_acq 130 (busy.areas, w) ≡ none)
    × (after_aread slow 130 4 (busy.areas, newborn)
        ≡ (release_area 130 busy.areas, log_access slow Kind.atomic_read 130 4 7 newborn))
    × (after_awrite slow 130 4 (busy.areas, newborn)
        ≡ (release_area 130 busy.areas, log_access slow Kind.atomic_write 130 4 7 newborn))
    × (after_cmpxchg slow 130 4 false (busy.areas, newborn)
        ≡ (release_area 130 busy.areas, log_access slow Kind.atomic_read 130 4 7 newborn))
    × (after_fence slow 130 (busy.areas, newborn) ≡ (
      release_area 130 busy.areas,
      append_and slow Kind.fence 130 (λ e. set_field e 1 7) newborn,
    ))
    × ((release_area 130 busy.areas (get_area 130)).held ≡ false)
after-index_example = after-index slow quiet-IsOwned one_access 5 130 7 refl 4 newborn

valid_read : is_type_valid 130 ≡ true
unfolding is_type_valid
valid_read = refl

layout-IsFill_example :
    (is_alloc 2 ≡ true → (size pc : ℕ) → IsFill 130 (fill_alloc size pc))
    × (2 ≡ Kind.free → (pc : ℕ) → IsFill 130 (fill_free pc))
    × (is_access 2 ≡ true → (size pc : ℕ) → IsFill 130 (fill_access size pc))
    × (is_atomic_access 2 ≡ true → (size index : ℕ) → IsFill 130 (fill_atomic_access size index))
    × (is_atomic 2 ≡ true → IsFill 130 fill_atomic)
    × (2 ≡ Kind.thread_start → (ptr size : ℕ) → IsFill 130 (fill_thread_start ptr size))
    × (is_atomic 2 ≡ true → IsFill 130 fill_create)
    × (is_atomic 2 ≡ true → (index : ℕ) → IsFill 130 (λ e s. set_field e 1 index s))
layout-IsFill_example = layout-IsFill 130 (omega arith) valid_read

-- A call from 11, a read of a word that is zero, and the return, while other threads take indexes
abbrev returned : Self
returned = stack_pop (with_world (append_and slow 130 0xab (fill_access 8 77) called) counted)

abbrev one_read : List Seen
one_read = record { type = 130; ptr = 0xab; stack = 11 ∷ [] } ∷ []

run : Reaches slow (get_thread newborn) one_read returned
unfolding get_thread stack_push thread_append writer_init fixed_size is_type_valid with_stack
    writer_reserve ensure_buffer validate_trace_size first_loop reserve_in writer_new_trace
run = exit (
    other
      (event (enter here 11 ready_capacity) 130 0xab (omega arith) (fill_access 8 77)
        ((layout-IsFill 130 (omega arith) valid_read).2 refl 8 77))
      counted (omega arith))

has_buffer : is_some returned.io.impl.buffer ≡ true
unfolding get_thread stack_push thread_append append_and stack_pop writer_init fixed_size
    is_type_valid with_stack writer_reserve ensure_buffer validate_trace_size first_loop reserve_in
    writer_new_trace
has_buffer = refl

Reaches-Laid_example :
    (reader : List ℕ) × (log : List Seen) × Laid
      (words returned.io.impl.buffer)
      returned.io.impl.offset
      reader
      log
    × Walk (words returned.io.impl.buffer) returned.io.impl.offset log
    × Agrees log one_read
Reaches-Laid_example = Reaches-Laid ready ready-IsBounded run has_buffer

-- A thread whose fragment is half full, after one call
abbrev busy_thread : Self
busy_thread = record newborn {
  thread = record (newborn.thread) { initd = true; stack_size = 1; stack_capacity = 16 };
  io = half_full;
}

valid_lock : is_type_valid Kind.lock_acquire ≡ true
unfolding is_type_valid
valid_lock = refl

no_index_yet : called.io.world.next_atomic_index < 2 ^ 64
unfolding get_thread stack_push
no_index_yet = omega arith

append_atomic-index_example :
    let t = append_atomic slow Kind.lock_acquire 0xab called in
    let index = called.io.world.next_atomic_index in
    ((thread_append slow Kind.lock_acquire 0xab called).0 ≡ none
      → t.io.world.next_atomic_index ≡ index)
    × ((e : ℕ)
        → (thread_append slow Kind.lock_acquire 0xab called).0 ≡ some e
        → (parse_type (view (words t.io.impl.buffer) e) ≡ Kind.lock_acquire % 128)
          × (parse_atomic_index (view (words t.io.impl.buffer) e) ≡ index)
          × (t.io.world.next_atomic_index ≡ (index + 1) % 2 ^ 64))
append_atomic-index_example =
    append_atomic-index slow called-IsSound Kind.lock_acquire 0xab (omega arith) valid_lock refl
      called_config called_offset no_index_yet
