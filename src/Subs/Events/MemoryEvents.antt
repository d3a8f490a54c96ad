-- ===== src/Subs/Events/MemoryEvents.antt =====
-- The events of src/subs_malloc.c, src/subs_mman.c, src/subs_memcpy.c, src/subs_marker.c and the plain
-- accesses and calls of src/subs_tsan.c.
use coldtrace.Prelude.{
  ℕ, ◌*◌, ◌%◌, ◌^◌, ◌<◌, ◌≡◌, refl, true, List, [], ◌∷◌, ◌==◌, if◌then◌else◌, if_split, arith, ◌&&◌,
  none, some, Option,
}
use coldtrace.Entry.Kind
use coldtrace.Entry.Kind.{is_type_valid}
use coldtrace.Entry.Layout.{is_access}
use coldtrace.Sys.{Sys}
use coldtrace.Thread.Defs.{Self}
use mathlib.Core.Path.{subst}
use coldtrace.Thread.Defs.{thread_append}
use coldtrace.Subs.Fill.{append_and, and_fill}
use coldtrace.Subs.Filling.{IsFill-none}
use coldtrace.Subs.Memory.{read_type}
use coldtrace.Subs.Memory.{
  after_malloc, after_calloc, before_realloc, after_realloc, before_free, after_posix_memalign,
  after_aligned_alloc, after_mmap, before_munmap, before_memcpy, after_memcpy, before_memmove,
  after_memmove, after_memset, on_read, on_read_range, on_write, on_write_range, on_stack_enter,
  on_stack_exit, on_test_marker,
}
use coldtrace.Subs.Course.{Act, enters, leaves, to_record}
use coldtrace.Subs.Follows.{
  Follows, is_filled_as, Follows-refl, if-Follows, append-Follows, append_alloc-Follows,
  append_access-Follows, append_free-Follows, stack_push-Follows, stack_pop-Follows,
}

pub data MemoryEvent : Type 0 where
  malloc_ended : (size ret pc : ℕ) → MemoryEvent
  calloc_ended : (number size ret pc : ℕ) → MemoryEvent
  realloc_began : (ptr pc : ℕ) → MemoryEvent
  realloc_ended : (size ret pc : ℕ) → MemoryEvent
  free_began : (ptr pc : ℕ) → MemoryEvent
  posix_memalign_ended : (block size ret pc : ℕ) → MemoryEvent
  aligned_alloc_ended : (size ret pc : ℕ) → MemoryEvent
  mmap_ended : (len ret pc : ℕ) → MemoryEvent
  munmap_began : (addr len pc : ℕ) → MemoryEvent
  memcpy_began : (src num pc : ℕ) → MemoryEvent
  memcpy_ended : (dest num pc : ℕ) → MemoryEvent
  memmove_began : (src count pc : ℕ) → MemoryEvent
  memmove_ended : (dest count pc : ℕ) → MemoryEvent
  memset_ended : (ptr num pc : ℕ) → MemoryEvent
  read_seen : (addr size value pc : ℕ) → MemoryEvent
  read_range_seen : (addr size value pc : ℕ) → MemoryEvent
  write_seen : (addr size pc : ℕ) → MemoryEvent
  write_range_seen : (addr size pc : ℕ) → MemoryEvent
  stack_enter_seen : (caller : ℕ) → MemoryEvent
  stack_exit_seen : MemoryEvent
  test_marker_seen : MemoryEvent

-- The handler of an event
abbrev pub handle_memory : Sys → MemoryEvent → Self → Self
handle_memory sys (malloc_ended size ret pc) s = after_malloc sys size ret pc s
handle_memory sys (calloc_ended number size ret pc) s = after_calloc sys number size ret pc s
handle_memory sys (realloc_began ptr pc) s = before_realloc sys ptr pc s
handle_memory sys (realloc_ended size ret pc) s = after_realloc sys size ret pc s
handle_memory sys (free_began ptr pc) s = before_free sys ptr pc s
handle_memory sys (posix_memalign_ended block size ret pc) s =
    after_posix_memalign sys block size ret pc s
handle_memory sys (aligned_alloc_ended size ret pc) s = after_aligned_alloc sys size ret pc s
handle_memory sys (mmap_ended len ret pc) s = after_mmap sys len ret pc s
handle_memory sys (munmap_began addr len pc) s = before_munmap sys addr len pc s
handle_memory sys (memcpy_began src num pc) s = before_memcpy sys src num pc s
handle_memory sys (memcpy_ended dest num pc) s = after_memcpy sys dest num pc s
handle_memory sys (memmove_began src count pc) s = before_memmove sys src count pc s
handle_memory sys (memmove_ended dest count pc) s = after_memmove sys dest count pc s
handle_memory sys (memset_ended ptr num pc) s = after_memset sys ptr num pc s
handle_memory sys (read_seen addr size value pc) s = on_read sys addr size value pc s
handle_memory sys (read_range_seen addr size value pc) s = on_read_range sys addr size value pc s
handle_memory sys (write_seen addr size pc) s = on_write sys addr size pc s
handle_memory sys (write_range_seen addr size pc) s = on_write_range sys addr size pc s
handle_memory sys (stack_enter_seen caller) s = on_stack_enter sys caller s
handle_memory sys stack_exit_seen s = on_stack_exit s
handle_memory sys test_marker_seen s = on_test_marker sys s

-- What it is to do
abbrev pub memory_acts : MemoryEvent → List Act
memory_acts (malloc_ended _ ret _) = to_record Kind.alloc ret ∷ []
memory_acts (calloc_ended _ _ ret _) = to_record Kind.alloc ret ∷ []
memory_acts (realloc_began ptr _) = to_record Kind.free ptr ∷ []
memory_acts (realloc_ended _ ret _) = to_record Kind.alloc ret ∷ []
memory_acts (free_began ptr _) = to_record Kind.free ptr ∷ []
memory_acts (posix_memalign_ended block _ ret _) =
    if ret == 0 then to_record Kind.alloc block ∷ [] else []
memory_acts (aligned_alloc_ended _ ret _) = to_record Kind.alloc ret ∷ []
memory_acts (mmap_ended _ ret _) = to_record Kind.mmap ret ∷ []
memory_acts (munmap_began addr _ _) = to_record Kind.munmap addr ∷ []
memory_acts (memcpy_began src _ _) = to_record Kind.read src ∷ []
memory_acts (memcpy_ended dest _ _) = to_record Kind.write dest ∷ []
memory_acts (memmove_began src _ _) = to_record Kind.read src ∷ []
memory_acts (memmove_ended dest _ _) = to_record Kind.write dest ∷ []
memory_acts (memset_ended ptr _ _) = to_record Kind.write ptr ∷ []
memory_acts (read_seen addr size value _) = to_record (read_type size value) addr ∷ []
memory_acts (read_range_seen addr size value _) = to_record (read_type size value) addr ∷ []
memory_acts (write_seen addr _ _) = to_record Kind.write addr ∷ []
memory_acts (write_range_seen addr _ _) = to_record Kind.write addr ∷ []
memory_acts (stack_enter_seen caller) = enters caller ∷ []
memory_acts stack_exit_seen = leaves ∷ []
memory_acts test_marker_seen = to_record Kind.test_marker 0 ∷ []

read_type-filled : (size value : ℕ) → is_filled_as is_access (read_type size value) ≡ true
unfolding is_type_valid
read_type-filled size value =
    if_split (λ t. is_filled_as is_access t ≡ true) ((size == 8) && (value == 0)) (λ _. refl)
      (λ _. refl)

test_marker-Follows :
    {sys : Sys} {s : Self}
    → Follows sys (to_record Kind.test_marker 0 ∷ []) s (on_test_marker sys s)
unfolding on_test_marker append_and is_type_valid
test_marker-Follows {sys} {s} =
    subst (λ t. Follows sys (to_record Kind.test_marker 0 ∷ []) s t)
      (unfilled (thread_append sys Kind.test_marker 0 s))
      (append-Follows Kind.test_marker 0 (λ e t. t) (omega arith) refl IsFill-none)
  where
    unfilled : (x : Option ℕ × Self) → and_fill (λ e t. t) x ≡ x.1
    unfilled (none, t) = refl
    unfilled (some e, t) = refl

-- A handler does what it is to do.
pub handle_memory-Follows :
    {sys : Sys} {s : Self} (e : MemoryEvent)
    → s.thread.stack_capacity < 2 ^ 31
    → Follows sys (memory_acts e) s (handle_memory sys e s)
unfolding is_type_valid after_malloc after_calloc before_realloc after_realloc before_free
    after_posix_memalign after_aligned_alloc after_mmap before_munmap before_memcpy after_memcpy
    before_memmove after_memmove after_memset on_read on_read_range on_write on_write_range
    on_stack_enter on_stack_exit on_test_marker
handle_memory-Follows (malloc_ended size ret pc) small =
    append_alloc-Follows Kind.alloc ret size pc refl
handle_memory-Follows (calloc_ended number size ret pc) small =
    append_alloc-Follows Kind.alloc ret (number * size % 2 ^ 64) pc refl
handle_memory-Follows (realloc_began ptr pc) small = append_free-Follows ptr pc
handle_memory-Follows (realloc_ended size ret pc) small =
    append_alloc-Follows Kind.alloc ret size pc refl
handle_memory-Follows (free_began ptr pc) small = append_free-Follows ptr pc
handle_memory-Follows (posix_memalign_ended block size ret pc) small =
    if-Follows (ret == 0) (append_alloc-Follows Kind.alloc block size pc refl) Follows-refl
handle_memory-Follows (aligned_alloc_ended size ret pc) small =
    append_alloc-Follows Kind.alloc ret size pc refl
handle_memory-Follows (mmap_ended len ret pc) small = append_alloc-Follows Kind.mmap ret len pc refl
handle_memory-Follows (munmap_began addr len pc) small =
    append_alloc-Follows Kind.munmap addr len pc refl
handle_memory-Follows (memcpy_began src num pc) small =
    append_access-Follows Kind.read src num pc refl
handle_memory-Follows (memcpy_ended dest num pc) small =
    append_access-Follows Kind.write dest num pc refl
handle_memory-Follows (memmove_began src count pc) small =
    append_access-Follows Kind.read src count pc refl
handle_memory-Follows (memmove_ended dest count pc) small =
    append_access-Follows Kind.write dest count pc refl
handle_memory-Follows (memset_ended ptr num pc) small =
    append_access-Follows Kind.write ptr num pc refl
handle_memory-Follows (read_seen addr size value pc) small =
    append_access-Follows (read_type size value) addr size pc (read_type-filled size value)
handle_memory-Follows (read_range_seen addr size value pc) small =
    append_access-Follows (read_type size value) addr size pc (read_type-filled size value)
handle_memory-Follows (write_seen addr size pc) small =
    append_access-Follows Kind.write addr size pc refl
handle_memory-Follows (write_range_seen addr size pc) small =
    append_access-Follows Kind.write addr size pc refl
handle_memory-Follows (stack_enter_seen caller) small = stack_push-Follows caller small
handle_memory-Follows stack_exit_seen small = stack_pop-Follows
handle_memory-Follows test_marker_seen small = test_marker-Follows
