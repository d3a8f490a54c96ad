-- ===== src/Subs/Memory.antt =====
-- The subscribers of src/subs_malloc.c, src/subs_mman.c, src/subs_memcpy.c and the plain accesses of
-- src/subs_tsan.c. The payload's fields are arguments; a `ret` is the int of the event.
use coldtrace.Prelude.{ℕ, ◌*◌, ◌%◌, ◌^◌, ◌&&◌, ◌==◌, if◌then◌else◌, bit_or}
use coldtrace.Entry.Kind
use coldtrace.Sys.{Sys}
use coldtrace.Thread.Defs.{Self, stack_push, stack_pop, thread_append}
use coldtrace.Subs.Fill.{append_and, fill_access, fill_alloc, fill_free}

unfoldable pub append_alloc : Sys → (type ptr size pc : ℕ) → Self → Self
append_alloc sys type ptr size pc s = append_and sys type ptr (fill_alloc size pc) s

unfoldable pub append_free : Sys → (ptr pc : ℕ) → Self → Self
append_free sys ptr pc s = append_and sys Kind.free ptr (fill_free pc) s

unfoldable pub append_access : Sys → (type ptr size pc : ℕ) → Self → Self
append_access sys type ptr size pc s = append_and sys type ptr (fill_access size pc) s

-- `EVENT_MALLOC`, after
unfoldable pub after_malloc : Sys → (size ret pc : ℕ) → Self → Self
after_malloc sys size ret pc s = append_alloc sys Kind.alloc ret size pc s

-- `EVENT_CALLOC`, after: the product is a uint64_t.
unfoldable pub after_calloc : Sys → (number size ret pc : ℕ) → Self → Self
after_calloc sys number size ret pc s =
    append_alloc sys Kind.alloc ret (number * size % 2 ^ 64) pc s

-- `EVENT_REALLOC`, before and after
unfoldable pub before_realloc : Sys → (ptr pc : ℕ) → Self → Self
before_realloc sys ptr pc s = append_free sys ptr pc s

unfoldable pub after_realloc : Sys → (size ret pc : ℕ) → Self → Self
after_realloc sys size ret pc s = append_alloc sys Kind.alloc ret size pc s

-- `EVENT_FREE`, before
unfoldable pub before_free : Sys → (ptr pc : ℕ) → Self → Self
before_free sys ptr pc s = append_free sys ptr pc s

-- `EVENT_POSIX_MEMALIGN`, after: `block` is `*ev->ptr`.
unfoldable pub after_posix_memalign : Sys → (block size ret pc : ℕ) → Self → Self
after_posix_memalign sys block size ret pc s =
    if ret == 0 then append_alloc sys Kind.alloc block size pc s else s

-- `EVENT_ALIGNED_ALLOC`, after
unfoldable pub after_aligned_alloc : Sys → (size ret pc : ℕ) → Self → Self
after_aligned_alloc sys size ret pc s = append_alloc sys Kind.alloc ret size pc s

-- `EVENT_MMAP`, after
unfoldable pub after_mmap : Sys → (len ret pc : ℕ) → Self → Self
after_mmap sys len ret pc s = append_alloc sys Kind.mmap ret len pc s

-- `EVENT_MUNMAP`, before
unfoldable pub before_munmap : Sys → (addr len pc : ℕ) → Self → Self
before_munmap sys addr len pc s = append_alloc sys Kind.munmap addr len pc s

-- `EVENT_MEMCPY`, before and after
unfoldable pub before_memcpy : Sys → (src num pc : ℕ) → Self → Self
before_memcpy sys src num pc s = append_access sys Kind.read src num pc s

unfoldable pub after_memcpy : Sys → (dest num pc : ℕ) → Self → Self
after_memcpy sys dest num pc s = append_access sys Kind.write dest num pc s

-- `EVENT_MEMMOVE`, before and after
unfoldable pub before_memmove : Sys → (src count pc : ℕ) → Self → Self
before_memmove sys src count pc s = append_access sys Kind.read src count pc s

unfoldable pub after_memmove : Sys → (dest count pc : ℕ) → Self → Self
after_memmove sys dest count pc s = append_access sys Kind.write dest count pc s

-- `EVENT_MEMSET`, after
unfoldable pub after_memset : Sys → (ptr num pc : ℕ) → Self → Self
after_memset sys ptr num pc s = append_access sys Kind.write ptr num pc s

-- The type of a read: flagged if it reads eight bytes that are all zero. `value` is the word
-- at the address.
abbrev pub read_type : (size value : ℕ) → ℕ
read_type size value =
    if (size == 8) && (value == 0) then bit_or Kind.read Kind.zero_flag else Kind.read

-- `EVENT_MA_READ` and `EVENT_MA_READ_RANGE`
unfoldable pub on_read : Sys → (addr size value pc : ℕ) → Self → Self
on_read sys addr size value pc s = append_access sys (read_type size value) addr size pc s

unfoldable pub on_read_range : Sys → (addr size value pc : ℕ) → Self → Self
on_read_range sys addr size value pc s = append_access sys (read_type size value) addr size pc s

-- `EVENT_MA_WRITE` and `EVENT_MA_WRITE_RANGE`
unfoldable pub on_write : Sys → (addr size pc : ℕ) → Self → Self
on_write sys addr size pc s = append_access sys Kind.write addr size pc s

unfoldable pub on_write_range : Sys → (addr size pc : ℕ) → Self → Self
on_write_range sys addr size pc s = append_access sys Kind.write addr size pc s

-- `EVENT_STACKTRACE_ENTER` and `EVENT_STACKTRACE_EXIT`
unfoldable pub on_stack_enter : Sys → (caller : ℕ) → Self → Self
on_stack_enter sys caller s = stack_push sys caller s

unfoldable pub on_stack_exit : Self → Self
on_stack_exit s = stack_pop s

-- `EVENT_TEST_MARKER` of src/subs_marker.c
unfoldable pub on_test_marker : Sys → Self → Self
on_test_marker sys s = (thread_append sys Kind.test_marker 0 s).1
