-- ===== src/Entry/Layout.antt =====
-- The entry structs of include/coldtrace/entries.h, and the functions of src/entries.c that read a
-- size or an index. A field of eight bytes is a word of the buffer; a stack diff is one word,
-- `popped` in its low half and `depth` in its high half, and then the addresses.
use coldtrace.Prelude.{ℕ, ◌+◌, ◌-◌, ◌*◌, ◌/◌, ◌%◌, ◌^◌, Bool, ◌||◌, ltb, leb, ◌==◌, if◌then◌else◌}
use coldtrace.Entry.Kind
use coldtrace.Entry.Kind.{is_type_valid, unflagged}
use coldtrace.Entry.Header.{Buf, parse_type}

-- sizeof of the structs
abbrev pub word_size : ℕ
word_size = 8

abbrev pub stack_diff_size : ℕ
stack_diff_size = 8

abbrev pub marker_entry_size : ℕ
marker_entry_size = 8

abbrev pub access_entry_size : ℕ
access_entry_size = 32

abbrev pub alloc_entry_size : ℕ
alloc_entry_size = 40

abbrev pub free_entry_size : ℕ
free_entry_size = 32

abbrev pub atomic_access_entry_size : ℕ
atomic_access_entry_size = 24

abbrev pub atomic_entry_size : ℕ
atomic_entry_size = 16

abbrev pub thread_init_entry_size : ℕ
thread_init_entry_size = 32

-- `INVALID_SIZE`, `INVALID_ALLOC_INDEX` and `INVALID_ATOMIC_INDEX`, -1 as a uint64_t
abbrev pub invalid : ℕ
invalid = 2 ^ 64 - 1

-- `struct coldtrace_stack_diff` without its addresses, as the word it occupies
abbrev pub pack_diff : ℕ → ℕ → ℕ
pack_diff popped depth = popped % 2 ^ 32 + depth % 2 ^ 32 * 2 ^ 32

abbrev pub diff_popped : ℕ → ℕ
diff_popped w = w % 2 ^ 32

abbrev pub diff_depth : ℕ → ℕ
diff_depth w = w / 2 ^ 32 % 2 ^ 32

-- `(depth - popped) * sizeof(uint64_t)`: the difference is a uint32_t, the product a size_t.
abbrev pub diff_bytes : ℕ → ℕ
diff_bytes w = (diff_depth w + 2 ^ 32 - diff_popped w) % 2 ^ 32 * word_size

-- the labels of each case of the `switch` in `coldtrace_entry_get_size`
abbrev pub is_alloc : ℕ → Bool
is_alloc t = t == Kind.alloc || t == Kind.mmap || t == Kind.munmap

abbrev pub is_access : ℕ → Bool
is_access t = t == Kind.read || t == Kind.write

abbrev pub is_atomic_access : ℕ → Bool
is_atomic_access t = t == Kind.atomic_read || t == Kind.atomic_write

abbrev pub is_atomic : ℕ → Bool
is_atomic t =
    t == Kind.lock_acquire
    || t == Kind.lock_release
    || t == Kind.rw_lock_create
    || t == Kind.rw_lock_destroy
    || t == Kind.rw_lock_acq_shr
    || t == Kind.rw_lock_acq_exc
    || t == Kind.rw_lock_rel_shr
    || t == Kind.rw_lock_rel_exc
    || t == Kind.rw_lock_rel
    || t == Kind.cxa_guard_acquire
    || t == Kind.cxa_guard_release
    || t == Kind.thread_join
    || t == Kind.thread_exit
    || t == Kind.fence
    || t == Kind.thread_create

-- The `switch` of `coldtrace_entry_get_size`, over the words that the cases read.
unfoldable pub size_of_type : ℕ → (word3 word4 : ℕ) → ℕ
size_of_type t word3 word4 =
    if t == Kind.free
    then free_entry_size + diff_bytes word3
    else if is_alloc t
    then alloc_entry_size + diff_bytes word4
    else if is_access t
    then access_entry_size + diff_bytes word3
    else if t == Kind.thread_start
    then thread_init_entry_size
    else if is_atomic_access t
    then atomic_access_entry_size
    else if is_atomic t
    then atomic_entry_size
    else if t == Kind.test_marker
    then marker_entry_size
    else 0

-- `coldtrace_entry_get_size`: the stack diff of an alloc entry is word 4, of the others word 3.
unfoldable pub get_size : Buf → ℕ
unfolding size_of_type
get_size buf = size_of_type (parse_type buf) (buf 3) (buf 4)

-- `space_map_`
unfoldable pub space_map : ℕ → ℕ
space_map t =
    if t == Kind.free
    then free_entry_size
    else if is_alloc t
    then alloc_entry_size
    else if is_access t
    then access_entry_size
    else if is_atomic_access t
    then atomic_access_entry_size
    else if is_atomic t
    then atomic_entry_size
    else if t == Kind.thread_start
    then thread_init_entry_size
    else if t == Kind.test_marker
    then marker_entry_size
    else 0

-- `coldtrace_entry_fixed_size`
unfoldable pub fixed_size : ℕ → ℕ
unfolding space_map
fixed_size type = if is_type_valid type then space_map (unflagged type) else 0

-- `coldtrace_entry_parse_alloc_index`
unfoldable pub parse_alloc_index : Buf → ℕ
parse_alloc_index buf =
    let type = parse_type buf in
    if type == Kind.alloc || type == Kind.mmap || type == Kind.munmap
    then buf 2
    else if type == Kind.free
    then buf 1
    else invalid

-- `coldtrace_entry_parse_atomic_index`
unfoldable pub parse_atomic_index : Buf → ℕ
parse_atomic_index buf =
    let type = parse_type buf in
    if leb Kind.mmap type || ltb type Kind.atomic_read
    then invalid
    else if type == Kind.atomic_read || type == Kind.atomic_write
    then buf 2
    else buf 1

-- `coldtrace_entry_parse_size`
unfoldable pub parse_size : Buf → ℕ
parse_size buf =
    let type = parse_type buf in
    if type == Kind.alloc
      || type == Kind.read
      || type == Kind.write
      || type == Kind.mmap
      || type == Kind.atomic_read
      || type == Kind.atomic_write
      || type == Kind.munmap
    then buf 1
    else invalid
