-- ===== src/Entry/Kind.antt =====
-- The entry types of include/coldtrace/entries.h (`coldtrace_entry_type`, a uint8_t) and what
-- src/entries.c reads off a type alone.
use Prim.Native.String.{String}
use coldtrace.Prelude.{
  ℕ, zero, suc, ◌-◌, ◌^◌, bit_and, Bool, ◌||◌, List, [], ◌∷◌, ltb, ◌==◌, if◌then◌else◌,
}

-- `ZERO_FLAG`, or-ed into the type of a read that found eight zero bytes.
abbrev pub zero_flag : ℕ
zero_flag = 0x80

abbrev pub free : ℕ
free = 0

abbrev pub alloc : ℕ
alloc = 1

abbrev pub read : ℕ
read = 2

abbrev pub write : ℕ
write = 3

abbrev pub atomic_read : ℕ
atomic_read = 4

abbrev pub atomic_write : ℕ
atomic_write = 5

abbrev pub lock_acquire : ℕ
lock_acquire = 6

abbrev pub lock_release : ℕ
lock_release = 7

abbrev pub thread_create : ℕ
thread_create = 8

abbrev pub thread_start : ℕ
thread_start = 9

abbrev pub rw_lock_create : ℕ
rw_lock_create = 10

abbrev pub rw_lock_destroy : ℕ
rw_lock_destroy = 11

abbrev pub rw_lock_acq_shr : ℕ
rw_lock_acq_shr = 12

abbrev pub rw_lock_acq_exc : ℕ
rw_lock_acq_exc = 13

abbrev pub rw_lock_rel_shr : ℕ
rw_lock_rel_shr = 14

abbrev pub rw_lock_rel_exc : ℕ
rw_lock_rel_exc = 15

abbrev pub rw_lock_rel : ℕ
rw_lock_rel = 16

abbrev pub cxa_guard_acquire : ℕ
cxa_guard_acquire = 17

abbrev pub cxa_guard_release : ℕ
cxa_guard_release = 18

abbrev pub thread_join : ℕ
thread_join = 19

abbrev pub thread_exit : ℕ
thread_exit = 20

abbrev pub fence : ℕ
fence = 21

abbrev pub mmap : ℕ
mmap = 22

abbrev pub munmap : ℕ
munmap = 23

abbrev pub test_marker : ℕ
test_marker = 24

abbrev pub end : ℕ
end = 25

-- `type & ~ZERO_FLAG`, in the `int` that both operands are promoted to.
abbrev pub unflagged : ℕ → ℕ
unflagged type = bit_and type (2 ^ 32 - 1 - zero_flag)

unfoldable pub is_type_valid : ℕ → Bool
is_type_valid type = ltb (unflagged type) end

-- `type_map_`, in the order of the designators' values.
abbrev pub type_map : List String
type_map =
    "COLDTRACE_FREE" ∷ "COLDTRACE_ALLOC" ∷ "COLDTRACE_READ" ∷ "COLDTRACE_WRITE"
    ∷ "COLDTRACE_ATOMIC_READ" ∷ "COLDTRACE_ATOMIC_WRITE" ∷ "COLDTRACE_LOCK_ACQUIRE"
    ∷ "COLDTRACE_LOCK_RELEASE" ∷ "COLDTRACE_THREAD_CREATE" ∷ "COLDTRACE_THREAD_START"
    ∷ "COLDTRACE_RW_LOCK_CREATE" ∷ "COLDTRACE_RW_LOCK_DESTROY" ∷ "COLDTRACE_RW_LOCK_ACQ_SHR"
    ∷ "COLDTRACE_RW_LOCK_ACQ_EXC" ∷ "COLDTRACE_RW_LOCK_REL_SHR" ∷ "COLDTRACE_RW_LOCK_REL_EXC"
    ∷ "COLDTRACE_RW_LOCK_REL" ∷ "COLDTRACE_CXA_GUARD_ACQUIRE" ∷ "COLDTRACE_CXA_GUARD_RELEASE"
    ∷ "COLDTRACE_THREAD_JOIN" ∷ "COLDTRACE_THREAD_EXIT" ∷ "COLDTRACE_FENCE" ∷ "COLDTRACE_MMAP"
    ∷ "COLDTRACE_MUNMAP" ∷ "COLDTRACE_TEST_MARKER" ∷ []

-- An element of a table, and a name that no entry has for an index past its end.
nth_name : List String → ℕ → String
nth_name [] i = ""
nth_name (s ∷ names) zero = s
nth_name (s ∷ names) (suc i) = nth_name names i

-- `coldtrace_entry_type_str`
unfoldable pub entry_type_str : ℕ → String
unfolding is_type_valid nth_name
entry_type_str type =
    if is_type_valid type then nth_name type_map (unflagged type) else "INVALID_EVENT"

-- The labels of the `switch` in `with_stack_`.
abbrev pub stack_label : ℕ → Bool
stack_label t = t == free || t == alloc || t == mmap || t == munmap || t == read || t == write

-- The types whose entries end in a stack diff: `with_stack_` of src/thread.c.
unfoldable pub with_stack : ℕ → Bool
with_stack type = stack_label (unflagged type)
