-- ===== src/Thread/Defs.antt =====
-- `struct coldtrace_thread` of src/thread.c and its operations. A pointer into the buffer is an
-- offset in bytes; the writer and the shared state are the `Io` beside the thread's own fields.
use coldtrace.Prelude.{
  ℕ, suc, ◌+◌, ◌-◌, ◌*◌, ◌/◌, ◌%◌, ◌^◌, Bool, true, false, Option, none, some, List, ltb, ◌==◌,
  if◌then◌else◌, slice,
}
use coldtrace.Entry.Kind.{with_stack}
use coldtrace.Entry.Header.{entry_init}
use coldtrace.Entry.Layout.{fixed_size, word_size, stack_diff_size, pack_diff}
use coldtrace.Sys.{Sys, Mem, store}
use coldtrace.Writer.Defs.{Io, words}
use coldtrace.Writer.Ops.{writer_new_trace, writer_reserve, writer_init, writer_fini, ticked}

-- `stack` is the block of `stack_capacity` words, NULL while the capacity is 0.
pub record Thread : Type 0 where
  pub initd : Bool
  pub failed : Bool
  pub stack_bottom : ℕ
  pub stack : Mem
  pub stack_size : ℕ
  pub stack_capacity : ℕ
  pub created_thread_idx : ℕ

-- What a callback of one thread works on. `id` is `self_id(md)`.
pub record Self : Type 0 where
  pub id : ℕ
  pub thread : Thread
  pub io : Io

abbrev pub initial_stack_capacity : ℕ
initial_stack_capacity = 16

-- `get_coldtrace_thread`: the thread-local state, set up on its first use.
unfoldable pub get_thread : Self → Self
get_thread s = if s.thread.initd then s else record s {
  thread = record (s.thread) { initd = true };
  io = record (s.io) { impl = writer_init (some s.id) s.io.impl };
}

-- `grow_stack_`. realloc keeps the words that are there; what it adds is not read before it is
-- written. `bytes` is a size_t product that cannot wrap.
unfoldable pub grow_stack : Sys → Self → Bool × Self
grow_stack sys s =
    let th = s.thread in
    let new_capacity =
      if th.stack_capacity == 0 then initial_stack_capacity else th.stack_capacity * 2 % 2 ^ 32 in
    let s' = record s { io = ticked s.io } in
    if sys.malloc_ok s.io.world.ticks
    then (true, record s' { thread = record th { stack_capacity = new_capacity } })
    else (false, record s' { thread = record th { failed = true } })

-- A word of the buffer that is written through a pointer.
abbrev pub poke : ℕ → ℕ → Io → Io
poke i value io = record io {
  impl = record (io.impl) { buffer = some (store (words io.impl.buffer) i value) };
}

-- `memcpy` of whole words
abbrev pub copy_words : Mem → ℕ → List ℕ → Mem
copy_words m i List.[] = m
copy_words m i (List.◌∷◌ w ws) = copy_words (store m i w) (suc i) ws

abbrev pub poke_words : ℕ → List ℕ → Io → Io
poke_words i ws io = record io {
  impl = record (io.impl) { buffer = some (copy_words (words io.impl.buffer) i ws) };
}

abbrev pub set_bottom : ℕ → Self → Self
set_bottom bottom s = record s { thread = record (s.thread) { stack_bottom = bottom } }

-- `coldtrace_thread_append` for a type without a stack, from the result of the reservation on
abbrev pub write_plain : (type ptr : ℕ) → Self → Option ℕ × Io → Option ℕ × Self
write_plain type ptr s (none, io) = (none, record s { io = io })
write_plain type ptr s (some e, io) =
    (some e, record s { io = poke (e / word_size) (entry_init type ptr) io })

unfoldable pub append_plain : Sys → (type ptr len : ℕ) → Self → Option ℕ × Self
append_plain sys type ptr len s =
    let s' = if writer_new_trace s.io len then set_bottom 0 s else s in
    write_plain type ptr s' (writer_reserve sys s'.io len)

-- `stack_top - stack_bot`, a uint32_t, and the bytes of so many frames, a size_t
abbrev pub frame_count : (top bottom : ℕ) → ℕ
frame_count top bottom = (top + 2 ^ 32 - bottom) % 2 ^ 32

abbrev pub stack_bytes : (top bottom : ℕ) → ℕ
stack_bytes top bottom = frame_count top bottom * word_size

-- The bottom that the entry is written with: 0 if it starts a fragment.
abbrev pub entry_bottom : Self → ℕ → ℕ
entry_bottom s len =
    let bottom = s.thread.stack_bottom in
    if writer_new_trace s.io (len + stack_bytes s.thread.stack_size bottom) then 0 else bottom

-- `coldtrace_thread_append` for a type with a stack, from the result of the reservation on:
-- the header, the diff at the end of the fixed part, and the frames above the bottom.
abbrev pub write_stack : (type ptr len bottom : ℕ) → Self → Option ℕ × Io → Option ℕ × Self
write_stack type ptr len bottom s (none, io) = (none, record s { io = io })
write_stack type ptr len bottom s (some e, io) =
    let top = s.thread.stack_size in
    let frames = slice s.thread.stack bottom (frame_count top bottom) in
    let diff = (e + len - stack_diff_size) / word_size in
    let written =
      poke_words (diff + 1) frames
        (poke diff (pack_diff bottom top) (poke (e / word_size) (entry_init type ptr) io)) in
    (some e, set_bottom top (record s { io = written }))

unfoldable pub append_stack : Sys → (type ptr len : ℕ) → Self → Option ℕ × Self
append_stack sys type ptr len s =
    let bottom = entry_bottom s len in
    write_stack type ptr len bottom s
      (writer_reserve sys s.io (len + stack_bytes s.thread.stack_size bottom))

-- `coldtrace_thread_append` once the thread is set up
unfoldable pub append_to : Sys → (type ptr : ℕ) → Self → Option ℕ × Self
unfolding append_plain append_stack
append_to sys type ptr s =
    let len = fixed_size type in
    if s.thread.failed
    then (none, s)
    else if len == 0
    then (none, s)
    else if with_stack type
    then append_stack sys type ptr len s
    else append_plain sys type ptr len s

-- `coldtrace_thread_append`
unfoldable pub thread_append : Sys → (type ptr : ℕ) → Self → Option ℕ × Self
unfolding append_to
thread_append sys type ptr s = append_to sys type ptr (get_thread s)

-- `coldtrace_thread_init`
unfoldable pub thread_init : Self → Self
thread_init s =
    let s' = get_thread s in
    record s' { io = record (s'.io) { impl = writer_init (some s'.id) s'.io.impl } }

-- `coldtrace_thread_fini`
unfoldable pub thread_fini : Sys → Self → Self
thread_fini sys s =
    let s' = get_thread s in
    record s' {
      thread = record (s'.thread) { stack_size = 0; stack_capacity = 0; stack_bottom = 0 };
      io = writer_fini sys s'.io;
    }

-- `coldtrace_thread_set_create_idx`
unfoldable pub set_create_idx : ℕ → Self → Self
set_create_idx idx s =
    let s' = get_thread s in record s' { thread = record (s'.thread) { created_thread_idx = idx } }

-- `coldtrace_thread_get_create_idx`
unfoldable pub get_create_idx : Self → ℕ × Self
get_create_idx s = let s' = get_thread s in (s'.thread.created_thread_idx, s')

-- The write of `coldtrace_thread_stack_push`.
abbrev pub push_frame : ℕ → Self → Self
push_frame caller s = record s {
  thread = record (s.thread) {
    stack = store s.thread.stack s.thread.stack_size (caller % 2 ^ 64);
    stack_size = (s.thread.stack_size + 1) % 2 ^ 32;
  };
}

abbrev pub push_grown : ℕ → Bool × Self → Self
push_grown caller (true, s) = push_frame caller s
push_grown caller (false, s) = s

-- `coldtrace_thread_stack_push`
unfoldable pub stack_push : Sys → ℕ → Self → Self
unfolding grow_stack
stack_push sys caller s =
    let s' = get_thread s in
    if s'.thread.failed
    then s'
    else if s'.thread.stack_size == s'.thread.stack_capacity
    then push_grown caller (grow_stack sys s')
    else push_frame caller s'

-- `coldtrace_thread_stack_pop`
unfoldable pub stack_pop : Self → Self
stack_pop s =
    let s' = get_thread s in
    let th = s'.thread in
    let size = th.stack_size - 1 in
    let bottom = if ltb size th.stack_bottom then size else th.stack_bottom in
    if th.failed
    then s'
    else if ltb 0 th.stack_size
    then record s' { thread = record th { stack_size = size; stack_bottom = bottom } }
    else s'
