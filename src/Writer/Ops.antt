-- ===== src/Writer/Ops.antt =====
-- The writer's operations of src/writer.c: opening the buffer, moving to the next fragment, and the
-- functions of include/coldtrace/writer.h.
use coldtrace.Prelude.{
  ℕ, ◌+◌, ◌%◌, ◌^◌, Bool, true, false, not, ◌&&◌, Option, none, some, ltb, ◌==◌, if◌then◌else◌,
  is_some,
}
use coldtrace.Sys.{Sys, Mem, World, tick}
use coldtrace.Writer.Files.{first_fragment}
use coldtrace.Writer.Defs.{
  Writer, Io, frag_hdr_size, validate_trace_size, set_failed, fail, flush, begin_fragment,
  release_buffers,
}

abbrev pub ticked : Io → Io
ticked io = record io { world = tick io.world }

-- The buffer that an allocation gives, with what it counts.
abbrev pub take_map : Mem → Io → Io
take_map m io = record io {
  impl = record (io.impl) { buffer = some m; mmapped = true };
  held = record (io.held) { maps = io.held.maps + 1 };
}

abbrev pub take_pool : Mem → Io → Io
take_pool m io = record io {
  impl = record (io.impl) { buffer = some m; mmapped = false };
  held = record (io.held) { pools = io.held.pools + 1 };
}

abbrev pub take_comp_buf : ℕ → Io → Io
take_comp_buf capacity io = record io {
  impl = record (io.impl) { comp_buf = some capacity };
  held = record (io.held) { blocks = io.held.blocks + 1 };
}

-- `ensure_buffer_` where writes are disabled
unfoldable pub open_disabled : Sys → Io → Bool × Io
unfolding begin_fragment
open_disabled sys io =
    if sys.mempool_ok io.world.ticks
    then (true, begin_fragment sys (take_pool (sys.mempool_mem io.world.ticks) (ticked io)))
    else (false, record io { impl = record (io.impl) { mmapped = false }; world = tick io.world })

-- what follows from the result of `first_fragment_`
abbrev pub opened_fragment : Sys → Io → Bool × (ℕ × World) → Bool × Io
opened_fragment sys io (made, (e, w)) =
    let io' = record io { impl = record (io.impl) { enumerator = e }; world = w } in
    if made then (true, begin_fragment sys io') else (false, fail io')

-- `ensure_buffer_` from the allocation of the compression buffer on
unfoldable pub open_compressed : Sys → Io → Bool × Io
unfolding fail begin_fragment first_fragment
open_compressed sys io =
    let capacity = frag_hdr_size + sys.compress_bound io.impl.size in
    let io' = take_comp_buf capacity (ticked io) in
    if sys.malloc_ok io.world.ticks
    then opened_fragment sys io' (first_fragment sys io'.impl.tid io'.impl.enumerator io'.world)
    else (false, fail (ticked io))

-- `ensure_buffer_` where writes are enabled: mmap gives zeroed memory.
unfoldable pub open_enabled : Sys → Io → Bool × Io
unfolding open_compressed
open_enabled sys io =
    if sys.mmap_ok io.world.ticks then open_compressed sys (take_map (λ _. 0) (ticked io)) else (
      false,
      record io { impl = record (io.impl) { buffer = none; failed = true }; world = tick io.world },
    )

-- `ensure_buffer_`
unfoldable pub ensure_buffer : Sys → Io → Bool × Io
unfolding open_disabled open_enabled
ensure_buffer sys io =
    let disabled = io.world.config.disable_writes in
    let size = io.world.config.trace_size in
    let io' = record io { impl = record (io.impl) { size = size; offset = 0; enumerator = 0 } } in
    if not io.impl.initd
    then (false, io)
    else if io.impl.failed
    then (false, io)
    else if is_some io.impl.buffer
    then (true, io)
    else if not (validate_trace_size size (not disabled))
    then (false, set_failed io')
    else if disabled
    then open_disabled sys io'
    else open_enabled sys io'

-- `advance_fragment_` where the buffer comes from the pool: a new trace size takes effect, if a
-- block of that size can be had.
unfoldable pub advance_pool : Sys → Io → Io
advance_pool sys io =
    let trace_size = io.world.config.trace_size in
    let io0 = record io { impl = record (io.impl) { offset = 0 } } in
    let resized = record (io0.impl) {
      buffer = some (sys.mempool_mem io.world.ticks);
      size = trace_size;
    } in
    if not (io.impl.size == trace_size) && validate_trace_size trace_size false
    then if sys.mempool_ok io.world.ticks
      then record io0 { impl = resized; world = tick io.world }
      else record io0 { world = tick io.world }
    else io0

-- `advance_fragment_` otherwise: `% coldtrace_get_max()` on uint32_t stops the process at 0.
unfoldable pub advance_file : Io → Io
advance_file io =
    let max = io.world.config.max_file_count in
    if max == 0 then record io { world = record (io.world) { crashed = true } } else record io {
      impl = record (io.impl) { enumerator = (io.impl.enumerator + 1) % 2 ^ 32 % max };
    }

-- `advance_fragment_`
unfoldable pub advance_fragment : Sys → Io → Io
unfolding advance_pool advance_file
advance_fragment sys io = if io.impl.mmapped then advance_file io else advance_pool sys io

-- `new_trace_`
unfoldable pub new_trace : Sys → Io → Io
new_trace sys io =
    let flushed = flush sys io in
    if is_some flushed.impl.buffer
    then begin_fragment sys (advance_fragment sys flushed)
    else flushed

-- `coldtrace_writer_new_trace`: whether an entry of this size wants a new fragment.
unfoldable pub writer_new_trace : Io → ℕ → Bool
writer_new_trace io size =
    let sz = io.world.config.trace_size in
    let trace_size = if ltb sz io.impl.size then sz else io.impl.size in
    ltb trace_size ((io.impl.offset + size) % 2 ^ 64)

-- The end of `coldtrace_writer_reserve`: the address of the entry, as an offset into the buffer.
abbrev pub bump : ℕ → Io → Option ℕ × Io
bump size io = (
  some io.impl.offset,
  record io { impl = record (io.impl) { offset = (io.impl.offset + size) % 2 ^ 64 } },
)

-- `coldtrace_writer_reserve` once there is a buffer
unfoldable pub reserve_in : Sys → Io → ℕ → Option ℕ × Io
reserve_in sys io size =
    let fresh = new_trace sys io in
    if writer_new_trace io size
    then if is_some fresh.impl.buffer then bump size fresh else (none, fresh)
    else bump size io

abbrev pub reserve_after : Sys → ℕ → Bool × Io → Option ℕ × Io
reserve_after sys size (true, io) = reserve_in sys io size
reserve_after sys size (false, io) = (none, io)

-- `coldtrace_writer_reserve`
unfoldable pub writer_reserve : Sys → Io → ℕ → Option ℕ × Io
writer_reserve sys io size = reserve_after sys size (ensure_buffer sys io)

-- `coldtrace_writer_init`; `tid` is `self_id(md)`, or `none` where `md` is NULL.
unfoldable pub writer_init : Option ℕ → Writer → Writer
writer_init none impl = record impl { initd = false; buffer = none; comp_buf = none }
writer_init (some tid) impl = record {
  initd = true;
  failed = false;
  mmapped = false;
  buffer = none;
  comp_buf = none;
  size = 0;
  offset = 0;
  tid = tid;
  enumerator = 0;
}

abbrev pub uninit : Io → Io
uninit io = record io { impl = record (io.impl) { initd = false } }

-- `coldtrace_writer_fini`
unfoldable pub writer_fini : Sys → Io → Io
writer_fini sys io =
    let flushed = flush sys io in
    if not io.impl.initd
    then io
    else uninit (release_buffers (if is_some io.impl.buffer then flushed else io))
