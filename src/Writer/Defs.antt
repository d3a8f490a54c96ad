-- ===== src/Writer/Defs.antt =====
-- `struct writer_impl` of src/writer.c and the functions on it.
use coldtrace.Prelude.{
  ℕ, ◌+◌, ◌-◌, ◌%◌, ◌^◌, Bool, true, false, ◌&&◌, Option, none, some, List, [], ◌++◌, ltb,
  if◌then◌else◌,
}
use coldtrace.Sys.{Sys, Mem, store, World, tick, put_file, le_bytes, read_bytes}
use coldtrace.Writer.Files.{write_all}

-- `buffer` is NULL as `none`; `comp_buf` is the capacity of the block that it points to, if any.
-- `md` only serves `coldtrace_writer_close`, which does nothing unless a test overrides it.
pub record Writer : Type 0 where
  pub initd : Bool
  pub failed : Bool
  pub mmapped : Bool
  pub buffer : Option Mem
  pub comp_buf : Option ℕ
  pub size : ℕ
  pub offset : ℕ
  pub tid : ℕ
  pub enumerator : ℕ

-- Blocks that a writer holds: mappings, mempool blocks and malloc blocks, obtained less released.
pub record Held : Type 0 where
  pub maps : ℕ
  pub pools : ℕ
  pub blocks : ℕ

pub record Io : Type 0 where
  pub impl : Writer
  pub held : Held
  pub world : World

abbrev pub header_size : ℕ
header_size = 8

abbrev pub frag_hdr_size : ℕ
frag_hdr_size = header_size + 4

-- `LZ4_MAX_INPUT_SIZE`
abbrev pub lz4_max_input_size : ℕ
lz4_max_input_size = 0x7e000000

-- `validate_trace_size_`
unfoldable pub validate_trace_size : ℕ → Bool → Bool
validate_trace_size size compressed =
    if ltb size header_size
    then false
    else if compressed && ltb lz4_max_input_size size
    then false
    else true

-- munmap, mempool_free, free
abbrev pub drop_buffer : Bool → Held → Held
drop_buffer mmapped h =
    if mmapped then record h { maps = h.maps - 1 } else record h { pools = h.pools - 1 }

abbrev pub release_buffer : Io → Io
release_buffer io = elim io.impl.buffer [
  | none ↦ io
  | some _ ↦ record io {
    impl = record (io.impl) { buffer = none };
    held = drop_buffer io.impl.mmapped io.held;
  }
]

abbrev pub release_comp_buf : Io → Io
release_comp_buf io = elim io.impl.comp_buf [
  | none ↦ io
  | some _ ↦ record io {
    impl = record (io.impl) { comp_buf = none };
    held = record (io.held) { blocks = io.held.blocks - 1 };
  }
]

-- `release_buffers_`
unfoldable pub release_buffers : Io → Io
release_buffers io = release_comp_buf (release_buffer io)

abbrev pub set_failed : Io → Io
set_failed io = record io { impl = record (io.impl) { failed = true } }

-- `fail_`
unfoldable pub fail : Io → Io
unfolding release_buffers
fail io = set_failed (release_buffers io)

-- The words of a buffer. (A NULL buffer is not read.)
abbrev pub words : Option Mem → Mem
words none = λ _. 0
words (some m) = m

-- The bytes of a fragment file: the version header, the raw size as a uint32_t, the LZ4 block.
abbrev pub fragment_bytes : Sys → ℕ → List ℕ → List ℕ
fragment_bytes sys raw comp = le_bytes 8 sys.version ++ (le_bytes 4 (raw % 2 ^ 32) ++ comp)

-- The end of `flush_`: what follows from the result of `write_all_`.
abbrev pub flush_written : Io → Bool × World → Io
flush_written io (true, w) = record io { world = w }
flush_written io (false, w) =
    fail (record io { world = put_file w io.impl.tid io.impl.enumerator none })

-- `flush_` from the open on. O_TRUNC empties the file.
unfoldable pub flush_file : Sys → Io → List ℕ → Io
unfolding write_all
flush_file sys io bytes =
    let w = tick io.world in
    let opened = put_file w io.impl.tid io.impl.enumerator (some []) in
    if sys.open_ok io.world.ticks
    then flush_written io (write_all sys io.impl.tid io.impl.enumerator bytes opened)
    else fail (record io { world = w })

-- `raw`, the bytes of the entries in the buffer
abbrev pub raw_size : Writer → ℕ
raw_size impl = impl.offset - header_size

-- `flush_` from the result of the compression on
unfoldable pub flush_compressed : Sys → Io → Option (List ℕ) → Io
flush_compressed sys io none = fail io
flush_compressed sys io (some comp) = flush_file sys io (fragment_bytes sys (raw_size io.impl) comp)

-- `src`, the bytes of the entries
abbrev pub entry_bytes : Writer → List ℕ
entry_bytes impl = read_bytes (words impl.buffer) header_size (raw_size impl)

-- `flush_`
unfoldable pub flush : Sys → Io → Io
flush sys io =
    let comp = sys.compress (entry_bytes io.impl) (sys.compress_bound io.impl.size) in
    if io.impl.mmapped then flush_compressed sys io comp else io

-- `begin_fragment_`
unfoldable pub begin_fragment : Sys → Io → Io
begin_fragment sys io = record io {
  impl = record (io.impl) {
    buffer = some (store (words io.impl.buffer) 0 sys.version);
    offset = header_size;
  };
}
