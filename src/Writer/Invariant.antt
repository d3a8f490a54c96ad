-- ===== src/Writer/Invariant.antt =====
-- What always holds of a writer between calls: which blocks it owns, and that a buffer is set up.
use coldtrace.Prelude.{
  ℕ, ◌≤◌, ◌≡◌, Bool, true, false, not, ◌&&◌, none, is_some, if◌then◌else◌, arith,
}
use coldtrace.Writer.Defs.{Writer, Io, header_size, lz4_max_input_size, release_buffers, fail}

abbrev pub count : Bool → ℕ
count b = if b then 1 else 0

-- A writer with a buffer is initialised and has not failed, and its fragment has a header.
pub record IsOpen (impl : Writer) : Type 0 where
  pub initd : impl.initd ≡ true
  pub failed : impl.failed ≡ false
  pub sized : header_size ≤ impl.size
  pub stamped : header_size ≤ impl.offset
  pub fits : impl.mmapped ≡ true → impl.size ≤ lz4_max_input_size

-- The blocks that the writer holds are those that its pointers show: nothing leaks, nothing is
-- released twice. Compressed fragments have both buffers, or neither.
pub record IsValid (io : Io) : Type 0 where
  pub maps : io.held.maps ≡ count (is_some io.impl.buffer && io.impl.mmapped)
  pub pools : io.held.pools ≡ count (is_some io.impl.buffer && not io.impl.mmapped)
  pub blocks : io.held.blocks ≡ count (is_some io.impl.comp_buf)
  pub paired : is_some io.impl.comp_buf ≡ (is_some io.impl.buffer && io.impl.mmapped)
  pub opened : is_some io.impl.buffer ≡ true → IsOpen io.impl

-- A writer with no block, after `fail_` or `coldtrace_writer_fini`.
pub record IsReleased (io : Io) : Type 0 where
  pub maps : io.held.maps ≡ 0
  pub pools : io.held.pools ≡ 0
  pub blocks : io.held.blocks ≡ 0
  pub buffer : io.impl.buffer ≡ none
  pub comp_buf : io.impl.comp_buf ≡ none

-- The counts alone, which also hold while the buffers are being obtained.
pub record IsCounted (io : Io) : Type 0 where
  pub maps : io.held.maps ≡ count (is_some io.impl.buffer && io.impl.mmapped)
  pub pools : io.held.pools ≡ count (is_some io.impl.buffer && not io.impl.mmapped)
  pub blocks : io.held.blocks ≡ count (is_some io.impl.comp_buf)

pub IsValid-IsCounted : {io : Io} → IsValid io → IsCounted io
IsValid-IsCounted v = record { maps = v.maps; pools = v.pools; blocks = v.blocks }

pub release_buffers-IsReleased : (io : Io) → IsCounted io → IsReleased (release_buffers io)
unfolding release_buffers
release_buffers-IsReleased io v = ground arith

pub fail-IsReleased :
    (io : Io) → IsCounted io → IsReleased (fail io) × ((fail io).impl.failed ≡ true)
unfolding fail
fail-IsReleased io v = ground arith

IsReleased-IsValid : (io : Io) → IsReleased io → IsValid io
IsReleased-IsValid io r = ground arith

pub fail-IsValid : (io : Io) → IsCounted io → IsValid (fail io)
fail-IsValid io v = IsReleased-IsValid (fail io) (fail-IsReleased io v).0

-- `fail_` touches nothing but the blocks and the flag.
pub fail-keeps :
    (io : Io)
    → ((fail io).world ≡ io.world)
      × ((fail io).impl.tid ≡ io.impl.tid)
      × ((fail io).impl.size ≡ io.impl.size)
      × ((fail io).impl.initd ≡ io.impl.initd)
unfolding fail release_buffers
fail-keeps io = ground arith

pub fail-off : (io : Io) → ((fail io).impl.failed ≡ true) × (is_some (fail io).impl.buffer ≡ false)
unfolding fail release_buffers
fail-off io = ground arith

pub fail-offset : (io : Io) → (fail io).impl.offset ≡ io.impl.offset
unfolding fail release_buffers
fail-offset io = ground arith
