-- ===== src/Writer/Lifetime.antt =====
-- Initialisation, failure and the end of a writer of src/writer.c.
use coldtrace.Prelude.{
  ℕ, ◌≡◌, ap, no_bool, some_injective, refl, true, false, not, ◌&&◌, Option, none, some, is_some,
  if◌then◌else◌, if_split, arith,
}
use coldtrace.Sys.{Sys}
use coldtrace.Writer.Defs.{Io, release_buffers, flush}
use coldtrace.Writer.Ops.{ensure_buffer, writer_reserve, writer_init, writer_fini, uninit}
use coldtrace.Writer.Invariant.{
  IsValid, IsReleased, IsCounted, IsValid-IsCounted, release_buffers-IsReleased,
}
use coldtrace.Writer.Flush.{Flushed-IsValid, flush-Flushed}

pub writer_init-IsValid :
    (io : Io) (md : Option ℕ)
    → IsReleased io
    → IsValid (record io { impl = writer_init md io.impl })
unfolding writer_init
writer_init-IsValid io none r = ground arith
writer_init-IsValid io (some tid) r = ground arith

-- `coldtrace_writer_init` on a writer that holds no block, whatever state it was left in: the writer is
-- valid, has no buffer, and takes entries exactly if there was metadata. It then has the thread's id,
-- and stands at the first fragment with nothing of an earlier one.
pub writer_init-IsBegun :
    (io : Io) (md : Option ℕ)
    → IsReleased io
    → let impl = writer_init md io.impl in
      IsValid (record io { impl = impl })
      × (impl.buffer ≡ none)
      × ((impl.initd && not impl.failed) ≡ is_some md)
      × ((tid : ℕ)
          → md ≡ some tid
          → (impl.tid ≡ tid) × (impl.enumerator ≡ 0) × (impl.offset ≡ 0) × (impl.size ≡ 0))
unfolding writer_init
writer_init-IsBegun io none r =
    (writer_init-IsValid io none r, refl, refl, λ tid e. absurd (no_bool (ap is_some e)))
writer_init-IsBegun io (some t) r =
    (writer_init-IsValid io (some t) r, refl, refl, λ tid e. (some_injective e, refl, refl, refl))

-- `coldtrace_writer_fini` of a valid, initialised writer releases every block that it holds,
-- whatever happens to the last fragment.
pub writer_fini-IsReleased :
    (sys : Sys) (io : Io)
    → IsValid io
    → io.impl.initd ≡ true
    → IsReleased (writer_fini sys io) × ((writer_fini sys io).impl.initd ≡ false)
unfolding writer_fini
writer_fini-IsReleased sys io v i =
    let left = if is_some io.impl.buffer then flush sys io else io in
    let counted : IsCounted left =
      if_split IsCounted (is_some io.impl.buffer)
        (λ _. IsValid-IsCounted (Flushed-IsValid (flush-Flushed sys io) v))
        (λ _. IsValid-IsCounted v) in
    uninit-IsReleased left i (release_buffers-IsReleased left counted)
  where
    uninit-IsReleased :
        (left : Io)
        → io.impl.initd ≡ true
        → IsReleased (release_buffers left)
        → let last = if not io.impl.initd then io else uninit (release_buffers left) in
          IsReleased last × (last.impl.initd ≡ false)
    uninit-IsReleased left i r = ground arith

ensure_buffer-off :
    (sys : Sys) (io : Io)
    → (io.impl.initd && not io.impl.failed) ≡ false
    → ensure_buffer sys io ≡ (false, io)
unfolding ensure_buffer
ensure_buffer-off sys io h =
    if_split (λ r. r ≡ (false, io)) (not io.impl.initd) (λ _. refl)
      (λ i. if_split (λ r. r ≡ (false, io)) io.impl.failed (λ _. refl) (λ f. absurd (ground arith)))

-- A writer that has failed or is not initialised gives no address and changes nothing.
pub writer_reserve-off :
    (sys : Sys) (io : Io) (n : ℕ)
    → (io.impl.initd && not io.impl.failed) ≡ false
    → writer_reserve sys io n ≡ (none, io)
unfolding writer_reserve
writer_reserve-off sys io n h = rw (ensure_buffer-off sys io h)
