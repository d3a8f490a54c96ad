-- ===== src/Writer/Opening.antt =====
-- The two ways in which `ensure_buffer_` of src/writer.c obtains a buffer.
use coldtrace.Prelude.{
  ℕ, ◌+◌, ◌≤◌, ◌≡◌, max, refl, ap, ◌∙◌, Bool, true, false, is_some, if_split, arith,
}
use coldtrace.Sys.{Sys, World, tick}
use coldtrace.Writer.Defs.{Io, header_size, frag_hdr_size, lz4_max_input_size, fail, begin_fragment}
use coldtrace.Writer.Ops.{
  opened_fragment, open_compressed, open_disabled, open_enabled, take_map, take_comp_buf, ticked,
}
use coldtrace.Writer.Frame.{Touches, Touches-trans, Touches-tick, first_fragment-Touches}
use coldtrace.Writer.Invariant.{
  IsValid, IsReleased, IsCounted, fail-IsValid, fail-IsReleased, fail-keeps, fail-offset,
}

-- Before a buffer is opened: no block is held, and the trace size has been accepted.
pub record IsFresh (io : Io) : Type 0 where
  pub released : IsReleased io
  pub initd : io.impl.initd ≡ true
  pub failed : io.impl.failed ≡ false
  pub sized : header_size ≤ io.impl.size

-- What the opening of a buffer promises: validity, a buffer exactly if it says so, and a fragment
-- that holds its header and nothing else.
pub record Opens (io : Io) (r : Bool × Io) : Type 0 where
  pub valid : IsValid r.1
  pub buffer : is_some r.1.impl.buffer ≡ r.0
  pub tid : r.1.impl.tid ≡ io.impl.tid
  pub shared : Touches io.impl.tid io.world r.1.world
  pub size : r.1.impl.size ≡ io.impl.size
  pub offset : r.0 ≡ true → r.1.impl.offset ≡ header_size
  pub near : r.1.impl.offset ≤ max io.impl.offset header_size

pub open_disabled-Opens : (sys : Sys) (io : Io) → IsFresh io → Opens io (open_disabled sys io)
unfolding open_disabled begin_fragment
open_disabled-Opens sys io f =
    if_split (Opens io) (sys.mempool_ok io.world.ticks)
      (λ _. record {
        valid = ground arith;
        buffer = refl;
        tid = refl;
        shared = Touches-tick io.world;
        size = refl;
        offset = λ _. refl;
        near = omega arith;
      })
      (λ _. record {
        valid = ground arith;
        buffer = ap is_some f.released.buffer;
        tid = refl;
        shared = Touches-tick io.world;
        size = refl;
        offset = λ e. cc;
        near = omega arith;
      })

-- Both blocks are in hand, and the header is not yet stamped.
record IsReady (io : Io) : Type 0 where
  counted : IsCounted io
  buffer : is_some io.impl.buffer ≡ true
  comp_buf : is_some io.impl.comp_buf ≡ true
  mmapped : io.impl.mmapped ≡ true
  initd : io.impl.initd ≡ true
  failed : io.impl.failed ≡ false
  sized : header_size ≤ io.impl.size
  fits : io.impl.size ≤ lz4_max_input_size

-- A failure after some block was obtained.
fail-Opens :
    (io0 io : Io)
    → IsCounted io
    → io.impl.tid ≡ io0.impl.tid
    → io.impl.size ≡ io0.impl.size
    → io.impl.offset ≡ io0.impl.offset
    → Touches io0.impl.tid io0.world io.world
    → Opens io0 (false, fail io)
fail-Opens io0 io c t z o shared = record {
  valid = fail-IsValid io c;
  buffer = ap is_some (fail-IsReleased io c).0.buffer;
  tid = (fail-keeps io).1 ∙ t;
  shared = rw (fail-keeps io).0 shared;
  size = (fail-keeps io).2 ∙ z;
  offset = λ e. cc;
  near = omega (arith, fail-offset io);
}

opened_fragment-Opens :
    (sys : Sys) (io0 io : Io) (r : Bool × (ℕ × World))
    → IsReady io
    → io.impl.tid ≡ io0.impl.tid
    → io.impl.size ≡ io0.impl.size
    → io.impl.offset ≡ io0.impl.offset
    → Touches io0.impl.tid io0.world r.1.1
    → Opens io0 (opened_fragment sys io r)
unfolding begin_fragment
opened_fragment-Opens sys io0 io (true, (e, w)) v t z o shared = record {
  valid = ground arith;
  buffer = refl;
  tid = t;
  shared = shared;
  size = z;
  offset = λ _. refl;
  near = omega arith;
}
opened_fragment-Opens sys io0 io (false, (e, w)) v t z o shared =
    let moved : IsCounted (record io { impl = record (io.impl) { enumerator = e }; world = w }) =
      ground arith in
    fail-Opens io0 _ moved t z o shared

-- `ensure_buffer_` with the mapping, and then with both blocks in hand.
abbrev with_map : Io → Io
with_map io = ticked (take_map (λ _. 0) (ticked io))

abbrev with_blocks : Sys → Io → Io
with_blocks sys io = take_comp_buf (frag_hdr_size + sys.compress_bound io.impl.size) (with_map io)

with_blocks-IsReady :
    (sys : Sys) (io : Io)
    → IsFresh io
    → io.impl.size ≤ lz4_max_input_size
    → IsReady (with_blocks sys io)
with_blocks-IsReady sys io f small = ground arith

with_map-IsCounted : (io : Io) → IsFresh io → IsCounted (with_map io)
with_map-IsCounted io f = ground arith

pub open_enabled-Opens :
    (sys : Sys) (io : Io)
    → IsFresh io
    → io.impl.size ≤ lz4_max_input_size
    → Opens io (open_enabled sys io)
unfolding open_enabled open_compressed
open_enabled-Opens sys io f small =
    let ticks : Touches io.impl.tid io.world (with_map io).world =
      Touches-trans (Touches-tick io.world) (Touches-tick (tick io.world)) in
    if_split (Opens io) (sys.mmap_ok io.world.ticks)
      (λ _.
        if_split (Opens io) (sys.malloc_ok (io.world.ticks + 1))
          (λ _.
            opened_fragment-Opens sys io (with_blocks sys io) _ (with_blocks-IsReady sys io f small)
              refl refl refl
              (Touches-trans ticks (first_fragment-Touches sys io.impl.tid _ (with_map io).world)))
          (λ _. fail-Opens io (with_map io) (with_map-IsCounted io f) refl refl refl ticks))
      (λ _. record {
        valid = ground arith;
        buffer = refl;
        tid = refl;
        shared = Touches-tick io.world;
        size = refl;
        offset = λ e. cc;
        near = omega arith;
      })
