-- ===== src/Writer/Flush.antt =====
-- Flushing and moving to the next fragment keep a writer valid: `flush_` and `new_trace_` of
-- src/writer.c.
use coldtrace.Prelude.{
  ℕ, ◌≤◌, ◌≡◌, max, refl, ◌∙◌, Bool, true, false, Option, none, some, List, [], is_some, if_split,
  arith,
}
use mathlib.Core.Path.{subst}
use coldtrace.Sys.{Sys, World, tick}
use coldtrace.Writer.Defs.{
  Io, header_size, validate_trace_size, fail, flush_written, flush_file, flush_compressed, flush,
  begin_fragment,
}
use coldtrace.Writer.Ops.{advance_fragment, new_trace}
use coldtrace.Writer.Frame.{
  Touches, Touches-refl, Touches-trans, Touches-tick, Touches-put_file, write_all-Touches,
}
use coldtrace.Writer.Invariant.{
  IsValid, IsCounted, IsValid-IsCounted, fail-IsValid, fail-keeps, fail-offset,
}

-- What flush leaves: the same buffer and position, or nothing at all.
pub data Flushed (io : Io) : Io → Type 0 where
  kept : (w : World) → Touches io.impl.tid io.world w → Flushed io (record io { world = w })
  lost : (w : World) → Touches io.impl.tid io.world w → Flushed io (fail (record io { world = w }))

flush_written-Flushed :
    (io : Io) (r : Bool × World)
    → Touches io.impl.tid io.world r.1
    → Flushed io (flush_written io r)
flush_written-Flushed io (true, w) t = kept w t
flush_written-Flushed io (false, w) t =
    lost _ (Touches-trans t (Touches-put_file w io.impl.enumerator none))

flush_file-Flushed : (sys : Sys) (io : Io) (bytes : List ℕ) → Flushed io (flush_file sys io bytes)
unfolding flush_file
flush_file-Flushed sys io bytes =
    let ticks = Touches-tick io.world in
    let opens =
      Touches-trans ticks (Touches-put_file (tick io.world) io.impl.enumerator (some [])) in
    let writes = write_all-Touches sys io.impl.tid io.impl.enumerator bytes _ in
    if_split (Flushed io) (sys.open_ok io.world.ticks)
      (λ _. flush_written-Flushed io _ (Touches-trans opens writes)) (λ _. lost _ ticks)

flush_compressed-Flushed :
    (sys : Sys) (io : Io) (comp : Option (List ℕ)) → Flushed io (flush_compressed sys io comp)
unfolding flush_compressed
flush_compressed-Flushed sys io none = lost io.world (Touches-refl io.world)
flush_compressed-Flushed sys io (some comp) = flush_file-Flushed sys io _

pub flush-Flushed : (sys : Sys) (io : Io) → Flushed io (flush sys io)
unfolding flush
flush-Flushed sys io =
    if_split (Flushed io) io.impl.mmapped (λ _. flush_compressed-Flushed sys io _)
      (λ _. kept io.world (Touches-refl io.world))

with_world-IsCounted : {io : Io} (w : World) → IsCounted io → IsCounted (record io { world = w })
with_world-IsCounted w c = record { maps = c.maps; pools = c.pools; blocks = c.blocks }

pub Flushed-IsValid : {io io' : Io} → Flushed io io' → IsValid io → IsValid io'
Flushed-IsValid (kept w t) v = record {
  maps = v.maps;
  pools = v.pools;
  blocks = v.blocks;
  paired = v.paired;
  opened = v.opened;
}
Flushed-IsValid (lost w t) v = fail-IsValid _ (with_world-IsCounted w (IsValid-IsCounted v))

-- After the flush the next fragment is set up, in the same block or in a larger one.
pub begin_advance-IsValid :
    (sys : Sys) (io : Io)
    → IsValid io
    → is_some io.impl.buffer ≡ true
    → IsValid (begin_fragment sys (advance_fragment sys io))
      × (is_some (begin_fragment sys (advance_fragment sys io)).impl.buffer ≡ true)
unfolding begin_fragment advance_fragment validate_trace_size
begin_advance-IsValid sys io v e = ground arith

-- `begin_fragment_` after `advance_fragment_`: at the header, with nothing shared touched.
begin_advance-keeps :
    (sys : Sys) (io : Io)
    → let io' = begin_fragment sys (advance_fragment sys io) in
      (io'.impl.tid ≡ io.impl.tid)
      × (io'.impl.offset ≡ header_size)
      × (io.impl.mmapped ≡ true → io'.impl.size ≡ io.impl.size)
unfolding begin_fragment advance_fragment
begin_advance-keeps sys io = ground arith

begin_advance-Touches :
    (sys : Sys) (io : Io)
    → Touches io.impl.tid io.world (begin_fragment sys (advance_fragment sys io)).world
unfolding begin_fragment advance_fragment
begin_advance-Touches sys io = record {
  config = ground arith;
  next_alloc_index = ground arith;
  next_atomic_index = ground arith;
  crashed = λ h. ground arith;
  others = λ t e h. ground arith;
}

pub Touches-tid : {s t : ℕ} {w w' : World} → s ≡ t → Touches s w w' → Touches t w w'
Touches-tid {w} {w'} e touches = subst (λ k. Touches k w w') e touches

-- What `new_trace_` leaves: a valid writer at the start of a fragment, or one without a buffer.
pub record Renewed (io io' : Io) : Type 0 where
  pub valid : IsValid io'
  pub tid : io'.impl.tid ≡ io.impl.tid
  pub shared : Touches io.impl.tid io.world io'.world
  pub offset : is_some io'.impl.buffer ≡ true → io'.impl.offset ≡ header_size
  pub near : io'.impl.offset ≤ max io.impl.offset header_size

Flushed-tid : {io io' : Io} → Flushed io io' → io'.impl.tid ≡ io.impl.tid
Flushed-tid (kept w t) = refl
Flushed-tid (lost w t) = (fail-keeps _).1

Flushed-Touches : {io io' : Io} → Flushed io io' → Touches io.impl.tid io.world io'.world
Flushed-Touches (kept w t) = t
Flushed-Touches {io} (lost w t) = rw (fail-keeps (record io { world = w })).0 t

Flushed-offset : {io io' : Io} → Flushed io io' → io'.impl.offset ≡ io.impl.offset
Flushed-offset (kept w t) = refl
Flushed-offset (lost w t) = fail-offset _

pub new_trace-Renewed : (sys : Sys) (io : Io) → IsValid io → Renewed io (new_trace sys io)
unfolding new_trace
new_trace-Renewed sys io v =
    let f = flush-Flushed sys io in
    let flushed = Flushed-IsValid f v in
    let same = Flushed-tid f in
    if_split (Renewed io) (is_some (flush sys io).impl.buffer)
      (λ b.
        let (tid, offset, _) = begin_advance-keeps sys (flush sys io) in
        let moves = begin_advance-Touches sys (flush sys io) in
        record {
          valid = (begin_advance-IsValid sys (flush sys io) flushed b).0;
          tid = tid ∙ same;
          shared = Touches-trans (Flushed-Touches f) (Touches-tid same moves);
          offset = λ _. offset;
          near = omega (arith, offset);
        })
      (λ b. record {
        valid = flushed;
        tid = same;
        shared = Flushed-Touches f;
        offset = λ e. cc;
        near = omega (arith, Flushed-offset f);
      })
