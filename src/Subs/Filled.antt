-- ===== src/Subs/Filled.antt =====
-- The subscribers fill an entry in place: no field that they write disturbs the fragment.
use coldtrace.Prelude.{
  ℕ, ◌+◌, ◌/◌, ◌%◌, ◌^◌, ◌≤◌, ◌<◌, ◌≡◌, refl, Bool, true, List, is_some, arith, ltb, leb, ◌&&◌,
  if◌then◌else◌,
}
use coldtrace.Entry.Kind.{with_stack}
use coldtrace.Entry.Layout.{word_size}
use coldtrace.Entry.Sizes.{diff_word}
use coldtrace.Sys.{World}
use coldtrace.Writer.Defs.{Io, words}
use coldtrace.Writer.Invariant.{IsValid}
use coldtrace.Thread.Defs.{Self}
use coldtrace.Thread.Read.{Seen}
use coldtrace.Thread.Sound.{IsSound, calls}
use coldtrace.Thread.Last.{Last, Last-Laid, Last-store, IsField}
use coldtrace.Thread.Append.{poke-IsValid}
use coldtrace.Subs.Counters.{with_world}
use coldtrace.Subs.Fill.{set_field}

-- A sound thread whose last entry stands at `e`.
pub record Holds (s : Self) (e type ptr : ℕ) (r : List ℕ) (log : List Seen) : Type 0 where
  pub sound : IsSound s r log
  pub there : is_some s.io.impl.buffer ≡ true
  pub last : Last (words s.io.impl.buffer) e type ptr s.io.impl.offset r log

-- What fills an entry of this type keeps the thread sound and that entry the last one.
pub record IsFill (type : ℕ) (fill : ℕ → Self → Self) : Type 0 where
  pub holds :
      {s : Self} {e ptr : ℕ} {r : List ℕ} {log : List Seen}
      → Holds s e type ptr r log
      → Holds (fill e s) e type ptr r log
  pub config :
      (e : ℕ) (s : Self) → s.thread.initd ≡ true → (fill e s).io.world.config ≡ s.io.world.config
  pub files :
      (e : ℕ) (s : Self) → s.thread.initd ≡ true → (fill e s).io.world.files ≡ s.io.world.files
  pub tid : (e : ℕ) (s : Self) → s.thread.initd ≡ true → (fill e s).io.impl.tid ≡ s.io.impl.tid
  pub same_calls : (e : ℕ) (s : Self) → s.thread.initd ≡ true → calls (fill e s) ≡ calls s
  pub failed :
      (e : ℕ) (s : Self) → s.thread.initd ≡ true → (fill e s).thread.failed ≡ s.thread.failed
  pub offset :
      (e : ℕ) (s : Self) → s.thread.initd ≡ true → (fill e s).io.impl.offset ≡ s.io.impl.offset

with_world-IsValid : {io : Io} (w : World) → IsValid io → IsValid (record io { world = w })
with_world-IsValid w v = record {
  maps = v.maps;
  pools = v.pools;
  blocks = v.blocks;
  paired = v.paired;
  opened = v.opened;
}

-- Other threads, and the counters, change the shared state and nothing of the thread's own.
pub with_world-IsSound :
    {s : Self} {r : List ℕ} {log : List Seen} (w : World)
    → IsSound s r log
    → IsSound (with_world s w) r log
with_world-IsSound w h = record {
  initd = h.initd;
  valid = with_world-IsValid w h.valid;
  bottom = h.bottom;
  room = h.room;
  small = h.small;
  laid = h.laid;
  agreed = h.agreed;
  closed = h.closed;
}

pub with_world-Holds :
    {s : Self} {e type ptr : ℕ} {r : List ℕ} {log : List Seen} (w : World)
    → Holds s e type ptr r log
    → Holds (with_world s w) e type ptr r log
with_world-Holds w h = record {
  sound = with_world-IsSound w h.sound;
  there = h.there;
  last = h.last;
}

pub set_field-Holds :
    {s : Self} {e type ptr : ℕ} {r : List ℕ} {log : List Seen} (i v : ℕ)
    → IsField type i
    → Holds s e type ptr r log
    → Holds (set_field e i v s) e type ptr r log
set_field-Holds {s} {e} i v field h =
    let last = Last-store i (v % 2 ^ 64) field h.last in
    record {
      sound = record {
        initd = h.sound.initd;
        valid = poke-IsValid s.io (e / word_size + i) (v % 2 ^ 64) h.sound.valid h.there;
        bottom = h.sound.bottom;
        room = h.sound.room;
        small = h.sound.small;
        laid = λ _. Last-Laid last;
        agreed = λ _. h.sound.agreed h.there;
        closed = λ c. cc;
      };
      there = refl;
      last = last;
    }

-- The same, as a test on the layout of the type.
unfoldable pub is_field : (type i : ℕ) → Bool
is_field type i =
    leb i (diff_word type) && (if with_stack type then ltb i (diff_word type) else true)

pub is_field-IsField : (type i j : ℕ) → is_field type j ≡ true → 0 < i → i ≤ j → IsField type i
unfolding is_field
is_field-IsField type i j h pos le = ground arith
