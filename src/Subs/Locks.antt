-- ===== src/Subs/Locks.antt =====
-- The subscribers of a mutex in src/subs_pthread.c against the lock itself: the entry of an acquisition
-- is written behind the call that locks, the entry of a release in front of the call that unlocks.
use coldtrace.Prelude.{
  ℕ, ◌+◌, ◌^◌, ◌≤◌, ◌<◌, ◌≡◌, Bool, true, false, Option, none, some, List, [], ◌∷◌, if◌then◌else◌,
}
use coldtrace.Entry.Kind
use coldtrace.Entry.Kind.{is_type_valid}
use coldtrace.Entry.Layout.{parse_atomic_index}
use coldtrace.Entry.Header.{parse_type}
use coldtrace.Sys.{Sys, World}
use coldtrace.Writer.Defs.{words}
use coldtrace.Thread.Defs.{Self, thread_append}
use coldtrace.Thread.Read.{Seen, view}
use coldtrace.Thread.Sound.{IsSound}
use coldtrace.Thread.Bounded.{IsBounded}
use coldtrace.Subs.Pthread.{after_mutex_lock, before_mutex_unlock}

-- What has been recorded of the mutex, by which of the two handlers: `type` and `index` are what a reader
-- finds in the entry, `none` where it was dropped.
pub record Note : Type 0 where
  pub acquired : Bool
  pub tid : ℕ
  pub type : Option ℕ
  pub index : Option ℕ

-- Where the thread that has the mutex stands: before, between or behind its two handlers
pub data Phase : Type 0 where
  unlocked : Phase
  locked inside leaving : ℕ → Phase

pub record Scene : Type 0 where
  pub phase : Phase
  pub world : World
  pub notes : List Note

-- The atomic index that a reader finds in an entry
abbrev pub index_of : Option ℕ → Self → Option ℕ
index_of none t = none
index_of (some e) t = some (parse_atomic_index (view (words t.io.impl.buffer) e))

-- The type that it finds
abbrev pub type_of : Option ℕ → Self → Option ℕ
type_of none t = none
type_of (some e) t = some (parse_type (view (words t.io.impl.buffer) e))

-- A sound thread in the world of the scene, with sizes and a counter that do not wrap
pub record IsIn (scene : Scene) (s : Self) : Type 0 where
  pub reader : List ℕ
  pub log : List Seen
  pub sound : IsSound s reader log
  pub bounded : IsBounded s
  pub shared : s.io.world ≡ scene.world
  pub counter : scene.world.next_atomic_index + 1 < 2 ^ 64

-- The scene behind the handler of an acquisition, and of a release
abbrev pub acquired_by : Sys → (mutex tid : ℕ) → Self → Scene → Scene
acquired_by sys mutex tid s scene =
    let t = after_mutex_lock sys mutex 0 s in
    let entry = (thread_append sys Kind.lock_acquire mutex s).0 in
    record {
      phase = inside tid;
      world = t.io.world;
      notes =
          record { acquired = true; tid = tid; type = type_of entry t; index = index_of entry t }
          ∷ scene.notes;
    }

abbrev pub released_by : Sys → (mutex tid : ℕ) → Self → Scene → Scene
released_by sys mutex tid s scene =
    let t = before_mutex_unlock sys mutex s in
    let entry = (thread_append sys Kind.lock_release mutex s).0 in
    record {
      phase = leaving tid;
      world = t.io.world;
      notes =
          record { acquired = false; tid = tid; type = type_of entry t; index = index_of entry t }
          ∷ scene.notes;
    }

-- One step of some thread: the mutex is locked only if it is free, and unlocked by the thread that has
-- it, behind both of its handlers. Anything else may advance the counter.
pub data Step (sys : Sys) (mutex : ℕ) (scene : Scene) : Scene → Type 0 where
  lock :
      (tid : ℕ)
      → scene.phase ≡ unlocked
      → Step sys mutex scene (record scene { phase = locked tid })
  acquire :
      (tid : ℕ) (s : Self)
      → scene.phase ≡ locked tid
      → IsIn scene s
      → Step sys mutex scene (acquired_by sys mutex tid s scene)
  release :
      (tid : ℕ) (s : Self)
      → scene.phase ≡ inside tid
      → IsIn scene s
      → Step sys mutex scene (released_by sys mutex tid s scene)
  unlock :
      (tid : ℕ)
      → scene.phase ≡ leaving tid
      → Step sys mutex scene (record scene { phase = unlocked })
  other :
      (w : World)
      → scene.world.next_atomic_index ≤ w.next_atomic_index
      → Step sys mutex scene (record scene { world = w })

pub data Interleaves (sys : Sys) (mutex : ℕ) (scene : Scene) : Scene → Type 0 where
  here : Interleaves sys mutex scene scene
  next :
      {t u : Scene}
      → Interleaves sys mutex scene t
      → Step sys mutex t u
      → Interleaves sys mutex scene u

-- Whole critical sections, the last one first
pub data Closed : List Note → Type 0 where
  no_section : Closed []
  section :
      {notes : List Note} (tid : ℕ) (k l i j : Option ℕ)
      → Closed notes
      → Closed (
          record { acquired = false; tid = tid; type = l; index = j }
          ∷ record { acquired = true; tid = tid; type = k; index = i }
          ∷ notes)

-- The same behind an open section
pub data Open (tid : ℕ) : List Note → Type 0 where
  opened :
      {notes : List Note} (k i : Option ℕ)
      → Closed notes
      → Open tid (record { acquired = true; tid = tid; type = k; index = i } ∷ notes)

-- The notes against the phase: one section may be open, and is that of the thread inside.
abbrev pub Nested : Phase → List Note → Type 0
Nested unlocked notes = Closed notes
Nested (locked tid) notes = Closed notes
Nested (inside tid) notes = Open tid notes
Nested (leaving tid) notes = Closed notes

-- The indexes, where there are any, fall from the last note to the first, and lie below a bound.
pub data Below : ℕ → List Note → Type 0 where
  no_index : {bound : ℕ} → Below bound []
  dropped :
      {bound : ℕ} {notes : List Note} (acquired : Bool) (tid : ℕ) (type : Option ℕ)
      → Below bound notes
      → Below bound (record { acquired = acquired; tid = tid; type = type; index = none } ∷ notes)
  indexed :
      {bound i : ℕ} {notes : List Note} (acquired : Bool) (tid : ℕ) (type : Option ℕ)
      → i < bound
      → Below i notes
      → Below bound (record { acquired = acquired; tid = tid; type = type; index = some i } ∷ notes)

-- The entries are of the type that the side of the section wants: an acquisition or a release.
pub data Typed : List Note → Type 0 where
  no_type : Typed []
  typed :
      {notes : List Note} (n : Note)
      → ((k : ℕ)
          → n.type ≡ some k
          → k ≡ (if n.acquired then Kind.lock_acquire else Kind.lock_release))
      → Typed notes
      → Typed (n ∷ notes)

-- The notes of a mutex are those of critical sections one after the other, with ascending indexes.
pub record Ordered (scene : Scene) : Type 0 where
  pub nested : Nested scene.phase scene.notes
  pub below : Below scene.world.next_atomic_index scene.notes
  pub typed : Typed scene.notes
