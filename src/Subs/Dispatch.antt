-- ===== src/Subs/Dispatch.antt =====
-- A traced thread under the events that Dice publishes for it: any sequence of calls of the handlers of
-- src/subs_*.c, with the state that all threads share changing in between.
use coldtrace.Prelude.{
  refl, false, ℕ, ◌^◌, ◌<◌, ◌≡◌, sym, ap, true, Option, none, some, List, [], ◌∷◌, ◌++◌, is_some,
  some_injective, no_bool,
}
use mathlib.Core.Path.{subst}
use coldtrace.Sys.{Sys, World}
use coldtrace.Writer.Defs.{words}
use coldtrace.Thread.Defs.{Self}
use coldtrace.Thread.Read.{Seen, Laid, Walk, Laid-Walk}
use coldtrace.Thread.Sound.{IsSound, calls}
use coldtrace.Thread.Bounded.{IsBounded, Keeps}
use coldtrace.Subs.Counters.{with_world}
use coldtrace.Subs.Areas.{AreaMap}
use coldtrace.Subs.Atomics.{Traced}
use coldtrace.Subs.Run.{Agrees, none_left}
use coldtrace.Subs.Course.{Act, Course, act_all, act_all-append, IsOn, world-IsOn}
use coldtrace.Subs.Follows.{Follows}
use coldtrace.Subs.Events.MemoryEvents.{
  MemoryEvent, handle_memory, memory_acts, handle_memory-Follows,
}
use coldtrace.Subs.Events.SyncEvents.{SyncEvent, handle_sync, sync_acts, handle_sync-Follows}
use coldtrace.Subs.Events.PthreadEvents.{
  PthreadEvent, handle_pthread, pthread_acts, handle_pthread-Follows,
}
use coldtrace.Subs.Events.AtomicEvents.{
  AtomicEvent, handle_atomic, atomic_acts, Leads, handle_atomic-Leads,
}

-- The events of a thread between its start and its end
pub data Event : Type 0 where
  memory : MemoryEvent → Event
  sync : SyncEvent → Event
  pthread : PthreadEvent → Event
  atomic : AtomicEvent → Event

-- The handler of an event; `none` while it waits for an area
abbrev pub handle : Sys → Event → Traced → Option Traced
handle sys (memory e) (areas, s) = some (areas, handle_memory sys e s)
handle sys (sync e) (areas, s) = some (areas, handle_sync sys e s)
handle sys (pthread e) (areas, s) = some (areas, handle_pthread sys e s)
handle sys (atomic e) t = handle_atomic sys e t

-- What it is to do
abbrev pub acts : Event → List Act
acts (memory e) = memory_acts e
acts (sync e) = sync_acts e
acts (pthread e) = pthread_acts e
acts (atomic e) = atomic_acts e

-- The same of a sequence of events, of which the last stands first
abbrev pub prescribed : List Event → List Act
prescribed [] = []
prescribed (e ∷ es) = prescribed es ++ acts e

-- The thread handles events, the last one first, with a call stack whose capacity can be doubled; other
-- threads lock and release areas and change the shared state.
pub data Handles (sys : Sys) (s : Traced) : List Event → Traced → Type 0 where
  idle : Handles sys s [] s
  next :
      {es : List Event} {t : Traced}
      → Handles sys s es t
      → (e : Event) (u : Traced) → t.1.thread.stack_capacity < 2 ^ 31
      → handle sys e t ≡ some u
      → Handles sys s (e ∷ es) u
  meanwhile :
      {es : List Event} {t : Traced}
      → Handles sys s es t
      → (areas : AreaMap) (w : World) → w.config.trace_size < 2 ^ 62
      → Handles sys s es (areas, with_world t.1 w)

Leads-Follows :
    (sys : Sys) (es : List Act) (s : Self) (o : Option Traced) (u : Traced)
    → Leads sys es s o
    → o ≡ some u
    → Follows sys es s u.1
Leads-Follows sys es s none u l e = absurd (no_bool (ap is_some e))
Leads-Follows sys es s (some x) u l e =
    subst (λ (y : Traced). Follows sys es s y.1) (some_injective e) l

pub handle-Follows :
    (sys : Sys) (e : Event) (t u : Traced)
    → t.1.thread.stack_capacity < 2 ^ 31
    → handle sys e t ≡ some u
    → Follows sys (acts e) t.1 u.1
handle-Follows sys (memory e) (areas, s) u small h =
    Leads-Follows sys (memory_acts e) s (some (areas, handle_memory sys e s)) u
      (handle_memory-Follows e small) h
handle-Follows sys (sync e) (areas, s) u small h =
    Leads-Follows sys (sync_acts e) s (some (areas, handle_sync sys e s)) u
      (handle_sync-Follows e small) h
handle-Follows sys (pthread e) (areas, s) u small h =
    Leads-Follows sys (pthread_acts e) s (some (areas, handle_pthread sys e s)) u
      (handle_pthread-Follows e small) h
handle-Follows sys (atomic e) (areas, s) u small h =
    Leads-Follows sys (atomic_acts e) s (handle_atomic sys e (areas, s)) u
      (handle_atomic-Leads sys e areas s) h

-- A sequence of events keeps a thread on its course.
pub Handles-IsOn :
    {sys : Sys} {s t : Traced} {es : List Event} {v : Course}
    → IsOn v s.1
    → Handles sys s es t
    → IsOn (act_all (prescribed es) v) t.1
Handles-IsOn k idle = k
Handles-IsOn {sys} {v = v} k (next {es = es} {t = t} hs e u small h) =
    subst (λ c. IsOn c u.1) (sym (act_all-append (prescribed es) (acts e) v))
      ((handle-Follows sys e t u small h).goes (Handles-IsOn k hs))
Handles-IsOn k (meanwhile hs areas w small) = world-IsOn w small (Handles-IsOn k hs)

-- What the buffer of a thread shows a reader: the last entries of a course, in order and with none left
-- out and the very last one there, each with its type, its pointer and, where it has a stack, the functions
-- of its moment.
pub record Shown (v : Course) (t : Self) : Type 0 where
  pub reader : List ℕ
  pub log : List Seen
  pub laid : Laid (words t.io.impl.buffer) t.io.impl.offset reader log
  pub walk : Walk (words t.io.impl.buffer) t.io.impl.offset log
  pub agrees : Agrees log v.history
  pub begun : log ≡ [] → v.history ≡ []
  pub inside : calls t ≡ v.inside

pub IsOn-Shown :
    {v : Course} {t : Self}
    → IsOn v t
    → is_some t.io.impl.buffer ≡ true
    → t.thread.failed ≡ false
    → Shown v t
IsOn-Shown k there fine =
    let laid = k.sound.laid there in
    let (inside, agrees) = k.known fine in
    record {
      reader = k.reader;
      log = k.log;
      laid = laid;
      walk = Laid-Walk laid;
      agrees = agrees;
      begun = k.begun fine there;
      inside = inside;
    }

-- Whatever events a sound thread without entries handles, in whatever order, and whatever the other
-- threads do in between, as long as its call stack can grow: the thread is inside the functions that the
-- events enter and do not leave, and its buffer, if it has one, holds entries that a reader finds one by
-- one from the header on. They are the last ones of all the entries that the table `acts` prescribes for
-- the events, in order, with none left out and the very last one there, each with its type and pointer, and with the functions
-- of its moment where it has a stack. The sizes are such that no sum wraps.
pub Handles-Shown :
    {sys : Sys} {s t : Traced} {r : List ℕ} {es : List Event}
    → IsSound s.1 r []
    → IsBounded s.1
    → Handles sys s es t
    → is_some t.1.io.impl.buffer ≡ true
    → t.1.thread.failed ≡ false
    → Shown (act_all (prescribed es) (record { inside = calls s.1; history = [] })) t.1
Handles-Shown {s = s} {r = r} sound bounded hs there fine =
    let start : IsOn (record { inside = calls s.1; history = [] }) s.1 = record {
      reader = r;
      log = [];
      sound = sound;
      bounded = bounded;
      known = λ f. (refl, none_left);
      begun = λ f b e. refl;
    } in
    IsOn-Shown (Handles-IsOn start hs) there fine

-- A handler of an event between the start and the end of a thread changes no file of another thread and no setting, and the thread keeps its id.
-- The thread is sound, and its sizes are such that no sum wraps.
pub handle-Keeps :
    (sys : Sys) (t u : Traced) {r : List ℕ} {log : List Seen} (e : Event)
    → IsSound t.1 r log
    → IsBounded t.1
    → t.1.thread.stack_capacity < 2 ^ 31
    → handle sys e t ≡ some u
    → Keeps t.1 u.1
handle-Keeps sys t u e sound bounded small h =
    (handle-Follows sys e t u small h).keeps sound bounded
