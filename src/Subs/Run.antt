-- ===== src/Subs/Run.antt =====
-- A thread of the traced program as the subscribers see it, from its first event on: what a reader
-- finds in its buffer.
use coldtrace.Prelude.{
  ℕ, ◌%◌, ◌^◌, ◌<◌, ◌≡◌, refl, sym, ap, ◌∙◌, inl, inr, true, Option, none, some, List, [], ◌∷◌,
  is_some, if◌then◌else◌,
}
use mathlib.Core.Path.{subst}
use coldtrace.Entry.Kind.{with_stack}
use coldtrace.Sys.{Sys, World}
use coldtrace.Writer.Defs.{words}
use coldtrace.Thread.Defs.{Self, stack_push, stack_pop, set_create_idx, thread_append}
use coldtrace.Thread.Read.{Seen, Laid, Walk, Laid-Walk}
use coldtrace.Thread.Sound.{IsSound, calls}
use coldtrace.Thread.Append.{Appended}
use coldtrace.Thread.Run.{thread_append-Appended}
use coldtrace.Subs.Counters.{with_world}
use coldtrace.Subs.Fill.{append_and, and_fill}
use coldtrace.Subs.Filled.{IsFill, with_world-IsSound}
use coldtrace.Thread.Bounded.{
  IsBounded, Keeps, stack_push-IsBounded, stack_pop-IsBounded, set_create_idx-IsSound,
  set_create_idx-IsBounded,
}
use coldtrace.Thread.Stack.{stack_push-Pushed, stack_pop-calls}

-- The entries that the calls of a run have recorded, last first, each with the call stack of its
-- moment; an append that gave no address has recorded nothing.
abbrev pub noted : Option ℕ → Seen → List Seen → List Seen
noted o x history = if is_some o then x ∷ history else history

-- The runs of one thread, with a call stack whose capacity can be doubled: functions are entered and
-- left, subscribers append entries and fill them, the index of a created thread is kept, and the state
-- that all threads share changes in any way, but for a trace size at which sums would wrap.
pub data Reaches (sys : Sys) (s : Self) : List Seen → Self → Type 0 where
  here : Reaches sys s [] s
  enter :
      {h : List Seen} {t : Self}
      → Reaches sys s h t
      → (caller : ℕ) → t.thread.stack_capacity < 2 ^ 31
      → Reaches sys s h (stack_push sys caller t)
  exit : {h : List Seen} {t : Self} → Reaches sys s h t → Reaches sys s h (stack_pop t)
  event :
      {h : List Seen} {t : Self}
      → Reaches sys s h t
      → (type ptr : ℕ) → type < 256
      → (fill : ℕ → Self → Self) → IsFill type fill
      → Reaches sys s
          (noted
            (thread_append sys type ptr t).0
            (record { type = type; ptr = ptr % 2 ^ 48; stack = calls t })
            h)
          (append_and sys type ptr fill t)
  other :
      {h : List Seen} {t : Self}
      → Reaches sys s h t
      → (w : World) → w.config.trace_size < 2 ^ 62
      → Reaches sys s h (with_world t w)
  create :
      {h : List Seen} {t : Self}
      → Reaches sys s h t
      → (index : ℕ) → Reaches sys s h (set_create_idx index t)

-- Entries of a fragment against the last ones of a history: the same types and pointers in the same
-- order, and for an entry with a stack the same stack.
pub data Agrees : List Seen → List Seen → Type 0 where
  none_left : {h : List Seen} → Agrees [] h
  one_more :
      {x y : Seen} {log h : List Seen}
      → x.type ≡ y.type
      → x.ptr ≡ y.ptr
      → (with_stack x.type ≡ true → x.stack ≡ y.stack)
      → Agrees log h
      → Agrees (x ∷ log) (y ∷ h)

-- A thread is sound with a log that agrees with the history.
pub record Kept (h : List Seen) (t : Self) : Type 0 where
  pub reader : List ℕ
  pub log : List Seen
  pub sound : IsSound t reader log
  pub bounded : IsBounded t
  pub agrees : Agrees log h

pub append-Agrees :
    {s : Self} {type ptr : ℕ} {log h : List Seen} (x : Option ℕ × Self)
    → (a : Appended s type ptr log x) → Agrees log h
    → Agrees a.entries (noted x.0 (record { type = type; ptr = ptr % 2 ^ 48; stack = calls s }) h)
append-Agrees {s} {type} {ptr} {log} {h} (none, t) a old =
    subst (λ l. Agrees l h) (sym (a.unrecorded refl)) old
append-Agrees {s} {type} {ptr} {log} {h} (some e, t) a old =
    let y : Seen = record { type = type; ptr = ptr % 2 ^ 48; stack = calls s } in
    elim (a.recorded refl) [
      | inl behind ↦
          subst (λ l. Agrees l (y ∷ h)) (sym behind) (one_more refl refl (a.shown refl) old)
      | inr alone ↦
          subst (λ l. Agrees l (y ∷ h)) (sym alone) (one_more refl refl (a.shown refl) none_left)
    ]

pub and_fill-IsSound :
    {s : Self} {type ptr : ℕ} {log : List Seen} {fill : ℕ → Self → Self}
    → IsFill type fill
    → (x : Option ℕ × Self) → (a : Appended s type ptr log x)
    → IsSound (and_fill fill x) a.reader a.entries
and_fill-IsSound kept (none, t) a = a.sound
and_fill-IsSound kept (some e, t) a =
    (kept.holds (record { sound = a.sound; there = a.there refl; last = a.last e refl })).sound

pub and_fill-IsBounded :
    {s : Self} {type ptr : ℕ} {log : List Seen} {fill : ℕ → Self → Self}
    → IsFill type fill
    → (x : Option ℕ × Self) → Appended s type ptr log x
    → IsBounded s
    → IsBounded (and_fill fill x)
and_fill-IsBounded kept (none, t) a b = record {
  trace_size = rw a.shared.config b.trace_size;
  offset = a.bounded;
}
and_fill-IsBounded kept (some e, t) a b = record {
  trace_size = rw (kept.config e t a.sound.initd, a.shared.config) b.trace_size;
  offset = rw (kept.offset e t a.sound.initd) a.bounded;
}

pub and_fill-Keeps :
    {s : Self} {type ptr : ℕ} {log : List Seen} {fill : ℕ → Self → Self}
    → IsFill type fill
    → (x : Option ℕ × Self) → Appended s type ptr log x
    → Keeps s (and_fill fill x)
and_fill-Keeps kept (none, t) a = record {
  tid = a.tid;
  config = a.shared.config;
  files = a.shared.others;
}
and_fill-Keeps kept (some e, t) a =
    let i = a.sound.initd in
    record {
      tid = kept.tid e t i ∙ a.tid;
      config = kept.config e t i ∙ a.shared.config;
      files = λ k f h. ap (λ files. files k f) (kept.files e t i) ∙ a.shared.others k f h;
    }

pub Reaches-Kept :
    {sys : Sys} {s t : Self} {h : List Seen} {r : List ℕ}
    → IsSound s r []
    → IsBounded s
    → Reaches sys s h t
    → Kept h t
unfolding append_and
Reaches-Kept {r = r} sound bounded here = record {
  reader = r;
  log = [];
  sound = sound;
  bounded = bounded;
  agrees = none_left;
}
Reaches-Kept {sys} sound bounded (enter run caller small) =
    let k = Reaches-Kept sound bounded run in
    record {
      reader = k.reader;
      log = k.log;
      sound = (stack_push-Pushed sys caller k.sound small).sound;
      bounded = stack_push-IsBounded sys caller k.sound.initd k.bounded;
      agrees = k.agrees;
    }
Reaches-Kept sound bounded (exit run) =
    let k = Reaches-Kept sound bounded run in
    record {
      reader = k.reader;
      log = k.log;
      sound = (stack_pop-calls k.sound).0;
      bounded = stack_pop-IsBounded k.sound.initd k.bounded;
      agrees = k.agrees;
    }
Reaches-Kept {sys} sound bounded (event run type ptr small fill kept) =
    let k = Reaches-Kept sound bounded run in
    let a =
      thread_append-Appended sys k.sound type ptr small k.bounded.trace_size k.bounded.offset in
    record {
      reader = a.reader;
      log = a.entries;
      sound = and_fill-IsSound kept _ a;
      bounded = and_fill-IsBounded kept _ a k.bounded;
      agrees = append-Agrees _ a k.agrees;
    }
Reaches-Kept sound bounded (other run w small) =
    let k = Reaches-Kept sound bounded run in
    record {
      reader = k.reader;
      log = k.log;
      sound = with_world-IsSound w k.sound;
      bounded = record { trace_size = small; offset = k.bounded.offset };
      agrees = k.agrees;
    }
Reaches-Kept sound bounded (create run index) =
    let k = Reaches-Kept sound bounded run in
    record {
      reader = k.reader;
      log = k.log;
      sound = (set_create_idx-IsSound index k.sound).0;
      bounded = set_create_idx-IsBounded index k.sound.initd k.bounded;
      agrees = k.agrees;
    }

-- In every state that a sound thread without entries, at sizes that do not wrap, reaches by entering and leaving functions, by
-- appending entries and filling their fields, and while other threads change the shared state in any
-- way, the buffer, if there is one, holds entries up to the current offset: they are laid out so that
-- a reader gets each type, pointer and call stack, and `coldtrace_entry_get_size` walks them from the
-- header on. They are the last entries that the run recorded, in order.
pub Reaches-Laid :
    {sys : Sys} {s t : Self} {h : List Seen} {r : List ℕ}
    → IsSound s r []
    → IsBounded s
    → Reaches sys s h t
    → is_some t.io.impl.buffer ≡ true
    → (reader : List ℕ) × (log : List Seen) × Laid
        (words t.io.impl.buffer)
        t.io.impl.offset
        reader
        log
      × Walk (words t.io.impl.buffer) t.io.impl.offset log
      × Agrees log h
Reaches-Laid sound bounded run there =
    let k = Reaches-Kept sound bounded run in
    let laid = k.sound.laid there in (k.reader, k.log, laid, Laid-Walk laid, k.agrees)
