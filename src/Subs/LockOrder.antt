-- ===== src/Subs/LockOrder.antt =====
-- The order of the entries of a mutex that src/subs_pthread.c records.
use coldtrace.Prelude.{
  ℕ, ◌+◌, ◌%◌, ◌^◌, ◌≤◌, ◌<◌, ◌≡◌, refl, ap, Bool, true, false, Option, none, some, List, ◌∷◌, sym,
  ◌∙◌, is_some, some_injective, no_bool, arith,
}
use mathlib.Core.Path.{subst}
use coldtrace.Entry.Kind
use coldtrace.Entry.Kind.{is_type_valid}
use coldtrace.Entry.Header.{parse_type}
use coldtrace.Entry.Layout.{parse_atomic_index, is_atomic}
use coldtrace.Sys.{Sys, World}
use coldtrace.Writer.Defs.{words}
use coldtrace.Thread.Defs.{Self, thread_append}
use coldtrace.Thread.Read.{view}
use coldtrace.Subs.Fill.{append_atomic, append_atomic_if}
use coldtrace.Subs.Index.{append_atomic-index}
use coldtrace.Subs.Pthread.{after_mutex_lock, before_mutex_unlock}
use coldtrace.Subs.Locks.{
  Note, Scene, index_of, type_of, IsIn, Step, lock, acquire, release, unlock, other, Interleaves,
  here, next, Closed, section, Open, opened, Nested, Below, no_index, dropped, indexed, typed,
  Ordered,
}

Below-le : {a b : ℕ} {notes : List Note} → a ≤ b → Below a notes → Below b notes
Below-le le no_index = no_index
Below-le le (dropped acquired tid type b) = dropped acquired tid type (Below-le le b)
Below-le le (indexed acquired tid type lt b) = indexed acquired tid type (omega arith) b

-- What a handler adds, once its append has given an address or not
add-Below :
    (acquired : Bool) (tid n : ℕ) {notes : List Note} (o : Option ℕ) (t : Self)
    → n + 1 < 2 ^ 64
    → (o ≡ none → t.io.world.next_atomic_index ≡ n)
    → ((e : ℕ)
        → o ≡ some e
        → (parse_atomic_index (view (words t.io.impl.buffer) e) ≡ n)
          × (t.io.world.next_atomic_index ≡ (n + 1) % 2 ^ 64))
    → Below n notes
    → Below t.io.world.next_atomic_index (
        record { acquired = acquired; tid = tid; type = type_of o t; index = index_of o t } ∷ notes)
add-Below acquired tid n none t small skips takes b =
    dropped acquired tid none (Below-le (omega (arith, skips refl)) b)
add-Below acquired tid n (some e) t small skips takes b =
    let (index, counted) = takes e refl in
    indexed acquired tid _ (omega (arith, index, counted)) (Below-le (omega (arith, index)) b)

append-Below :
    (sys : Sys) (mutex type : ℕ) {scene : Scene} {s : Self} (acquired : Bool) (tid : ℕ)
    → IsIn scene s
    → type < 256
    → is_type_valid type ≡ true
    → is_atomic (type % 128) ≡ true
    → Below scene.world.next_atomic_index scene.notes
    → let t = append_atomic sys type mutex s in
      Below t.io.world.next_atomic_index (
        record {
          acquired = acquired;
          tid = tid;
          type = type_of (thread_append sys type mutex s).0 t;
          index = index_of (thread_append sys type mutex s).0 t;
        }
        ∷ scene.notes)
append-Below sys mutex type {scene} {s} acquired tid h small valid layout b =
    let n = s.io.world.next_atomic_index in
    let same : n ≡ scene.world.next_atomic_index =
      ap (λ (w : World). w.next_atomic_index) h.shared in
    let (skips, takes) =
      append_atomic-index sys h.sound type mutex small valid layout h.bounded.trace_size
        h.bounded.offset (omega (arith, h.counter, same)) in
    add-Below acquired tid n (thread_append sys type mutex s).0 (append_atomic sys type mutex s)
      (omega (arith, h.counter, same)) skips (λ e there. ((takes e there).1, (takes e there).2))
      (Below-le (omega (arith, same)) b)

-- What a reader finds of the type
type_of-append :
    (o : Option ℕ) (t : Self) (type k : ℕ)
    → ((e : ℕ) → o ≡ some e → parse_type (view (words t.io.impl.buffer) e) ≡ type)
    → type_of o t ≡ some k
    → k ≡ type
type_of-append none t type k reads e = absurd (no_bool (ap is_some e))
type_of-append (some a) t type k reads e = sym (some_injective e) ∙ reads a refl

append-type :
    (sys : Sys) (mutex type : ℕ) {scene : Scene} {s : Self}
    → IsIn scene s
    → type < 256
    → is_type_valid type ≡ true
    → is_atomic (type % 128) ≡ true
    → (k : ℕ) → type_of (thread_append sys type mutex s).0 (append_atomic sys type mutex s) ≡ some k
    → k ≡ type % 128
append-type sys mutex type {scene} {s} h small valid layout k e =
    let same : s.io.world.next_atomic_index ≡ scene.world.next_atomic_index =
      ap (λ (w : World). w.next_atomic_index) h.shared in
    let (_, takes) =
      append_atomic-index sys h.sound type mutex small valid layout h.bounded.trace_size
        h.bounded.offset (omega (arith, h.counter, same)) in
    type_of-append (thread_append sys type mutex s).0 (append_atomic sys type mutex s) (type % 128)
      k (λ a there. (takes a there).0) e

close :
    {tid : ℕ} {notes : List Note} (l j : Option ℕ)
    → Open tid notes
    → Closed (record { acquired = false; tid = tid; type = l; index = j } ∷ notes)
close {tid} l j (opened k i c) = section tid k l i j c

Step-Ordered : {sys : Sys} {mutex : ℕ} {s t : Scene} → Step sys mutex s t → Ordered s → Ordered t
unfolding after_mutex_lock before_mutex_unlock append_atomic_if is_type_valid
Step-Ordered {s = s} (lock tid e) o = record {
  nested = subst (λ p. Nested p s.notes) e o.nested;
  below = o.below;
  typed = o.typed;
}
Step-Ordered {sys} {mutex} {s} (acquire tid x e h) o = record {
  nested = opened _ _ (subst (λ p. Nested p s.notes) e o.nested);
  below = append-Below sys mutex Kind.lock_acquire true tid h (omega arith) refl refl o.below;
  typed = typed _ (append-type sys mutex Kind.lock_acquire h (omega arith) refl refl) o.typed;
}
Step-Ordered {sys} {mutex} {s} (release tid x e h) o = record {
  nested = close _ _ (subst (λ p. Nested p s.notes) e o.nested);
  below = append-Below sys mutex Kind.lock_release false tid h (omega arith) refl refl o.below;
  typed = typed _ (append-type sys mutex Kind.lock_release h (omega arith) refl refl) o.typed;
}
Step-Ordered {s = s} (unlock tid e) o = record {
  nested = subst (λ p. Nested p s.notes) e o.nested;
  below = o.below;
  typed = o.typed;
}
Step-Ordered (other w le) o = record {
  nested = o.nested;
  below = Below-le le o.below;
  typed = o.typed;
}

-- However any number of threads lock and unlock a mutex, its entries form whole critical sections one
-- after the other: a release follows the acquisition of the same thread, and only the section of the
-- thread inside may be open. In these entries, as far as they were recorded, a reader finds the types of
-- acquisitions and releases, each where the section wants it, and atomic indexes that ascend in that order. The counter does not wrap, and the threads are sound.
pub Interleaves-Ordered :
    {sys : Sys} {mutex : ℕ} {s t : Scene} → Ordered s → Interleaves sys mutex s t → Ordered t
Interleaves-Ordered o here = o
Interleaves-Ordered o (next run step) = Step-Ordered step (Interleaves-Ordered o run)
