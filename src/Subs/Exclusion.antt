-- ===== src/Subs/Exclusion.antt =====
-- The areas of src/subs_tsan.c under interleaved accesses of any number of threads: which index the
-- event behind an access finds.
use mathlib.Core.Path.{subst}
use coldtrace.Subs.Counters.{next_atomic_idx}
use coldtrace.Prelude.{
  ℕ, ◌≡◌, refl, sym, ap, Bool, true, false, Option, none, some, ◌==◌, if◌then◌else◌, arith,
}
use coldtrace.Entry.Kind
use coldtrace.Sys.{Sys, World}
use coldtrace.Thread.Defs.{Self}
use coldtrace.Subs.Fill.{append_and, set_field}
use coldtrace.Subs.Areas.{Area, AreaMap, get_area, set_area, fetch_stack_acq, release_area}
use coldtrace.Subs.Atomics.{
  after_aread, after_awrite, after_cmpxchg, after_fence, rel_log_r, rel_log_w, rel_log_rw_cond,
  rel_log_fence, log_access,
}

-- For each area, the thread whose access is under way and the index that it took.
abbrev pub Owners : Type 0
Owners = ℕ → Option (ℕ × ℕ)

abbrev pub set_owner : Owners → ℕ → Option (ℕ × ℕ) → Owners
set_owner owners i o j = if j == i then o else owners j

pub record Scene : Type 0 where
  pub areas : AreaMap
  pub world : World
  pub owners : Owners

-- One step of some thread: the event before an access gets the lock of its area, the event behind an
-- access that is under way releases it, or something else happens to the shared state.
pub data Step (s : Scene) : Scene → Type 0 where
  before :
      (tid addr : ℕ) (areas : AreaMap) (w : World)
      → fetch_stack_acq addr (s.areas, s.world) ≡ some (areas, w)
      → Step s (record {
        areas = areas;
        world = w;
        owners = set_owner s.owners (get_area addr) (some (tid, s.world.next_atomic_index));
      })
  after :
      (tid addr index : ℕ)
      → s.owners (get_area addr) ≡ some (tid, index)
      → Step s (record s {
        areas = release_area addr s.areas;
        owners = set_owner s.owners (get_area addr) none;
      })
  other : (w : World) → Step s (record s { world = w })

pub data Interleaves (s : Scene) : Scene → Type 0 where
  here : Interleaves s s
  next : {t u : Scene} → Interleaves s t → Step t u → Interleaves s u

-- An area is locked exactly while an access is under way, and then holds the index of that access.
abbrev pub Fits : Area → Option (ℕ × ℕ) → Type 0
Fits area owner =
    (owner ≡ none → area.held ≡ false)
    × ((tid index : ℕ) → owner ≡ some (tid, index) → (area.held ≡ true) × (area.idx_a ≡ index))

abbrev pub IsOwned : Scene → Type 0
IsOwned s = (i : ℕ) → Fits (s.areas i) (s.owners i)

set-Fits :
    (b : Bool) {x y : Area} {o p : Option (ℕ × ℕ)}
    → Fits x o
    → Fits y p
    → Fits (if b then x else y) (if b then o else p)
set-Fits true f g = f
set-Fits false f g = g

taken : (b : Bool) (x y : AreaMap × World) → (if b then none else some x) ≡ some y → y.0 ≡ x.0
taken true x y h = absurd (ground arith)
taken false x y h =
    sym (ap (λ (o : Option (AreaMap × World)). elim o [ none ↦ y.0 | some z ↦ z.0 ]) h)

fetch_lem :
    (addr : ℕ) (areas areas' : AreaMap) (w w' : World)
    → fetch_stack_acq addr (areas, w) ≡ some (areas', w')
    → areas' ≡ set_area areas (get_area addr) (record { held = true; idx_a = w.next_atomic_index })
unfolding fetch_stack_acq next_atomic_idx
fetch_lem addr areas areas' w w' h = taken (areas (get_area addr)).held _ (areas', w') h

Step-IsOwned : {s t : Scene} → Step s t → IsOwned s → IsOwned t
Step-IsOwned {s} (before tid addr areas w h) o i =
    let area : Area = record { held = true; idx_a = s.world.next_atomic_index } in
    let owner : Option (ℕ × ℕ) = some (tid, s.world.next_atomic_index) in
    subst (λ (a : AreaMap). Fits (a i) (set_owner s.owners (get_area addr) owner i))
      (sym (fetch_lem addr s.areas areas s.world w h))
      (set-Fits (i == get_area addr) {x = area} ((λ e. cc), λ tid' index' e. ground arith) (o i))
Step-IsOwned {s} (after tid addr index h) o i =
    let area : Area = record (s.areas (get_area addr)) { held = false } in
    set-Fits (i == get_area addr) {x = area} ((λ _. refl), λ tid' index' e. cc) (o i)
Step-IsOwned (other w) o i = o i

Interleaves-IsOwned : {s t : Scene} → Interleaves s t → IsOwned s → IsOwned t
Interleaves-IsOwned here o = o
Interleaves-IsOwned (next run step) o = Step-IsOwned step (Interleaves-IsOwned run o)

-- However the accesses of all threads interleave, while an access is under way no other access of the
-- same area begins. When it ends, it finds in the area the index that it took when it began, and logs
-- it: a read, a write, a failed compare and exchange or a fence. The area is then free again.
pub after-index :
    (sys : Sys) {s t : Scene}
    → IsOwned s
    → Interleaves s t
    → (tid addr index : ℕ) → t.owners (get_area addr) ≡ some (tid, index)
    → (size : ℕ) (self : Self)
    → let areas = release_area addr t.areas in
      ((w : World) → fetch_stack_acq addr (t.areas, w) ≡ none)
      × (after_aread sys addr size (t.areas, self)
          ≡ (areas, log_access sys Kind.atomic_read addr size index self))
      × (after_awrite sys addr size (t.areas, self)
          ≡ (areas, log_access sys Kind.atomic_write addr size index self))
      × (after_cmpxchg sys addr size false (t.areas, self)
          ≡ (areas, log_access sys Kind.atomic_read addr size index self))
      × (after_fence sys addr (t.areas, self)
          ≡ (areas, append_and sys Kind.fence addr (λ e. set_field e 1 index) self))
      × ((areas (get_area addr)).held ≡ false)
unfolding fetch_stack_acq rel_log_r rel_log_w rel_log_rw_cond rel_log_fence
after-index sys {s} {t} o run tid addr index h size self =
    let (held, found) = (Interleaves-IsOwned run o (get_area addr)).1 tid index h in
    (λ w. rw held refl, rw found refl, rw found refl, rw found refl, rw found refl, ground arith)
