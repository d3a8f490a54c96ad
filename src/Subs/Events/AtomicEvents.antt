-- ===== src/Subs/Events/AtomicEvents.antt =====
-- The atomic accesses and fences of src/subs_tsan.c as events. A handler before an access may wait.
use coldtrace.Prelude.{
  sym, ◌∙◌, is_some, ℕ, ◌≡◌, refl, Bool, true, false, Option, none, some, List, [], ◌∷◌,
  if◌then◌else◌, if_split, ltb, arith,
}
use coldtrace.Entry.Kind
use coldtrace.Entry.Kind.{is_type_valid, with_stack}
use coldtrace.Entry.Layout.{is_atomic_access, fixed_size}
use coldtrace.Sys.{Sys}
use coldtrace.Thread.Defs.{Self, thread_append}
use coldtrace.Thread.Read.{Seen}
use coldtrace.Thread.Bounded.{IsBounded, Keeps, Keeps-trans}
use coldtrace.Thread.Append.{Appended}
use coldtrace.Thread.Run.{thread_append-Appended}
use coldtrace.Subs.Counters.{next_atomic_idx, with_world}
use coldtrace.Subs.Fill.{append_and, and_fill, fill_atomic_access, set_field}
use coldtrace.Subs.Areas.{AreaMap, get_area, fetch_stack_acq}
use coldtrace.Subs.Atomics.{
  Traced, acquired, before_atomic, log_access, log_rw, log_write_behind, rel_log_r, rel_log_w,
  rel_log_rw, rel_log_rw_cond, rel_log_fence, before_aread, before_awrite, before_rmw, before_xchg,
  before_cmpxchg, before_fence, after_aread, after_awrite, after_rmw, after_xchg, after_cmpxchg,
  after_fence,
}
use coldtrace.Subs.Filling.{IsFill-index}
use coldtrace.Subs.Filled.{IsFill, is_field, with_world-IsSound}
use coldtrace.Subs.Layouts.{layout-IsFill}
use coldtrace.Subs.Run.{and_fill-IsSound, and_fill-IsBounded, and_fill-Keeps}
use coldtrace.Thread.Gone.{thread_append-Settled}
use coldtrace.Subs.Course.{Act, Course, act, act_all, IsOn, lost-IsOn, to_record, world-IsOn}
use coldtrace.Subs.Follows.{Follows, is_filled_as, world-Follows, append-Follows, three_parts}

pub data AtomicEvent : Type 0 where
  aread_began : (addr : ℕ) → AtomicEvent
  aread_ended : (addr size : ℕ) → AtomicEvent
  awrite_began : (addr : ℕ) → AtomicEvent
  awrite_ended : (addr size : ℕ) → AtomicEvent
  rmw_began : (addr : ℕ) → AtomicEvent
  rmw_ended : (addr size : ℕ) → AtomicEvent
  xchg_began : (addr : ℕ) → AtomicEvent
  xchg_ended : (addr size : ℕ) → AtomicEvent
  cmpxchg_began : (addr : ℕ) → AtomicEvent
  cmpxchg_ended : (addr size : ℕ) → (ok : Bool) → AtomicEvent
  fence_began : (pc : ℕ) → AtomicEvent
  fence_ended : (pc : ℕ) → AtomicEvent

-- The handler of an event; `none` while it waits for the lock of the area
abbrev pub handle_atomic : Sys → AtomicEvent → Traced → Option Traced
handle_atomic sys (aread_began addr) t = before_aread addr t
handle_atomic sys (aread_ended addr size) t = some (after_aread sys addr size t)
handle_atomic sys (awrite_began addr) t = before_awrite addr t
handle_atomic sys (awrite_ended addr size) t = some (after_awrite sys addr size t)
handle_atomic sys (rmw_began addr) t = before_rmw addr t
handle_atomic sys (rmw_ended addr size) t = some (after_rmw sys addr size t)
handle_atomic sys (xchg_began addr) t = before_xchg addr t
handle_atomic sys (xchg_ended addr size) t = some (after_xchg sys addr size t)
handle_atomic sys (cmpxchg_began addr) t = before_cmpxchg addr t
handle_atomic sys (cmpxchg_ended addr size ok) t = some (after_cmpxchg sys addr size ok t)
handle_atomic sys (fence_began pc) t = before_fence pc t
handle_atomic sys (fence_ended pc) t = some (after_fence sys pc t)

-- A read and then a write of an address
abbrev pub read_and_write : ℕ → List Act
read_and_write addr = to_record Kind.atomic_read addr ∷ to_record Kind.atomic_write addr ∷ []

-- What it is to do
abbrev pub atomic_acts : AtomicEvent → List Act
atomic_acts (aread_began _) = []
atomic_acts (aread_ended addr _) = to_record Kind.atomic_read addr ∷ []
atomic_acts (awrite_began _) = []
atomic_acts (awrite_ended addr _) = to_record Kind.atomic_write addr ∷ []
atomic_acts (rmw_began _) = []
atomic_acts (rmw_ended addr _) = read_and_write addr
atomic_acts (xchg_began _) = []
atomic_acts (xchg_ended addr _) = read_and_write addr
atomic_acts (cmpxchg_began _) = []
atomic_acts (cmpxchg_ended addr size ok) =
    if ok then read_and_write addr else to_record Kind.atomic_read addr ∷ []
atomic_acts (fence_began _) = []
atomic_acts (fence_ended pc) = to_record Kind.fence pc ∷ []

-- A handler that does not wait
abbrev pub Leads : Sys → List Act → Self → Option Traced → Type 0
Leads sys acts s none = Unit
Leads sys acts s (some x) = Follows sys acts s x.1

before_atomic-Leads :
    (sys : Sys) (addr : ℕ) (areas : AreaMap) (s : Self)
    → Leads sys [] s (before_atomic addr (areas, s))
unfolding before_atomic fetch_stack_acq next_atomic_idx
before_atomic-Leads sys addr areas s =
    if_split (λ o. Leads sys [] s (acquired s o)) (areas (get_area addr)).held (λ _. tt)
      (λ _. world-Follows _ refl refl)

filled_access :
    (type size index : ℕ)
    → is_filled_as is_atomic_access type ≡ true
    → IsFill type (fill_atomic_access size index)
filled_access type size index h =
    let (small, valid, layout) = three_parts (ltb type 256) (is_type_valid type) _ h in
    (layout-IsFill type (ground arith) valid).3 layout size index

-- The entry behind the first, which is only tried if there was room for that one
write_behind :
    (sys : Sys) {v : Course} (s : Self) (addr size idx_a idx_b : ℕ) (x : Option ℕ × Self)
    → IsOn (act (to_record Kind.atomic_read addr) v) (and_fill (fill_atomic_access size idx_a) x)
    → (x.0 ≡ none → x.1.thread.failed ≡ false → is_some x.1.io.impl.buffer ≡ false)
    → IsOn (act_all (read_and_write addr) v) (log_write_behind sys addr size idx_a idx_b x)
unfolding log_access is_type_valid
write_behind sys s addr size idx_a idx_b (none, t) k gone = lost-IsOn _ (gone refl) k
write_behind sys s addr size idx_a idx_b (some e, t) k gone =
    (append-Follows Kind.atomic_write addr (fill_atomic_access size idx_b) (omega arith) refl
        (filled_access Kind.atomic_write size idx_b refl)).goes
      k

write_behind-Keeps :
    (sys : Sys) (s : Self) {log : List Seen} (addr size idx_a idx_b : ℕ) (x : Option ℕ × Self)
    → IsBounded s
    → Appended s Kind.atomic_read addr log x
    → Keeps s (log_write_behind sys addr size idx_a idx_b x)
unfolding log_access append_and is_type_valid
write_behind-Keeps sys s addr size idx_a idx_b (none, t) b a =
    and_fill-Keeps (filled_access Kind.atomic_read size idx_a refl) (none, t) a
write_behind-Keeps sys s addr size idx_a idx_b (some e, t) b a =
    let fill = filled_access Kind.atomic_read size idx_a refl in
    let sound = and_fill-IsSound fill (some e, t) a in
    let bounded = and_fill-IsBounded fill (some e, t) a b in
    Keeps-trans (and_fill-Keeps fill (some e, t) a) (
      and_fill-Keeps (filled_access Kind.atomic_write size idx_b refl) _ (
        thread_append-Appended sys sound Kind.atomic_write addr (omega arith) bounded.trace_size
          bounded.offset))

module _ {sys : Sys} {s : Self} where
  log_access-Follows :
      (type addr size index : ℕ)
      → is_filled_as is_atomic_access type ≡ true
      → Follows sys (to_record type addr ∷ []) s (log_access sys type addr size index s)
  unfolding log_access
  log_access-Follows type addr size index h =
      let (small, valid, _) = three_parts (ltb type 256) (is_type_valid type) _ h in
      append-Follows type addr (fill_atomic_access size index) (ground arith) valid
        (filled_access type size index h)

  log_rw-Follows :
      (addr size idx_a idx_b : ℕ)
      → Follows sys (read_and_write addr) s (log_rw sys addr size idx_a idx_b s)
  unfolding log_rw append_and is_type_valid
  log_rw-Follows addr size idx_a idx_b = record {
    goes = λ k.
        let settled =
          thread_append-Settled sys Kind.atomic_read addr k.sound.initd k.sound.valid
            (omega arith) in
        write_behind sys s addr size idx_a idx_b (thread_append sys Kind.atomic_read addr s)
          ((append-Follows Kind.atomic_read addr (fill_atomic_access size idx_a) (omega arith) refl
              (filled_access Kind.atomic_read size idx_a refl)).goes
            k)
          (λ e f. settled.gone e (sym settled.failed ∙ f) refl);
    keeps = λ h b.
        write_behind-Keeps sys s addr size idx_a idx_b (thread_append sys Kind.atomic_read addr s) b
          (thread_append-Appended sys h Kind.atomic_read addr (omega arith) b.trace_size b.offset);
  }

counted-Follows :
    {sys : Sys} {s t : Self} {acts : List Act}
    → Follows sys acts (with_world s (next_atomic_idx s.io.world).1) t
    → Follows sys acts s t
unfolding next_atomic_idx
counted-Follows f = record {
  goes = λ k. f.goes (world-IsOn _ k.bounded.trace_size k);
  keeps = λ h b.
      let k =
        f.keeps (with_world-IsSound _ h)
          (record { trace_size = b.trace_size; offset = b.offset }) in
      record { tid = k.tid; config = k.config; files = k.files };
}

cmpxchg-Follows :
    {sys : Sys} {s : Self} (areas : AreaMap) (addr size : ℕ) (ok : Bool)
    → Follows sys
        (if ok then read_and_write addr else to_record Kind.atomic_read addr ∷ [])
        s
        (rel_log_rw_cond sys addr size ok (areas, s)).1
unfolding rel_log_rw_cond is_type_valid
cmpxchg-Follows areas addr size true = counted-Follows (log_rw-Follows addr size _ _)
cmpxchg-Follows areas addr size false = log_access-Follows Kind.atomic_read addr size _ refl

-- A handler that does not wait does what it is to do.
pub handle_atomic-Leads :
    (sys : Sys) (e : AtomicEvent) (areas : AreaMap) (s : Self)
    → Leads sys (atomic_acts e) s (handle_atomic sys e (areas, s))
unfolding rel_log_r rel_log_w rel_log_rw rel_log_fence is_type_valid is_field fixed_size with_stack
handle_atomic-Leads sys (aread_began addr) areas s = before_atomic-Leads sys addr areas s
handle_atomic-Leads sys (aread_ended addr size) areas s =
    log_access-Follows Kind.atomic_read addr size _ refl
handle_atomic-Leads sys (awrite_began addr) areas s = before_atomic-Leads sys addr areas s
handle_atomic-Leads sys (awrite_ended addr size) areas s =
    log_access-Follows Kind.atomic_write addr size _ refl
handle_atomic-Leads sys (rmw_began addr) areas s = before_atomic-Leads sys addr areas s
handle_atomic-Leads sys (rmw_ended addr size) areas s =
    counted-Follows (log_rw-Follows addr size _ _)
handle_atomic-Leads sys (xchg_began addr) areas s = before_atomic-Leads sys addr areas s
handle_atomic-Leads sys (xchg_ended addr size) areas s =
    counted-Follows (log_rw-Follows addr size _ _)
handle_atomic-Leads sys (cmpxchg_began addr) areas s = before_atomic-Leads sys addr areas s
handle_atomic-Leads sys (cmpxchg_ended addr size ok) areas s = cmpxchg-Follows areas addr size ok
handle_atomic-Leads sys (fence_began pc) areas s = before_atomic-Leads sys pc areas s
handle_atomic-Leads sys (fence_ended pc) areas s =
    append-Follows Kind.fence pc (λ e. set_field e 1 (areas (get_area pc)).idx_a) (omega arith) refl
      (IsFill-index refl _)
