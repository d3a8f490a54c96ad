-- ===== src/Subs/Atomics.antt =====
-- The atomic accesses of src/subs_tsan.c: the events behind an access release its area and log it.
use coldtrace.Prelude.{ℕ, Bool, Option, none, some, if◌then◌else◌}
use coldtrace.Entry.Kind
use coldtrace.Sys.{Sys, World}
use coldtrace.Thread.Defs.{Self}
use coldtrace.Subs.Counters.{next_atomic_idx, with_world}
use coldtrace.Subs.Fill.{append_and, fill_atomic_access, set_field}
use coldtrace.Subs.Areas.{AreaMap, get_area, fetch_stack_acq, release_area}
use coldtrace.Thread.Defs.{thread_append}

-- The areas beside the thread that handles the event.
abbrev pub Traced : Type 0
Traced = AreaMap × Self

-- What a handler before an access leaves; `none` while it waits for the lock
abbrev pub acquired : Self → Option (AreaMap × World) → Option Traced
acquired s none = none
acquired s (some (areas, w)) = some (areas, with_world s w)

unfoldable pub before_atomic : (addr : ℕ) → Traced → Option Traced
unfolding fetch_stack_acq
before_atomic addr (areas, s) = acquired s (fetch_stack_acq addr (areas, s.io.world))

-- An atomic entry with an index that was taken before
unfoldable pub log_access : Sys → (type addr size index : ℕ) → Self → Self
log_access sys type addr size index s = append_and sys type addr (fill_atomic_access size index) s

-- `REL_LOG_R`
unfoldable pub rel_log_r : Sys → (addr size : ℕ) → Traced → Traced
rel_log_r sys addr size (areas, s) = (
  release_area addr areas,
  log_access sys Kind.atomic_read addr size (areas (get_area addr)).idx_a s,
)

-- `REL_LOG_W`
unfoldable pub rel_log_w : Sys → (addr size : ℕ) → Traced → Traced
rel_log_w sys addr size (areas, s) = (
  release_area addr areas,
  log_access sys Kind.atomic_write addr size (areas (get_area addr)).idx_a s,
)

-- The two entries of `REL_LOG_RW`: without room for the first, the macro returns before the second.
abbrev pub log_write_behind : Sys → (addr size idx_a idx_b : ℕ) → Option ℕ × Self → Self
log_write_behind sys addr size idx_a idx_b (none, s) = s
log_write_behind sys addr size idx_a idx_b (some e, s) =
    log_access sys Kind.atomic_write addr size idx_b (fill_atomic_access size idx_a e s)

unfoldable pub log_rw : Sys → (addr size idx_a idx_b : ℕ) → Self → Self
log_rw sys addr size idx_a idx_b s =
    log_write_behind sys addr size idx_a idx_b (thread_append sys Kind.atomic_read addr s)

-- `REL_LOG_RW`
unfoldable pub rel_log_rw : Sys → (addr size : ℕ) → Traced → Traced
rel_log_rw sys addr size (areas, s) =
    let (idx_b, w) = next_atomic_idx s.io.world in
    (
      release_area addr areas,
      log_rw sys addr size (areas (get_area addr)).idx_a idx_b (with_world s w),
    )

-- `REL_LOG_RW_COND`. Without success there is no second index.
unfoldable pub rel_log_rw_cond : Sys → (addr size : ℕ) → (ok : Bool) → Traced → Traced
rel_log_rw_cond sys addr size ok (areas, s) =
    let idx_a = (areas (get_area addr)).idx_a in
    let (idx_b, w) = next_atomic_idx s.io.world in
    if ok
    then (release_area addr areas, log_rw sys addr size idx_a idx_b (with_world s w))
    else (release_area addr areas, log_access sys Kind.atomic_read addr size idx_a s)

-- `REL_LOG_FENCE`
unfoldable pub rel_log_fence : Sys → (pc : ℕ) → Traced → Traced
rel_log_fence sys pc (areas, s) = (
  release_area pc areas,
  append_and sys Kind.fence pc (λ e. set_field e 1 (areas (get_area pc)).idx_a) s,
)

-- `EVENT_MA_AREAD`, before and after
abbrev pub before_aread : (addr : ℕ) → Traced → Option Traced
before_aread addr t = before_atomic addr t

abbrev pub after_aread : Sys → (addr size : ℕ) → Traced → Traced
after_aread sys addr size t = rel_log_r sys addr size t

-- `EVENT_MA_AWRITE`, before and after
abbrev pub before_awrite : (addr : ℕ) → Traced → Option Traced
before_awrite addr t = before_atomic addr t

abbrev pub after_awrite : Sys → (addr size : ℕ) → Traced → Traced
after_awrite sys addr size t = rel_log_w sys addr size t

-- `EVENT_MA_RMW`, before and after
abbrev pub before_rmw : (addr : ℕ) → Traced → Option Traced
before_rmw addr t = before_atomic addr t

abbrev pub after_rmw : Sys → (addr size : ℕ) → Traced → Traced
after_rmw sys addr size t = rel_log_rw sys addr size t

-- `EVENT_MA_XCHG`, before and after
abbrev pub before_xchg : (addr : ℕ) → Traced → Option Traced
before_xchg addr t = before_atomic addr t

abbrev pub after_xchg : Sys → (addr size : ℕ) → Traced → Traced
after_xchg sys addr size t = rel_log_rw sys addr size t

-- `EVENT_MA_CMPXCHG`, before and after
abbrev pub before_cmpxchg : (addr : ℕ) → Traced → Option Traced
before_cmpxchg addr t = before_atomic addr t

abbrev pub after_cmpxchg : Sys → (addr size : ℕ) → (ok : Bool) → Traced → Traced
after_cmpxchg sys addr size ok t = rel_log_rw_cond sys addr size ok t

-- `EVENT_MA_FENCE`, before and after, with its pc as the address
abbrev pub before_fence : (pc : ℕ) → Traced → Option Traced
before_fence pc t = before_atomic pc t

abbrev pub after_fence : Sys → (pc : ℕ) → Traced → Traced
after_fence sys pc t = rel_log_fence sys pc t
