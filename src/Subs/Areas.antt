-- ===== src/Subs/Areas.antt =====
-- The areas of src/subs_tsan.c: a lock and an index for each of 128 classes of addresses, shared by all threads. An
-- atomic access holds the lock of its area from the event before it to the event behind it.
use coldtrace.Prelude.{ℕ, ◌/◌, ◌%◌, ◌^◌, Bool, true, false, Option, none, some, ◌==◌, if◌then◌else◌}
use coldtrace.Sys.{World}
use coldtrace.Subs.Counters.{next_atomic_idx}

-- `area_t`
pub record Area : Type 0 where
  pub held : Bool
  pub idx_a : ℕ

-- `areas_`
abbrev pub AreaMap : Type 0
AreaMap = ℕ → Area

-- `AREA_SHIFT`, `AREAS`
abbrev pub area_shift : ℕ
area_shift = 6

abbrev pub area_count : ℕ
area_count = 128

-- `get_area`, as the index into `areas_`
abbrev pub get_area : ℕ → ℕ
get_area addr = addr / 2 ^ area_shift % area_count

abbrev pub set_area : AreaMap → ℕ → Area → AreaMap
set_area areas i area j = if j == i then area else areas j

-- `FETCH_STACK_ACQ`; `none` while `caslock_acquire` waits for the lock
unfoldable pub fetch_stack_acq : ℕ → AreaMap × World → Option (AreaMap × World)
unfolding next_atomic_idx
fetch_stack_acq addr (areas, w) =
    let (index, w') = next_atomic_idx w in
    let taken : Area = record { held = true; idx_a = index } in
    if (areas (get_area addr)).held then none else some (set_area areas (get_area addr) taken, w')

-- `caslock_release`
abbrev pub release_area : ℕ → AreaMap → AreaMap
release_area addr areas =
    set_area areas (get_area addr) (record (areas (get_area addr)) { held = false })
