-- ===== src/Subs/Events/SyncEvents.antt =====
-- The events of src/subs_sem.c, src/subs_cxa.c and src/subs_annotate_rwlock.c
use coldtrace.Prelude.{
  ℕ, ◌^◌, ◌<◌, ◌≡◌, refl, Bool, true, List, [], ◌∷◌, ◌==◌, if◌then◌else◌, if_split,
}
use coldtrace.Entry.Kind
use coldtrace.Entry.Kind.{is_type_valid}
use coldtrace.Entry.Layout.{is_atomic}
use coldtrace.Sys.{Sys}
use coldtrace.Thread.Defs.{Self}
use coldtrace.Subs.Sync.{
  after_sem_wait, after_sem_trywait, after_sem_timedwait, before_sem_post, after_cxa_guard_acquire,
  before_cxa_guard_release, before_cxa_guard_abort, on_rw_lock_create, on_rw_lock_destroy,
  on_rw_lock_acq, on_rw_lock_rel,
}
use coldtrace.Subs.Course.{Act, to_record}
use coldtrace.Subs.Follows.{Follows, is_filled_as, append_atomic-Follows, append_atomic_if-Follows}

pub data SyncEvent : Type 0 where
  sem_wait_ended : (sem ret : ℕ) → SyncEvent
  sem_trywait_ended : (sem ret : ℕ) → SyncEvent
  sem_timedwait_ended : (sem ret : ℕ) → SyncEvent
  sem_post_began : (sem : ℕ) → SyncEvent
  cxa_guard_acquire_ended : (addr : ℕ) → SyncEvent
  cxa_guard_release_began : (addr : ℕ) → SyncEvent
  cxa_guard_abort_began : (addr : ℕ) → SyncEvent
  rw_lock_create_seen : (lock : ℕ) → SyncEvent
  rw_lock_destroy_seen : (lock : ℕ) → SyncEvent
  rw_lock_acq_seen : (lock : ℕ) → (is_w : Bool) → SyncEvent
  rw_lock_rel_seen : (lock : ℕ) → (is_w : Bool) → SyncEvent

-- The handler of an event
abbrev pub handle_sync : Sys → SyncEvent → Self → Self
handle_sync sys (sem_wait_ended sem ret) s = after_sem_wait sys sem ret s
handle_sync sys (sem_trywait_ended sem ret) s = after_sem_trywait sys sem ret s
handle_sync sys (sem_timedwait_ended sem ret) s = after_sem_timedwait sys sem ret s
handle_sync sys (sem_post_began sem) s = before_sem_post sys sem s
handle_sync sys (cxa_guard_acquire_ended addr) s = after_cxa_guard_acquire sys addr s
handle_sync sys (cxa_guard_release_began addr) s = before_cxa_guard_release sys addr s
handle_sync sys (cxa_guard_abort_began addr) s = before_cxa_guard_abort sys addr s
handle_sync sys (rw_lock_create_seen lock) s = on_rw_lock_create sys lock s
handle_sync sys (rw_lock_destroy_seen lock) s = on_rw_lock_destroy sys lock s
handle_sync sys (rw_lock_acq_seen lock is_w) s = on_rw_lock_acq sys lock is_w s
handle_sync sys (rw_lock_rel_seen lock is_w) s = on_rw_lock_rel sys lock is_w s

-- What it is to do
abbrev pub sync_acts : SyncEvent → List Act
sync_acts (sem_wait_ended sem ret) = if ret == 0 then to_record Kind.lock_acquire sem ∷ [] else []
sync_acts (sem_trywait_ended sem ret) =
    if ret == 0 then to_record Kind.lock_acquire sem ∷ [] else []
sync_acts (sem_timedwait_ended sem ret) =
    if ret == 0 then to_record Kind.lock_acquire sem ∷ [] else []
sync_acts (sem_post_began sem) = to_record Kind.lock_release sem ∷ []
sync_acts (cxa_guard_acquire_ended addr) = to_record Kind.cxa_guard_acquire addr ∷ []
sync_acts (cxa_guard_release_began addr) = to_record Kind.cxa_guard_release addr ∷ []
sync_acts (cxa_guard_abort_began addr) = to_record Kind.cxa_guard_release addr ∷ []
sync_acts (rw_lock_create_seen lock) = to_record Kind.rw_lock_create lock ∷ []
sync_acts (rw_lock_destroy_seen lock) = to_record Kind.rw_lock_destroy lock ∷ []
sync_acts (rw_lock_acq_seen lock is_w) =
    to_record (if is_w then Kind.rw_lock_acq_exc else Kind.rw_lock_acq_shr) lock ∷ []
sync_acts (rw_lock_rel_seen lock is_w) =
    to_record (if is_w then Kind.rw_lock_rel_exc else Kind.rw_lock_rel_shr) lock ∷ []

-- A handler does what it is to do.
pub handle_sync-Follows :
    {sys : Sys} {s : Self} (e : SyncEvent)
    → s.thread.stack_capacity < 2 ^ 31
    → Follows sys (sync_acts e) s (handle_sync sys e s)
unfolding is_type_valid after_sem_wait after_sem_trywait after_sem_timedwait before_sem_post
    after_cxa_guard_acquire before_cxa_guard_release before_cxa_guard_abort on_rw_lock_create
    on_rw_lock_destroy on_rw_lock_acq on_rw_lock_rel
handle_sync-Follows (sem_wait_ended sem ret) small =
    append_atomic_if-Follows (ret == 0) Kind.lock_acquire sem refl
handle_sync-Follows (sem_trywait_ended sem ret) small =
    append_atomic_if-Follows (ret == 0) Kind.lock_acquire sem refl
handle_sync-Follows (sem_timedwait_ended sem ret) small =
    append_atomic_if-Follows (ret == 0) Kind.lock_acquire sem refl
handle_sync-Follows (sem_post_began sem) small = append_atomic-Follows Kind.lock_release sem refl
handle_sync-Follows (cxa_guard_acquire_ended addr) small =
    append_atomic-Follows Kind.cxa_guard_acquire addr refl
handle_sync-Follows (cxa_guard_release_began addr) small =
    append_atomic-Follows Kind.cxa_guard_release addr refl
handle_sync-Follows (cxa_guard_abort_began addr) small =
    append_atomic-Follows Kind.cxa_guard_release addr refl
handle_sync-Follows (rw_lock_create_seen lock) small =
    append_atomic-Follows Kind.rw_lock_create lock refl
handle_sync-Follows (rw_lock_destroy_seen lock) small =
    append_atomic-Follows Kind.rw_lock_destroy lock refl
handle_sync-Follows (rw_lock_acq_seen lock is_w) small =
    append_atomic-Follows _ lock
      (if_split (λ k. is_filled_as is_atomic k ≡ true) is_w (λ _. refl) (λ _. refl))
handle_sync-Follows (rw_lock_rel_seen lock is_w) small =
    append_atomic-Follows _ lock
      (if_split (λ k. is_filled_as is_atomic k ≡ true) is_w (λ _. refl) (λ _. refl))
