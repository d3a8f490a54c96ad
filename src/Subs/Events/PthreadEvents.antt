-- ===== src/Subs/Events/PthreadEvents.antt =====
-- The events of src/subs_pthread.c, but for the start and the end of a thread.
use coldtrace.Prelude.{ℕ, ◌^◌, ◌<◌, refl, List, [], ◌∷◌, ◌==◌, if◌then◌else◌, arith}
use coldtrace.Entry.Kind
use coldtrace.Entry.Kind.{is_type_valid}
use coldtrace.Sys.{Sys}
use coldtrace.Thread.Defs.{Self}
use coldtrace.Entry.Kind.{with_stack}
use coldtrace.Entry.Layout.{fixed_size}
use coldtrace.Subs.Filling.{IsFill-create}
use coldtrace.Subs.Filled.{is_field}
use coldtrace.Subs.Pthread.{fill_create}
use coldtrace.Subs.Pthread.{
  on_thread_exit, before_thread_create, after_thread_create, after_thread_join, before_mutex_unlock,
  after_mutex_lock, after_mutex_trylock, after_mutex_timedlock, after_mutex_clocklock,
  before_cond_wait, after_cond_wait, before_cond_timedwait, after_cond_timedwait,
  before_cond_clockwait, after_cond_clockwait, before_rwlock_unlock, after_rwlock_rdlock,
  after_rwlock_tryrdlock, after_rwlock_timedrdlock, after_rwlock_wrlock, after_rwlock_trywrlock,
  after_rwlock_timedwrlock, before_spin_unlock, after_spin_lock, after_spin_trylock,
}
use coldtrace.Subs.Course.{Act, to_record}
use coldtrace.Subs.Follows.{
  Follows, append-Follows, append_atomic-Follows, append_atomic_if-Follows, create-Follows,
}

pub data PthreadEvent : Type 0 where
  thread_exit_seen : (self : ℕ) → PthreadEvent
  thread_create_began : PthreadEvent
  thread_create_ended : (thread : ℕ) → PthreadEvent
  thread_join_ended : (thread : ℕ) → PthreadEvent
  mutex_unlock_began : (mutex : ℕ) → PthreadEvent
  mutex_lock_ended : (mutex ret : ℕ) → PthreadEvent
  mutex_trylock_ended : (mutex ret : ℕ) → PthreadEvent
  mutex_timedlock_ended : (mutex ret : ℕ) → PthreadEvent
  mutex_clocklock_ended : (mutex ret : ℕ) → PthreadEvent
  cond_wait_began : (mutex : ℕ) → PthreadEvent
  cond_wait_ended : (mutex : ℕ) → PthreadEvent
  cond_timedwait_began : (mutex : ℕ) → PthreadEvent
  cond_timedwait_ended : (mutex : ℕ) → PthreadEvent
  cond_clockwait_began : (mutex : ℕ) → PthreadEvent
  cond_clockwait_ended : (mutex : ℕ) → PthreadEvent
  rwlock_unlock_began : (lock : ℕ) → PthreadEvent
  rwlock_rdlock_ended : (lock ret : ℕ) → PthreadEvent
  rwlock_tryrdlock_ended : (lock ret : ℕ) → PthreadEvent
  rwlock_timedrdlock_ended : (lock ret : ℕ) → PthreadEvent
  rwlock_wrlock_ended : (lock ret : ℕ) → PthreadEvent
  rwlock_trywrlock_ended : (lock ret : ℕ) → PthreadEvent
  rwlock_timedwrlock_ended : (lock ret : ℕ) → PthreadEvent
  spin_unlock_began : (lock : ℕ) → PthreadEvent
  spin_lock_ended : (lock ret : ℕ) → PthreadEvent
  spin_trylock_ended : (lock ret : ℕ) → PthreadEvent

-- The handler of an event
abbrev pub handle_pthread : Sys → PthreadEvent → Self → Self
handle_pthread sys (thread_exit_seen self) s = on_thread_exit sys self s
handle_pthread sys thread_create_began s = before_thread_create s
handle_pthread sys (thread_create_ended thread) s = after_thread_create sys thread s
handle_pthread sys (thread_join_ended thread) s = after_thread_join sys thread s
handle_pthread sys (mutex_unlock_began mutex) s = before_mutex_unlock sys mutex s
handle_pthread sys (mutex_lock_ended mutex ret) s = after_mutex_lock sys mutex ret s
handle_pthread sys (mutex_trylock_ended mutex ret) s = after_mutex_trylock sys mutex ret s
handle_pthread sys (mutex_timedlock_ended mutex ret) s = after_mutex_timedlock sys mutex ret s
handle_pthread sys (mutex_clocklock_ended mutex ret) s = after_mutex_clocklock sys mutex ret s
handle_pthread sys (cond_wait_began mutex) s = before_cond_wait sys mutex s
handle_pthread sys (cond_wait_ended mutex) s = after_cond_wait sys mutex s
handle_pthread sys (cond_timedwait_began mutex) s = before_cond_timedwait sys mutex s
handle_pthread sys (cond_timedwait_ended mutex) s = after_cond_timedwait sys mutex s
handle_pthread sys (cond_clockwait_began mutex) s = before_cond_clockwait sys mutex s
handle_pthread sys (cond_clockwait_ended mutex) s = after_cond_clockwait sys mutex s
handle_pthread sys (rwlock_unlock_began lock) s = before_rwlock_unlock sys lock s
handle_pthread sys (rwlock_rdlock_ended lock ret) s = after_rwlock_rdlock sys lock ret s
handle_pthread sys (rwlock_tryrdlock_ended lock ret) s = after_rwlock_tryrdlock sys lock ret s
handle_pthread sys (rwlock_timedrdlock_ended lock ret) s = after_rwlock_timedrdlock sys lock ret s
handle_pthread sys (rwlock_wrlock_ended lock ret) s = after_rwlock_wrlock sys lock ret s
handle_pthread sys (rwlock_trywrlock_ended lock ret) s = after_rwlock_trywrlock sys lock ret s
handle_pthread sys (rwlock_timedwrlock_ended lock ret) s = after_rwlock_timedwrlock sys lock ret s
handle_pthread sys (spin_unlock_began lock) s = before_spin_unlock sys lock s
handle_pthread sys (spin_lock_ended lock ret) s = after_spin_lock sys lock ret s
handle_pthread sys (spin_trylock_ended lock ret) s = after_spin_trylock sys lock ret s

-- What it is to do
abbrev pub pthread_acts : PthreadEvent → List Act
pthread_acts (thread_exit_seen self) = to_record Kind.thread_exit self ∷ []
pthread_acts thread_create_began = []
pthread_acts (thread_create_ended thread) = to_record Kind.thread_create thread ∷ []
pthread_acts (thread_join_ended thread) = to_record Kind.thread_join thread ∷ []
pthread_acts (mutex_unlock_began mutex) = to_record Kind.lock_release mutex ∷ []
pthread_acts (mutex_lock_ended mutex ret) =
    if ret == 0 then to_record Kind.lock_acquire mutex ∷ [] else []
pthread_acts (mutex_trylock_ended mutex ret) =
    if ret == 0 then to_record Kind.lock_acquire mutex ∷ [] else []
pthread_acts (mutex_timedlock_ended mutex ret) =
    if ret == 0 then to_record Kind.lock_acquire mutex ∷ [] else []
pthread_acts (mutex_clocklock_ended mutex ret) =
    if ret == 0 then to_record Kind.lock_acquire mutex ∷ [] else []
pthread_acts (cond_wait_began mutex) = to_record Kind.lock_release mutex ∷ []
pthread_acts (cond_wait_ended mutex) = to_record Kind.lock_acquire mutex ∷ []
pthread_acts (cond_timedwait_began mutex) = to_record Kind.lock_release mutex ∷ []
pthread_acts (cond_timedwait_ended mutex) = to_record Kind.lock_acquire mutex ∷ []
pthread_acts (cond_clockwait_began mutex) = to_record Kind.lock_release mutex ∷ []
pthread_acts (cond_clockwait_ended mutex) = to_record Kind.lock_acquire mutex ∷ []
pthread_acts (rwlock_unlock_began lock) = to_record Kind.rw_lock_rel lock ∷ []
pthread_acts (rwlock_rdlock_ended lock ret) =
    if ret == 0 then to_record Kind.rw_lock_acq_shr lock ∷ [] else []
pthread_acts (rwlock_tryrdlock_ended lock ret) =
    if ret == 0 then to_record Kind.rw_lock_acq_shr lock ∷ [] else []
pthread_acts (rwlock_timedrdlock_ended lock ret) =
    if ret == 0 then to_record Kind.rw_lock_acq_shr lock ∷ [] else []
pthread_acts (rwlock_wrlock_ended lock ret) =
    if ret == 0 then to_record Kind.rw_lock_acq_exc lock ∷ [] else []
pthread_acts (rwlock_trywrlock_ended lock ret) =
    if ret == 0 then to_record Kind.rw_lock_acq_exc lock ∷ [] else []
pthread_acts (rwlock_timedwrlock_ended lock ret) =
    if ret == 0 then to_record Kind.rw_lock_acq_exc lock ∷ [] else []
pthread_acts (spin_unlock_began lock) = to_record Kind.lock_release lock ∷ []
pthread_acts (spin_lock_ended lock ret) =
    if ret == 0 then to_record Kind.lock_acquire lock ∷ [] else []
pthread_acts (spin_trylock_ended lock ret) =
    if ret == 0 then to_record Kind.lock_acquire lock ∷ [] else []

thread_create-Follows :
    {sys : Sys} {s : Self} (thread : ℕ)
    → Follows sys (to_record Kind.thread_create thread ∷ []) s (after_thread_create sys thread s)
unfolding after_thread_create is_field is_type_valid fixed_size with_stack
thread_create-Follows thread =
    append-Follows Kind.thread_create thread fill_create (omega arith) refl (IsFill-create refl)

-- A handler does what it is to do.
pub handle_pthread-Follows :
    {sys : Sys} {s : Self} (e : PthreadEvent)
    → s.thread.stack_capacity < 2 ^ 31
    → Follows sys (pthread_acts e) s (handle_pthread sys e s)
unfolding is_type_valid on_thread_exit before_thread_create after_thread_create after_thread_join
    before_mutex_unlock after_mutex_lock after_mutex_trylock after_mutex_timedlock
    after_mutex_clocklock before_cond_wait after_cond_wait before_cond_timedwait
    after_cond_timedwait before_cond_clockwait after_cond_clockwait before_rwlock_unlock
    after_rwlock_rdlock after_rwlock_tryrdlock after_rwlock_timedrdlock after_rwlock_wrlock
    after_rwlock_trywrlock after_rwlock_timedwrlock before_spin_unlock after_spin_lock
    after_spin_trylock
handle_pthread-Follows (thread_exit_seen self) small =
    append_atomic-Follows Kind.thread_exit self refl
handle_pthread-Follows thread_create_began small = create-Follows
handle_pthread-Follows (thread_create_ended thread) small = thread_create-Follows thread
handle_pthread-Follows (thread_join_ended thread) small =
    append_atomic-Follows Kind.thread_join thread refl
handle_pthread-Follows (mutex_unlock_began mutex) small =
    append_atomic-Follows Kind.lock_release mutex refl
handle_pthread-Follows (mutex_lock_ended mutex ret) small =
    append_atomic_if-Follows (ret == 0) Kind.lock_acquire mutex refl
handle_pthread-Follows (mutex_trylock_ended mutex ret) small =
    append_atomic_if-Follows (ret == 0) Kind.lock_acquire mutex refl
handle_pthread-Follows (mutex_timedlock_ended mutex ret) small =
    append_atomic_if-Follows (ret == 0) Kind.lock_acquire mutex refl
handle_pthread-Follows (mutex_clocklock_ended mutex ret) small =
    append_atomic_if-Follows (ret == 0) Kind.lock_acquire mutex refl
handle_pthread-Follows (cond_wait_began mutex) small =
    append_atomic-Follows Kind.lock_release mutex refl
handle_pthread-Follows (cond_wait_ended mutex) small =
    append_atomic-Follows Kind.lock_acquire mutex refl
handle_pthread-Follows (cond_timedwait_began mutex) small =
    append_atomic-Follows Kind.lock_release mutex refl
handle_pthread-Follows (cond_timedwait_ended mutex) small =
    append_atomic-Follows Kind.lock_acquire mutex refl
handle_pthread-Follows (cond_clockwait_began mutex) small =
    append_atomic-Follows Kind.lock_release mutex refl
handle_pthread-Follows (cond_clockwait_ended mutex) small =
    append_atomic-Follows Kind.lock_acquire mutex refl
handle_pthread-Follows (rwlock_unlock_began lock) small =
    append_atomic-Follows Kind.rw_lock_rel lock refl
handle_pthread-Follows (rwlock_rdlock_ended lock ret) small =
    append_atomic_if-Follows (ret == 0) Kind.rw_lock_acq_shr lock refl
handle_pthread-Follows (rwlock_tryrdlock_ended lock ret) small =
    append_atomic_if-Follows (ret == 0) Kind.rw_lock_acq_shr lock refl
handle_pthread-Follows (rwlock_timedrdlock_ended lock ret) small =
    append_atomic_if-Follows (ret == 0) Kind.rw_lock_acq_shr lock refl
handle_pthread-Follows (rwlock_wrlock_ended lock ret) small =
    append_atomic_if-Follows (ret == 0) Kind.rw_lock_acq_exc lock refl
handle_pthread-Follows (rwlock_trywrlock_ended lock ret) small =
    append_atomic_if-Follows (ret == 0) Kind.rw_lock_acq_exc lock refl
handle_pthread-Follows (rwlock_timedwrlock_ended lock ret) small =
    append_atomic_if-Follows (ret == 0) Kind.rw_lock_acq_exc lock refl
handle_pthread-Follows (spin_unlock_began lock) small =
    append_atomic-Follows Kind.lock_release lock refl
handle_pthread-Follows (spin_lock_ended lock ret) small =
    append_atomic_if-Follows (ret == 0) Kind.lock_acquire lock refl
handle_pthread-Follows (spin_trylock_ended lock ret) small =
    append_atomic_if-Follows (ret == 0) Kind.lock_acquire lock refl
