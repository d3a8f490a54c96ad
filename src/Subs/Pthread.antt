-- ===== src/Subs/Pthread.antt =====
-- The subscribers of src/subs_pthread.c.
use coldtrace.Prelude.{ℕ, ◌==◌, if◌then◌else◌}
use coldtrace.Entry.Kind
use coldtrace.Sys.{Sys}
use coldtrace.Thread.Defs.{Self, thread_init, thread_fini, set_create_idx, get_create_idx}
use coldtrace.Subs.Fill.{append_atomic, append_atomic_if, append_and, set_field, set_atomic_index}
use coldtrace.Subs.Counters.{next_atomic_idx, with_world}

-- `EVENT_THREAD_START`. `self` is `pthread_self`, the stack comes from `pthread_attr_getstack`.
abbrev pub fill_thread_start : (stack_ptr stack_size e : ℕ) → Self → Self
fill_thread_start stack_ptr stack_size e s =
    set_field e 3 stack_size (set_field e 2 stack_ptr (set_atomic_index e 1 s))

unfoldable pub on_thread_start : Sys → (self stack_ptr stack_size : ℕ) → Self → Self
on_thread_start sys self stack_ptr stack_size s =
    append_and sys Kind.thread_start self (fill_thread_start stack_ptr stack_size) (thread_init s)

-- `EVENT_THREAD_EXIT`
unfoldable pub on_thread_exit : Sys → (self : ℕ) → Self → Self
on_thread_exit sys self s = append_atomic sys Kind.thread_exit self s

-- `EVENT_SELF_FINI`. `coldtrace_main_thread_fini` does nothing unless a test overrides it.
unfoldable pub on_self_fini : Sys → (self : ℕ) → Self → Self
on_self_fini sys self s =
    if s.id == sys.main_thread
    then thread_fini sys (append_atomic sys Kind.thread_exit self s)
    else thread_fini sys s

-- `EVENT_THREAD_CREATE`, before and after: the index is taken before the thread can start.
unfoldable pub before_thread_create : Self → Self
before_thread_create s =
    let (index, w) = next_atomic_idx s.io.world in set_create_idx index (with_world s w)

abbrev pub fill_create : ℕ → Self → Self
fill_create e s = let (index, s') = get_create_idx s in set_field e 1 index s'

unfoldable pub after_thread_create : Sys → (thread : ℕ) → Self → Self
after_thread_create sys thread s = append_and sys Kind.thread_create thread fill_create s

-- `EVENT_THREAD_JOIN`
unfoldable pub after_thread_join : Sys → (thread : ℕ) → Self → Self
after_thread_join sys thread s = append_atomic sys Kind.thread_join thread s

-- `EVENT_MUTEX_UNLOCK`
unfoldable pub before_mutex_unlock : Sys → (mutex : ℕ) → Self → Self
before_mutex_unlock sys mutex s = append_atomic sys Kind.lock_release mutex s

-- `EVENT_MUTEX_LOCK`
unfoldable pub after_mutex_lock : Sys → (mutex ret : ℕ) → Self → Self
after_mutex_lock sys mutex ret s = append_atomic_if (ret == 0) sys Kind.lock_acquire mutex s

-- `EVENT_MUTEX_TRYLOCK`
unfoldable pub after_mutex_trylock : Sys → (mutex ret : ℕ) → Self → Self
after_mutex_trylock sys mutex ret s = append_atomic_if (ret == 0) sys Kind.lock_acquire mutex s

-- `EVENT_MUTEX_TIMEDLOCK`
unfoldable pub after_mutex_timedlock : Sys → (mutex ret : ℕ) → Self → Self
after_mutex_timedlock sys mutex ret s = append_atomic_if (ret == 0) sys Kind.lock_acquire mutex s

-- `EVENT_MUTEX_CLOCKLOCK`
unfoldable pub after_mutex_clocklock : Sys → (mutex ret : ℕ) → Self → Self
after_mutex_clocklock sys mutex ret s = append_atomic_if (ret == 0) sys Kind.lock_acquire mutex s

-- `EVENT_COND_WAIT`, before
unfoldable pub before_cond_wait : Sys → (mutex : ℕ) → Self → Self
before_cond_wait sys mutex s = append_atomic sys Kind.lock_release mutex s

-- `EVENT_COND_WAIT`, after
unfoldable pub after_cond_wait : Sys → (mutex : ℕ) → Self → Self
after_cond_wait sys mutex s = append_atomic sys Kind.lock_acquire mutex s

-- `EVENT_COND_TIMEDWAIT`, before
unfoldable pub before_cond_timedwait : Sys → (mutex : ℕ) → Self → Self
before_cond_timedwait sys mutex s = append_atomic sys Kind.lock_release mutex s

-- `EVENT_COND_TIMEDWAIT`, after
unfoldable pub after_cond_timedwait : Sys → (mutex : ℕ) → Self → Self
after_cond_timedwait sys mutex s = append_atomic sys Kind.lock_acquire mutex s

-- `EVENT_COND_CLOCKWAIT`, before
unfoldable pub before_cond_clockwait : Sys → (mutex : ℕ) → Self → Self
before_cond_clockwait sys mutex s = append_atomic sys Kind.lock_release mutex s

-- `EVENT_COND_CLOCKWAIT`, after
unfoldable pub after_cond_clockwait : Sys → (mutex : ℕ) → Self → Self
after_cond_clockwait sys mutex s = append_atomic sys Kind.lock_acquire mutex s

-- `EVENT_RWLOCK_UNLOCK`
unfoldable pub before_rwlock_unlock : Sys → (lock : ℕ) → Self → Self
before_rwlock_unlock sys lock s = append_atomic sys Kind.rw_lock_rel lock s

-- `EVENT_RWLOCK_RDLOCK`
unfoldable pub after_rwlock_rdlock : Sys → (lock ret : ℕ) → Self → Self
after_rwlock_rdlock sys lock ret s = append_atomic_if (ret == 0) sys Kind.rw_lock_acq_shr lock s

-- `EVENT_RWLOCK_TRYRDLOCK`
unfoldable pub after_rwlock_tryrdlock : Sys → (lock ret : ℕ) → Self → Self
after_rwlock_tryrdlock sys lock ret s = append_atomic_if (ret == 0) sys Kind.rw_lock_acq_shr lock s

-- `EVENT_RWLOCK_TIMEDRDLOCK`
unfoldable pub after_rwlock_timedrdlock : Sys → (lock ret : ℕ) → Self → Self
after_rwlock_timedrdlock sys lock ret s =
    append_atomic_if (ret == 0) sys Kind.rw_lock_acq_shr lock s

-- `EVENT_RWLOCK_WRLOCK`
unfoldable pub after_rwlock_wrlock : Sys → (lock ret : ℕ) → Self → Self
after_rwlock_wrlock sys lock ret s = append_atomic_if (ret == 0) sys Kind.rw_lock_acq_exc lock s

-- `EVENT_RWLOCK_TRYWRLOCK`
unfoldable pub after_rwlock_trywrlock : Sys → (lock ret : ℕ) → Self → Self
after_rwlock_trywrlock sys lock ret s = append_atomic_if (ret == 0) sys Kind.rw_lock_acq_exc lock s

-- `EVENT_RWLOCK_TIMEDWRLOCK`
unfoldable pub after_rwlock_timedwrlock : Sys → (lock ret : ℕ) → Self → Self
after_rwlock_timedwrlock sys lock ret s =
    append_atomic_if (ret == 0) sys Kind.rw_lock_acq_exc lock s

-- `EVENT_SPIN_UNLOCK`
unfoldable pub before_spin_unlock : Sys → (lock : ℕ) → Self → Self
before_spin_unlock sys lock s = append_atomic sys Kind.lock_release lock s

-- `EVENT_SPIN_LOCK`
unfoldable pub after_spin_lock : Sys → (lock ret : ℕ) → Self → Self
after_spin_lock sys lock ret s = append_atomic_if (ret == 0) sys Kind.lock_acquire lock s

-- `EVENT_SPIN_TRYLOCK`
unfoldable pub after_spin_trylock : Sys → (lock ret : ℕ) → Self → Self
after_spin_trylock sys lock ret s = append_atomic_if (ret == 0) sys Kind.lock_acquire lock s
