-- ===== src/Subs/Sync.antt =====
-- The subscribers of src/subs_sem.c, src/subs_cxa.c, src/subs_annotate_rwlock.c and src/subs_wait.c.
use coldtrace.Prelude.{ℕ, Bool, true, ◌==◌, if◌then◌else◌}
use coldtrace.Entry.Kind
use coldtrace.Sys.{Sys}
use coldtrace.Thread.Defs.{Self}
use coldtrace.Subs.Fill.{append_atomic, append_atomic_if}

-- `EVENT_SEM_WAIT`, after
unfoldable pub after_sem_wait : Sys → (sem ret : ℕ) → Self → Self
after_sem_wait sys sem ret s = append_atomic_if (ret == 0) sys Kind.lock_acquire sem s

-- `EVENT_SEM_TRYWAIT`, after
unfoldable pub after_sem_trywait : Sys → (sem ret : ℕ) → Self → Self
after_sem_trywait sys sem ret s = append_atomic_if (ret == 0) sys Kind.lock_acquire sem s

-- `EVENT_SEM_TIMEDWAIT`, after
unfoldable pub after_sem_timedwait : Sys → (sem ret : ℕ) → Self → Self
after_sem_timedwait sys sem ret s = append_atomic_if (ret == 0) sys Kind.lock_acquire sem s

-- `EVENT_SEM_POST`
unfoldable pub before_sem_post : Sys → (sem : ℕ) → Self → Self
before_sem_post sys sem s = append_atomic sys Kind.lock_release sem s

-- `EVENT_CXA_GUARD_ACQUIRE`
unfoldable pub after_cxa_guard_acquire : Sys → (addr : ℕ) → Self → Self
after_cxa_guard_acquire sys addr s = append_atomic sys Kind.cxa_guard_acquire addr s

-- `EVENT_CXA_GUARD_RELEASE`
unfoldable pub before_cxa_guard_release : Sys → (addr : ℕ) → Self → Self
before_cxa_guard_release sys addr s = append_atomic sys Kind.cxa_guard_release addr s

-- `EVENT_CXA_GUARD_ABORT`
unfoldable pub before_cxa_guard_abort : Sys → (addr : ℕ) → Self → Self
before_cxa_guard_abort sys addr s = append_atomic sys Kind.cxa_guard_release addr s

-- `EVENT_ANNOTATE_RWLOCK_CREATE`
unfoldable pub on_rw_lock_create : Sys → (lock : ℕ) → Self → Self
on_rw_lock_create sys lock s = append_atomic sys Kind.rw_lock_create lock s

-- `EVENT_ANNOTATE_RWLOCK_DESTROY`
unfoldable pub on_rw_lock_destroy : Sys → (lock : ℕ) → Self → Self
on_rw_lock_destroy sys lock s = append_atomic sys Kind.rw_lock_destroy lock s

-- `EVENT_ANNOTATE_RWLOCK_ACQ`
unfoldable pub on_rw_lock_acq : Sys → (lock : ℕ) → (is_w : Bool) → Self → Self
on_rw_lock_acq sys lock is_w s =
    append_atomic sys (if is_w then Kind.rw_lock_acq_exc else Kind.rw_lock_acq_shr) lock s

-- `EVENT_ANNOTATE_RWLOCK_REL`
unfoldable pub on_rw_lock_rel : Sys → (lock : ℕ) → (is_w : Bool) → Self → Self
on_rw_lock_rel sys lock is_w s =
    append_atomic sys (if is_w then Kind.rw_lock_rel_exc else Kind.rw_lock_rel_shr) lock s

-- `coldtrace_enable_test_wait` sets `_test_wait`.
unfoldable pub enable_test_wait : (test_wait : Bool) → Bool
enable_test_wait test_wait = true

-- `EVENT_SELF_WAIT`: `test_wait` is `_test_wait`, the result is `ev->wait`.
unfoldable pub on_self_wait : (test_wait wait : Bool) → Bool
on_self_wait test_wait wait = if test_wait then true else wait
