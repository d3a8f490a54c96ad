-- ===== src/Aliases/Defs.antt =====
-- The header include/coldtrace/aliases.h, which gives the events of Dice the names that the subscribers
-- use. A macro without parameters is its name and the text that replaces it.
use coldtrace.Prelude.{ℕ, Option, some, List, [], ◌∷◌, is_some, if◌then◌else◌, codes, same_text}

abbrev pub Macros : Type 0
Macros = List ℕ → Option (List ℕ)

-- `#define name text`
abbrev pub define : (name text : List ℕ) → Macros → Macros
define name text m n = if same_text n name then some text else m n

-- `#ifndef name`, `#define name text`, `#endif`
abbrev pub define_unless : (name text : List ℕ) → Macros → Macros
define_unless name text m = if is_some (m name) then m else define name text m

abbrev pub define_aliases : List (List ℕ × List ℕ) → Macros → Macros
define_aliases [] m = m
define_aliases ((name, text) ∷ rest) m = define_aliases rest (define_unless name text m)

unfoldable pub aliases : List (List ℕ × List ℕ)
aliases =
    (codes "EVENT_THREAD_EXIT", codes "EVENT_PTHREAD_EXIT")
    ∷ (codes "EVENT_THREAD_CREATE", codes "EVENT_PTHREAD_CREATE")
    ∷ (codes "EVENT_THREAD_JOIN", codes "EVENT_PTHREAD_JOIN")
    ∷ (codes "EVENT_MUTEX_LOCK", codes "EVENT_PTHREAD_MUTEX_LOCK")
    ∷ (codes "EVENT_MUTEX_TIMEDLOCK", codes "EVENT_PTHREAD_MUTEX_TIMEDLOCK")
    ∷ (codes "EVENT_MUTEX_TRYLOCK", codes "EVENT_PTHREAD_MUTEX_TRYLOCK")
    ∷ (codes "EVENT_MUTEX_UNLOCK", codes "EVENT_PTHREAD_MUTEX_UNLOCK")
    ∷ (codes "EVENT_MUTEX_CLOCKLOCK", codes "EVENT_PTHREAD_MUTEX_CLOCKLOCK")
    ∷ (codes "EVENT_COND_WAIT", codes "EVENT_PTHREAD_COND_WAIT")
    ∷ (codes "EVENT_COND_TIMEDWAIT", codes "EVENT_PTHREAD_COND_TIMEDWAIT")
    ∷ (codes "EVENT_COND_SIGNAL", codes "EVENT_PTHREAD_COND_SIGNAL")
    ∷ (codes "EVENT_COND_BROADCAST", codes "EVENT_PTHREAD_COND_BROADCAST")
    ∷ (codes "EVENT_COND_CLOCKWAIT", codes "EVENT_PTHREAD_COND_CLOCKWAIT")
    ∷ (codes "EVENT_RWLOCK_RDLOCK", codes "EVENT_PTHREAD_RWLOCK_RDLOCK")
    ∷ (codes "EVENT_RWLOCK_TIMEDRDLOCK", codes "EVENT_PTHREAD_RWLOCK_TIMEDRDLOCK")
    ∷ (codes "EVENT_RWLOCK_TRYRDLOCK", codes "EVENT_PTHREAD_RWLOCK_TRYRDLOCK")
    ∷ (codes "EVENT_RWLOCK_WRLOCK", codes "EVENT_PTHREAD_RWLOCK_WRLOCK")
    ∷ (codes "EVENT_RWLOCK_TIMEDWRLOCK", codes "EVENT_PTHREAD_RWLOCK_TIMEDWRLOCK")
    ∷ (codes "EVENT_RWLOCK_TRYWRLOCK", codes "EVENT_PTHREAD_RWLOCK_TRYWRLOCK")
    ∷ (codes "EVENT_RWLOCK_UNLOCK", codes "EVENT_PTHREAD_RWLOCK_UNLOCK")
    ∷ (codes "EVENT_SPIN_LOCK", codes "EVENT_PTHREAD_SPIN_LOCK")
    ∷ (codes "EVENT_SPIN_TRYLOCK", codes "EVENT_PTHREAD_SPIN_TRYLOCK")
    ∷ (codes "EVENT_SPIN_UNLOCK", codes "EVENT_PTHREAD_SPIN_UNLOCK")
    ∷ (codes "EVENT_CXA_GUARD_ACQUIRE", codes "EVENT___CXA_GUARD_ACQUIRE")
    ∷ (codes "EVENT_CXA_GUARD_RELEASE", codes "EVENT___CXA_GUARD_RELEASE")
    ∷ (codes "EVENT_CXA_GUARD_ABORT", codes "EVENT___CXA_GUARD_ABORT")
    ∷ (codes "EVENT_ANNOTATE_RWLOCK_CREATE", codes "EVENT_ANNOTATERWLOCKCREATE")
    ∷ (codes "EVENT_ANNOTATE_RWLOCK_DESTROY", codes "EVENT_ANNOTATERWLOCKDESTROY")
    ∷ (codes "EVENT_ANNOTATE_RWLOCK_ACQ", codes "EVENT_ANNOTATERWLOCKACQUIRED")
    ∷ (codes "EVENT_ANNOTATE_RWLOCK_REL", codes "EVENT_ANNOTATERWLOCKRELEASED")
    ∷ []

-- `COLDTRACE_EVENT_ALIASES_H`
abbrev pub aliases_guard : List ℕ
aliases_guard = codes "COLDTRACE_EVENT_ALIASES_H"

-- The whole header; `dice` is what its three includes add.
unfoldable pub include_aliases : (dice : Macros → Macros) → Macros → Macros
include_aliases dice m =
    if is_some (m aliases_guard)
    then m
    else define_aliases aliases (dice (define aliases_guard [] m))
