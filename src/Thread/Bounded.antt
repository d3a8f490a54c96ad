-- ===== src/Thread/Bounded.antt =====
-- What the operations of src/thread.c that write no entry leave of the writer: its position and its
-- configuration.
use coldtrace.Prelude.{ℕ, ◌^◌, ◌<◌, ◌≡◌, ◌≢◌, refl, ◌∙◌, true, List, if_split, ltb, ◌==◌}
use coldtrace.Sys.{Sys}
use coldtrace.Thread.Defs.{Self, stack_push, stack_pop, set_create_idx, grow_stack, push_grown}
use coldtrace.Thread.Read.{Seen}
use coldtrace.Thread.Sound.{IsSound, calls}
use coldtrace.Thread.Stack.{get_thread-id}

-- The sizes at which no `size_t` sum of the writer wraps
pub record IsBounded (s : Self) : Type 0 where
  pub trace_size : s.io.world.config.trace_size < 2 ^ 62
  pub offset : s.io.impl.offset < 2 ^ 62

pub stack_push-IsBounded :
    (sys : Sys) (caller : ℕ) {s : Self}
    → s.thread.initd ≡ true
    → IsBounded s
    → IsBounded (stack_push sys caller s)
unfolding stack_push grow_stack
stack_push-IsBounded sys caller {s} i b = rw (get_thread-id s i) (
    if_split IsBounded s.thread.failed (λ _. b)
      (λ _.
        if_split IsBounded (s.thread.stack_size == s.thread.stack_capacity)
          (λ _.
            if_split (λ x. IsBounded (push_grown caller x)) (sys.malloc_ok s.io.world.ticks)
              (λ _. record { trace_size = b.trace_size; offset = b.offset })
              (λ _. record { trace_size = b.trace_size; offset = b.offset }))
          (λ _. record { trace_size = b.trace_size; offset = b.offset })))

pub stack_pop-IsBounded : {s : Self} → s.thread.initd ≡ true → IsBounded s → IsBounded (stack_pop s)
unfolding stack_pop
stack_pop-IsBounded {s} i b = rw (get_thread-id s i) (
    if_split IsBounded s.thread.failed (λ _. b)
      (λ _.
        if_split IsBounded (ltb 0 s.thread.stack_size)
          (λ _. record { trace_size = b.trace_size; offset = b.offset }) (λ _. b)))

-- The index that a thread keeps between the events before and behind the creation of another thread
pub set_create_idx-IsSound :
    {s : Self} {r : List ℕ} {log : List Seen} (index : ℕ)
    → IsSound s r log
    → IsSound (set_create_idx index s) r log × (calls (set_create_idx index s) ≡ calls s)
unfolding set_create_idx
set_create_idx-IsSound {s} index h = rw (get_thread-id s h.initd) (
  record {
    initd = h.initd;
    valid = h.valid;
    bottom = h.bottom;
    room = h.room;
    small = h.small;
    laid = h.laid;
    agreed = h.agreed;
    closed = h.closed;
  },
  refl,
)

pub set_create_idx-IsBounded :
    {s : Self} (index : ℕ)
    → s.thread.initd ≡ true
    → IsBounded s
    → IsBounded (set_create_idx index s)
unfolding set_create_idx
set_create_idx-IsBounded {s} index i b =
    rw (get_thread-id s i) (record { trace_size = b.trace_size; offset = b.offset })

-- What a thread leaves alone of what it shares with the others: the configuration, and the files of
-- every other thread. Its own id stays, too.
pub record Keeps (s t : Self) : Type 0 where
  pub tid : t.io.impl.tid ≡ s.io.impl.tid
  pub config : t.io.world.config ≡ s.io.world.config
  pub files : (k e : ℕ) → k ≢ s.io.impl.tid → t.io.world.files k e ≡ s.io.world.files k e

pub Keeps-refl : {s : Self} → Keeps s s
Keeps-refl = record { tid = refl; config = refl; files = λ k e h. refl }

pub Keeps-trans : {s t u : Self} → Keeps s t → Keeps t u → Keeps s u
Keeps-trans a b = record {
  tid = b.tid ∙ a.tid;
  config = b.config ∙ a.config;
  files = λ k e h. b.files k e (λ same. h (same ∙ a.tid)) ∙ a.files k e h;
}

pub stack_push-Keeps :
    (sys : Sys) (caller : ℕ) {s : Self} → s.thread.initd ≡ true → Keeps s (stack_push sys caller s)
unfolding stack_push grow_stack
stack_push-Keeps sys caller {s} i = rw (get_thread-id s i) (
    if_split (Keeps s) s.thread.failed (λ _. Keeps-refl)
      (λ _.
        if_split (Keeps s) (s.thread.stack_size == s.thread.stack_capacity)
          (λ _.
            if_split (λ x. Keeps s (push_grown caller x)) (sys.malloc_ok s.io.world.ticks)
              (λ _. record { tid = refl; config = refl; files = λ k e h. refl })
              (λ _. record { tid = refl; config = refl; files = λ k e h. refl }))
          (λ _. record { tid = refl; config = refl; files = λ k e h. refl })))

pub stack_pop-Keeps : {s : Self} → s.thread.initd ≡ true → Keeps s (stack_pop s)
unfolding stack_pop
stack_pop-Keeps {s} i = rw (get_thread-id s i) (
    if_split (Keeps s) s.thread.failed (λ _. Keeps-refl)
      (λ _.
        if_split (Keeps s) (ltb 0 s.thread.stack_size)
          (λ _. record { tid = refl; config = refl; files = λ k e h. refl }) (λ _. Keeps-refl)))

pub set_create_idx-Keeps :
    {s : Self} (index : ℕ) → s.thread.initd ≡ true → Keeps s (set_create_idx index s)
unfolding set_create_idx
set_create_idx-Keeps {s} index i =
    rw (get_thread-id s i) (record { tid = refl; config = refl; files = λ k e h. refl })
