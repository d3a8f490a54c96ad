-- ===== src/Thread/Calls.antt =====
-- What a push or a pop of src/thread.c leaves of a thread whose call stack could not grow, and of its
-- fragment.
use coldtrace.Prelude.{ℕ, ◌≡◌, refl, true, false, ◌==◌, if_split, inl, inr, Bool-cases}
use coldtrace.Sys.{Sys}
use coldtrace.Thread.Defs.{grow_stack, push_grown, Self, stack_push, stack_pop}
use coldtrace.Thread.Stack.{get_thread-id}

-- A call stack that could not grow stays so.
pub stack_push-failed :
    (sys : Sys) (caller : ℕ) (s : Self)
    → s.thread.initd ≡ true
    → (stack_push sys caller s).thread.failed ≡ false
    → s.thread.failed ≡ false
unfolding stack_push
stack_push-failed sys caller s i =
    rw (get_thread-id s i)
      (elim (Bool-cases s.thread.failed) [ inl f ↦ rw f (λ h. h) | inr f ↦ λ h. f ])

pub stack_pop-failed :
    (s : Self) → s.thread.initd ≡ true → (stack_pop s).thread.failed ≡ s.thread.failed
unfolding stack_pop
stack_pop-failed s i = rw (get_thread-id s i) (
    if_split (λ (t : Self). t.thread.failed ≡ s.thread.failed) s.thread.failed (λ _. refl)
      (λ _. if_split (λ (t : Self). t.thread.failed ≡ s.thread.failed) _ (λ _. refl) (λ _. refl)))

-- A push or a pop leaves the fragment as it is.
pub stack_push-buffer :
    (sys : Sys) (caller : ℕ) (s : Self)
    → s.thread.initd ≡ true
    → (stack_push sys caller s).io.impl.buffer ≡ s.io.impl.buffer
unfolding stack_push grow_stack
stack_push-buffer sys caller s i = rw (get_thread-id s i) (
    if_split (λ (t : Self). t.io.impl.buffer ≡ s.io.impl.buffer) s.thread.failed (λ _. refl)
      (λ _.
        if_split (λ (t : Self). t.io.impl.buffer ≡ s.io.impl.buffer)
          (s.thread.stack_size == s.thread.stack_capacity)
          (λ _.
            if_split (λ x. (push_grown caller x).io.impl.buffer ≡ s.io.impl.buffer)
              (sys.malloc_ok s.io.world.ticks) (λ _. refl) (λ _. refl))
          (λ _. refl)))

pub stack_pop-buffer :
    (s : Self) → s.thread.initd ≡ true → (stack_pop s).io.impl.buffer ≡ s.io.impl.buffer
unfolding stack_pop
stack_pop-buffer s i = rw (get_thread-id s i) (
    if_split (λ (t : Self). t.io.impl.buffer ≡ s.io.impl.buffer) s.thread.failed (λ _. refl)
      (λ _. if_split (λ (t : Self). t.io.impl.buffer ≡ s.io.impl.buffer) _ (λ _. refl) (λ _. refl)))
