-- ===== src/Thread/Run.antt =====
-- A thread of src/thread.c at its first event, and at each entry that it appends.
use coldtrace.Prelude.{
  true, ℕ, ◌^◌, ◌<◌, ◌≡◌, refl, ap, inl, false, some, List, [], slice, if_split, arith,
}
use coldtrace.Sys.{Sys}
use coldtrace.Writer.Ops.{writer_init}
use coldtrace.Writer.Invariant.{IsReleased}
use coldtrace.Writer.Lifetime.{writer_init-IsValid}
use coldtrace.Thread.Defs.{Self, get_thread, thread_append}
use coldtrace.Thread.Read.{Seen}
use coldtrace.Thread.Sound.{IsSound, calls, is_on}
use coldtrace.Thread.Append.{Appended}
use coldtrace.Thread.Record.{append_to-Appended}
use coldtrace.Thread.Stack.{get_thread-id}

-- An append to a sound thread, where no size_t sum can wrap, leaves it sound and its call stack as
-- it was. It records one entry, of this type and pointer, or none. The entry stands behind those
-- of the fragment, or alone in a new one; if it carries a stack, its reader gets all the calls.
pub thread_append-Appended :
    (sys : Sys) {s : Self} {r : List ℕ} {log : List Seen}
    → IsSound s r log
    → (type ptr : ℕ) → type < 256
    → s.io.world.config.trace_size < 2 ^ 62
    → s.io.impl.offset < 2 ^ 62
    → Appended s type ptr log (thread_append sys type ptr s)
unfolding thread_append
thread_append-Appended sys {s} sound type ptr h config offset =
    rw (get_thread-id s sound.initd) (append_to-Appended sys sound type ptr h config offset)

-- The first use of a thread's state, all zero until then, makes it sound, with an empty call stack
-- and no fragment, and sets up its writer, under the thread's id. A second use changes nothing.
pub get_thread-IsSound :
    (s : Self)
    → s.thread.initd ≡ false
    → s.thread.stack_bottom ≡ 0
    → s.thread.stack_size ≡ 0
    → s.thread.stack_capacity ≡ 0
    → IsReleased s.io
    → IsSound (get_thread s) [] []
      × (calls (get_thread s) ≡ [])
      × (is_on (get_thread s).io ≡ true)
      × ((get_thread s).io.impl.tid ≡ s.id)
      × (get_thread (get_thread s) ≡ get_thread s)
unfolding get_thread writer_init
get_thread-IsSound s i b n c released =
    if_split
      (λ (t : Self).
        IsSound t [] []
        × (calls t ≡ [])
        × (is_on t.io ≡ true)
        × (t.io.impl.tid ≡ s.id)
        × (get_thread t ≡ t))
      s.thread.initd (λ e. cc)
      (λ _. (
        record {
          initd = refl;
          valid = writer_init-IsValid s.io (some s.id) released;
          bottom = omega (arith, b);
          room = omega (arith, n);
          small = omega (arith, c);
          laid = λ there. cc;
          agreed = λ there. cc;
          closed = λ _. inl b;
        },
        ap (slice s.thread.stack 0) n,
        refl,
        refl,
        refl,
      ))
