-- ===== src/Subs/Begun.antt =====
-- A thread from its start on: `EVENT_THREAD_START` of src/subs_pthread.c.
use coldtrace.Prelude.{
  slice, ap, ℕ, ◌^◌, ◌<◌, ◌≡◌, refl, inl, true, false, some, List, [], ◌∷◌, is_some, if_split,
  arith,
}
use coldtrace.Entry.Kind
use coldtrace.Entry.Kind.{is_type_valid}
use coldtrace.Sys.{Sys}
use coldtrace.Writer.Ops.{writer_init}
use coldtrace.Writer.Invariant.{IsReleased}
use coldtrace.Writer.Lifetime.{writer_init-IsValid}
use coldtrace.Thread.Defs.{Self, get_thread, thread_init}
use coldtrace.Subs.Areas.{AreaMap}
use coldtrace.Subs.Atomics.{Traced}
use coldtrace.Subs.Pthread.{on_thread_start, fill_thread_start}
use coldtrace.Subs.Layouts.{layout-IsFill}
use coldtrace.Subs.Run.{none_left}
use coldtrace.Subs.Course.{to_record, act_all, IsOn}
use coldtrace.Subs.Follows.{append-Follows}
use coldtrace.Subs.Dispatch.{Event, prescribed, Handles, Handles-IsOn, Shown, IsOn-Shown}

-- The state that `coldtrace_thread_init` leaves of one that is all zero
thread_init-IsOn :
    (s : Self)
    → s.thread.initd ≡ false
    → s.thread.stack_bottom ≡ 0
    → s.thread.stack_size ≡ 0
    → s.thread.stack_capacity ≡ 0
    → IsReleased s.io
    → s.io.world.config.trace_size < 2 ^ 62
    → IsOn (record { inside = []; history = [] }) (thread_init s)
unfolding thread_init get_thread writer_init
thread_init-IsOn s i b n c released small =
    if_split
      (λ (u : Self).
        let v : Self = record u {
          io = record (u.io) { impl = writer_init (some u.id) u.io.impl };
        } in
        IsOn (record { inside = []; history = [] }) v)
      s.thread.initd (λ e. cc)
      (λ _. record {
        reader = [];
        log = [];
        sound = record {
          initd = refl;
          valid = writer_init-IsValid s.io (some s.id) released;
          bottom = omega (arith, b);
          room = omega (arith, n);
          small = omega (arith, c);
          laid = λ there. cc;
          agreed = λ there. cc;
          closed = λ _. inl b;
        };
        bounded = record { trace_size = small; offset = omega arith };
        known = λ f. (ap (slice s.thread.stack 0) n, none_left);
        begun = λ f b e. refl;
      })

-- A thread that starts, with its state all zero until then, and then handles events, as long as its call
-- stack can grow: its buffer, if it has one, holds the last ones of all the entries that are prescribed,
-- in order, with none left out and the very last one there, where the entry of its start stands before all
-- others. Each has its
-- type and pointer, and the functions of its moment where it has a stack, from none at the start on.
pub on_thread_start-Shown :
    {sys : Sys} {t : Traced} {es : List Event} (self stack_ptr stack_size : ℕ) (areas : AreaMap)
    (s : Self)
    → s.thread.initd ≡ false
    → s.thread.stack_bottom ≡ 0
    → s.thread.stack_size ≡ 0
    → s.thread.stack_capacity ≡ 0
    → IsReleased s.io
    → s.io.world.config.trace_size < 2 ^ 62
    → Handles sys (areas, on_thread_start sys self stack_ptr stack_size s) es t
    → is_some t.1.io.impl.buffer ≡ true
    → t.1.thread.failed ≡ false
    → Shown
        (act_all
          (to_record Kind.thread_start self ∷ prescribed es)
          (record { inside = []; history = [] }))
        t.1
unfolding on_thread_start is_type_valid
on_thread_start-Shown self stack_ptr stack_size areas s i b n c released small hs there fine =
    let start = thread_init-IsOn s i b n c released small in
    let fill = fill_thread_start stack_ptr stack_size in
    let kept = (layout-IsFill Kind.thread_start (omega arith) refl).5 refl stack_ptr stack_size in
    let first = (append-Follows Kind.thread_start self fill (omega arith) refl kept).goes start in
    IsOn-Shown (Handles-IsOn first hs) there fine
