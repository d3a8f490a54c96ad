-- ===== src/Thread/Record.antt =====
-- `coldtrace_thread_append` of src/thread.c on every branch.
use mathlib.Core.Path.{subst}
use coldtrace.Prelude.{
  ℕ, ◌+◌, ◌^◌, ◌≤◌, ◌<◌, ◌≡◌, refl, sym, Bool, true, false, none, List, if◌then◌else◌, if_split,
  arith, ◌==◌,
}
use coldtrace.Entry.Kind.{is_type_valid, with_stack}
use coldtrace.Entry.Layout.{fixed_size}
use coldtrace.Entry.Sizes.{fixed_size-lem}
use coldtrace.Sys.{Sys}
use coldtrace.Writer.Defs.{Io}
use coldtrace.Writer.Ops.{writer_reserve, writer_new_trace}
use coldtrace.Writer.Frame.{Touches-refl}
use coldtrace.Writer.Reserve.{IsSmall}
use coldtrace.Thread.Defs.{
  Self, set_bottom, write_plain, append_plain, stack_bytes, entry_bottom, append_stack, append_to,
}
use coldtrace.Thread.Read.{Seen}
use coldtrace.Thread.Sound.{IsSound}
use coldtrace.Thread.Place.{bottom_for}
use coldtrace.Thread.Append.{Appended}
use coldtrace.Thread.Granted.{
  Granted, bottom_for-le, reserve-Granted, plain-Appended, stack-Appended,
}

-- A larger entry starts a fragment wherever a smaller one does.
new_trace_monotone :
    (io : Io) (m n : ℕ)
    → m ≤ n
    → IsSmall io n
    → writer_new_trace io m ≡ true
    → writer_new_trace io n ≡ true
unfolding writer_new_trace
new_trace_monotone io m n le small h = ground arith

-- The bottom that an entry with a stack is written with is the one for the size that it is given.
entry_bottom-eq :
    (s : Self) (len : ℕ)
    → s.thread.stack_bottom ≤ s.thread.stack_size
    → s.thread.stack_size < 2 ^ 32
    → IsSmall s.io (len + stack_bytes s.thread.stack_size 0)
    → entry_bottom s len ≡ bottom_for s (len + stack_bytes s.thread.stack_size (entry_bottom s len))
entry_bottom-eq s len le short small =
    let top = s.thread.stack_size in
    let bottom = s.thread.stack_bottom in
    if_split (λ b. b ≡ bottom_for s (len + stack_bytes top b))
      (writer_new_trace s.io (len + stack_bytes top bottom))
      (λ full.
        let more =
          new_trace_monotone s.io (len + stack_bytes top bottom) (len + stack_bytes top 0)
            (omega arith) small full in
        rw more refl)
      (λ room. rw room refl)

pub with_bottom :
    (b : Bool) (s : Self)
    → (if b then set_bottom 0 s else s) ≡ set_bottom (if b then 0 else s.thread.stack_bottom) s
with_bottom true s = refl
with_bottom false s = refl

module _ (sys : Sys) {s : Self} {r : List ℕ} {log : List Seen} (sound : IsSound s r log)
    (type ptr : ℕ) where
  -- An entry that is not even tried
  refused : s.io.impl.offset < 2 ^ 62 → Appended s type ptr log (none, s)
  refused small = record {
    reader = r;
    entries = log;
    sound = sound;
    same_calls = refl;
    tid = refl;
    shared = Touches-refl s.io.world;
    bounded = small;
    recorded = λ c. cc;
    there = λ c. cc;
    last = λ e' eq. absurd (ground arith);
    unrecorded = λ _. refl;
    shown = λ c _. cc;
  }

  module _ (h : type < 256) (config : s.io.world.config.trace_size < 2 ^ 62)
      (offset : s.io.impl.offset < 2 ^ 62) where
    IsSmall-for : (n : ℕ) → n < 2 ^ 61 → IsSmall s.io n
    IsSmall-for n lt = record { trace_size = config; entry = lt; offset = offset }

    append_plain-Appended :
        is_type_valid type ≡ true
        → with_stack type ≡ false
        → Appended s type ptr log (append_plain sys type ptr (fixed_size type) s)
    unfolding append_plain
    append_plain-Appended valid plain =
        let n = fixed_size type in
        let (_, _, most, _) = fixed_size-lem type h in
        let granted = reserve-Granted s sound sys n (IsSmall-for n (omega arith)) in
        subst (λ t. Appended s type ptr log (write_plain type ptr t (writer_reserve sys t.io n)))
          (sym (with_bottom (writer_new_trace s.io n) s))
          (plain-Appended s sound type ptr h valid (bottom_for s n) (writer_reserve sys s.io n)
            (bottom_for-le s n) plain granted)

    append_stack-Appended :
        is_type_valid type ≡ true
        → with_stack type ≡ true
        → Appended s type ptr log (append_stack sys type ptr (fixed_size type) s)
    unfolding append_stack
    append_stack-Appended valid stacked =
        let b = entry_bottom s (fixed_size type) in
        let n = fixed_size type + stack_bytes s.thread.stack_size b in
        let (_, _, most, _) = fixed_size-lem type h in
        let granted = reserve-Granted s sound sys n (IsSmall-for n (omega arith)) in
        stack-Appended s sound type ptr h valid b (writer_reserve sys s.io n) stacked (
          subst (λ k. Granted s log n k (writer_reserve sys s.io n))
            (sym (
              entry_bottom-eq s (fixed_size type) sound.bottom
                (omega (arith, sound.room, sound.small)) (IsSmall-for _ (omega arith))))
            granted)

    -- An append to a sound thread, with sizes that do not wrap, leaves it sound and its call stack as
    -- it was. It records one entry, of this type and pointer, or none. The entry stands behind those
    -- of the fragment, or alone in a new one; if it carries a stack, its reader gets all the calls.
    pub append_to-Appended : Appended s type ptr log (append_to sys type ptr s)
    unfolding append_to
    append_to-Appended =
        let ((valid, _), _, _, _) = fixed_size-lem type h in
        if_split (Appended s type ptr log) s.thread.failed (λ _. refused offset)
          (λ _.
            if_split (Appended s type ptr log) (fixed_size type == 0) (λ _. refused offset)
              (λ some_size.
                let ok : is_type_valid type ≡ true = valid (ground arith) in
                if_split (Appended s type ptr log) (with_stack type)
                  (λ stacked. append_stack-Appended ok stacked)
                  (λ plain. append_plain-Appended ok plain)))
