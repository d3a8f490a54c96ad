-- ===== src/Thread/Gone.antt =====
-- What is left of a thread's fragment when `coldtrace_thread_append` of src/thread.c drops an entry, and
-- what an append leaves of the thread's own state.
use coldtrace.Prelude.{
  ℕ, ◌+◌, ◌<◌, ◌≡◌, refl, sym, ap, ◌∙◌, Bool, true, false, not, Option, none, some, is_some, ◌==◌,
  if◌then◌else◌, if_split, no_bool, arith, inl, inr, Bool-cases,
}
use mathlib.Core.Path.{subst}
use coldtrace.Entry.Kind.{is_type_valid, with_stack}
use coldtrace.Entry.Layout.{fixed_size}
use coldtrace.Entry.Sizes.{fixed_size-lem}
use coldtrace.Sys.{Sys, World}
use coldtrace.Writer.Files.{first_fragment}
use coldtrace.Writer.Defs.{frag_hdr_size, Io, set_failed, validate_trace_size}
use coldtrace.Writer.Ops.{
  ensure_buffer, open_enabled, open_disabled, open_compressed, opened_fragment, writer_reserve,
  reserve_after, reserve_in, writer_new_trace, take_map, ticked, take_comp_buf,
}
use coldtrace.Writer.Invariant.{IsValid, fail-off}
use coldtrace.Thread.Defs.{
  Self, set_bottom, append_to, thread_append, append_plain, append_stack, write_plain, write_stack,
  entry_bottom,
}
use coldtrace.Thread.Record.{with_bottom}
use coldtrace.Thread.Stack.{get_thread-id}

-- An opening that fails leaves no buffer.
record IsGone (r : Bool × Io) : Type 0 where
  gone : r.0 ≡ false → is_some r.1.impl.buffer ≡ false

opened_fragment-IsGone :
    (sys : Sys) (io : Io) (r : Bool × (ℕ × World)) → IsGone (opened_fragment sys io r)
opened_fragment-IsGone sys io (true, (e, w)) = record { gone = λ h. absurd (no_bool (sym h)) }
opened_fragment-IsGone sys io (false, (e, w)) = record {
  gone = λ h. (fail-off (record io { impl = record (io.impl) { enumerator = e }; world = w })).1;
}

open_compressed-IsGone : (sys : Sys) (io : Io) → IsGone (open_compressed sys io)
unfolding open_compressed
open_compressed-IsGone sys io =
    let io' = take_comp_buf (frag_hdr_size + sys.compress_bound io.impl.size) (ticked io) in
    if_split IsGone (sys.malloc_ok io.world.ticks)
      (λ _.
        opened_fragment-IsGone sys io'
          (first_fragment sys io'.impl.tid io'.impl.enumerator io'.world))
      (λ _. record { gone = λ h. (fail-off (ticked io)).1 })

open_enabled-IsGone : (sys : Sys) (io : Io) → IsGone (open_enabled sys io)
unfolding open_enabled
open_enabled-IsGone sys io =
    if_split IsGone (sys.mmap_ok io.world.ticks)
      (λ _. open_compressed-IsGone sys (take_map (λ _. 0) (ticked io)))
      (λ _. record { gone = λ h. refl })

open_disabled-IsGone :
    (sys : Sys) (io : Io) → is_some io.impl.buffer ≡ false → IsGone (open_disabled sys io)
unfolding open_disabled
open_disabled-IsGone sys io none_yet =
    if_split IsGone (sys.mempool_ok io.world.ticks)
      (λ _. record { gone = λ h. absurd (no_bool (sym h)) }) (λ _. record { gone = λ h. none_yet })

-- A writer that takes no entries has no buffer.
off_gone :
    (io : Io)
    → IsValid io
    → (is_some io.impl.buffer ≡ true → false ≡ true)
    → is_some io.impl.buffer ≡ false
off_gone io v never = elim (Bool-cases (is_some io.impl.buffer)) [
  | inl b ↦ absurd (no_bool (never b))
  | inr b ↦ b
]

ensure_buffer-IsGone : (sys : Sys) (io : Io) → IsValid io → IsGone (ensure_buffer sys io)
unfolding ensure_buffer
ensure_buffer-IsGone sys io v =
    let size = io.world.config.trace_size in
    let disabled = io.world.config.disable_writes in
    let io' : Io = record io {
      impl = record (io.impl) { size = size; offset = 0; enumerator = 0 };
    } in
    if_split IsGone (not io.impl.initd)
      (λ i. record { gone = λ h. off_gone io v (λ b. ground (arith, (v.opened b).initd)) })
      (λ i.
        if_split IsGone io.impl.failed
          (λ f. record { gone = λ h. off_gone io v (λ b. ground (arith, (v.opened b).failed)) })
          (λ f.
            if_split IsGone (is_some io.impl.buffer)
              (λ b. record { gone = λ h. absurd (no_bool (sym h)) })
              (λ b.
                if_split IsGone (not (validate_trace_size size (not disabled)))
                  {x = (false, set_failed io')} (λ bad. record { gone = λ h. b })
                  (λ ok.
                    if_split IsGone disabled {x = open_disabled sys io'} {y = open_enabled sys io'}
                      (λ d. open_disabled-IsGone sys io' b) (λ d. open_enabled-IsGone sys io')))))

reserve_in-gone :
    (sys : Sys) (io : Io) (n : ℕ)
    → (reserve_in sys io n).0 ≡ none
    → is_some (reserve_in sys io n).1.impl.buffer ≡ false
unfolding reserve_in
reserve_in-gone sys io n h = ground arith

reserve_after-gone :
    (sys : Sys) (n : ℕ) (r : Bool × Io)
    → IsGone r
    → (reserve_after sys n r).0 ≡ none
    → is_some (reserve_after sys n r).1.impl.buffer ≡ false
reserve_after-gone sys n (true, io) g h = reserve_in-gone sys io n h
reserve_after-gone sys n (false, io) g h = g.gone refl

reserve-gone :
    (sys : Sys) (io : Io) (n : ℕ)
    → IsValid io
    → (writer_reserve sys io n).0 ≡ none
    → is_some (writer_reserve sys io n).1.impl.buffer ≡ false
unfolding writer_reserve
reserve-gone sys io n v h = reserve_after-gone sys n _ (ensure_buffer-IsGone sys io v) h

-- What an append leaves: the flag of the call stack, and no buffer where an entry of a valid type is
-- dropped although that stack could always grow.
pub record Settled (type : ℕ) (s : Self) (x : Option ℕ × Self) : Type 0 where
  pub failed : x.1.thread.failed ≡ s.thread.failed
  pub gone :
      x.0 ≡ none
      → s.thread.failed ≡ false
      → is_type_valid type ≡ true
      → is_some x.1.io.impl.buffer ≡ false

plain-Settled :
    (type ptr : ℕ) (s t : Self) (x : Option ℕ × Io)
    → t.thread.failed ≡ s.thread.failed
    → (x.0 ≡ none → is_some x.1.impl.buffer ≡ false)
    → Settled type s (write_plain type ptr t x)
plain-Settled type ptr s t (none, io) same gone = record {
  failed = same;
  gone = λ e f v. gone refl;
}
plain-Settled type ptr s t (some e, io) same gone = record {
  failed = same;
  gone = λ e f v. absurd (no_bool (sym (ap is_some e)));
}

stack-Settled :
    (type ptr len b : ℕ) (s : Self) (x : Option ℕ × Io)
    → (x.0 ≡ none → is_some x.1.impl.buffer ≡ false)
    → Settled type s (write_stack type ptr len b s x)
stack-Settled type ptr len b s (none, io) gone = record { failed = refl; gone = λ e f v. gone refl }
stack-Settled type ptr len b s (some e, io) gone = record {
  failed = refl;
  gone = λ e f v. absurd (no_bool (sym (ap is_some e)));
}

module _ (sys : Sys) (type ptr : ℕ) (s : Self) (v : IsValid s.io) where
  append_plain-Settled : (len : ℕ) → Settled type s (append_plain sys type ptr len s)
  unfolding append_plain
  append_plain-Settled len =
      subst (λ t. Settled type s (write_plain type ptr t (writer_reserve sys t.io len)))
        (sym (with_bottom (writer_new_trace s.io len) s))
        (plain-Settled type ptr s
          (set_bottom (if writer_new_trace s.io len then 0 else s.thread.stack_bottom) s)
          (writer_reserve sys s.io len) refl (reserve-gone sys s.io len v))

  append_stack-Settled : (len : ℕ) → Settled type s (append_stack sys type ptr len s)
  unfolding append_stack
  append_stack-Settled len =
      stack-Settled type ptr len (entry_bottom s len) s _ (reserve-gone sys s.io _ v)

  append_to-Settled : type < 256 → Settled type s (append_to sys type ptr s)
  unfolding append_to
  append_to-Settled small =
      let ((_, positive), _, _, _) = fixed_size-lem type small in
      if_split (Settled type s) s.thread.failed
        (λ f. record { failed = refl; gone = λ e g u. absurd (no_bool (sym g ∙ f)) })
        (λ f.
          if_split (Settled type s) (fixed_size type == 0)
            (λ z. record { failed = refl; gone = λ e g u. absurd (ground (arith, positive)) })
            (λ z.
              if_split (Settled type s) (with_stack type)
                (λ _. append_stack-Settled (fixed_size type))
                (λ _. append_plain-Settled (fixed_size type))))

pub thread_append-Settled :
    (sys : Sys) {s : Self} (type ptr : ℕ)
    → s.thread.initd ≡ true
    → IsValid s.io
    → type < 256
    → Settled type s (thread_append sys type ptr s)
unfolding thread_append
thread_append-Settled sys {s} type ptr i v small =
    rw (get_thread-id s i) (append_to-Settled sys type ptr s v small)
