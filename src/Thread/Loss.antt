-- ===== src/Thread/Loss.antt =====
-- When `coldtrace_thread_append` of src/thread.c drops an entry.
use coldtrace.Prelude.{
  List, ℕ, ◌+◌, ◌<◌, ◌≡◌, ◌⊎◌, refl, sym, inl, inr, Bool, true, false, not, Option, none, some,
  is_some, ◌==◌, if◌then◌else◌, if_split, arith,
}
use mathlib.Core.Path.{subst}
use coldtrace.Entry.Kind.{is_type_valid, with_stack}
use coldtrace.Entry.Layout.{fixed_size}
use coldtrace.Entry.Sizes.{fixed_size-lem}
use coldtrace.Sys.{Sys, World}
use coldtrace.Writer.Files.{first_fragment}
use coldtrace.Writer.Defs.{frag_hdr_size, Io, set_failed, validate_trace_size}
use coldtrace.Writer.Ops.{
  ensure_buffer, open_enabled, open_compressed, opened_fragment, writer_reserve, reserve_after,
  writer_new_trace, take_map, ticked, take_comp_buf,
}
use coldtrace.Writer.Invariant.{IsValid, fail-off}
use coldtrace.Thread.Defs.{
  Self, set_bottom, append_to, thread_append, append_plain, append_stack, write_plain, write_stack,
  entry_bottom, stack_bytes,
}
use coldtrace.Thread.Sound.{IsSound, is_on}
use coldtrace.Writer.Ensure.{Ensured, ensure_buffer-Ensured}
use coldtrace.Thread.Read.{Seen}
use coldtrace.Thread.Place.{reserve_in_gone}
use coldtrace.Thread.Record.{with_bottom}
use coldtrace.Thread.Stack.{get_thread-id}

-- The result of an opening: a buffer, or a writer that takes no more entries.
record GivesUp (r : Bool × Io) : Type 0 where
  off : r.0 ≡ false → is_on r.1 ≡ false

opened_fragment-GivesUp :
    (sys : Sys) (io : Io) (r : Bool × (ℕ × World)) → GivesUp (opened_fragment sys io r)
opened_fragment-GivesUp sys io (true, (e, w)) = record { off = λ h. cc }
opened_fragment-GivesUp sys io (false, (e, w)) = record {
  off = λ h.
      ground
        (arith, (fail-off (record io { impl = record (io.impl) { enumerator = e }; world = w })).0);
}

open_compressed-GivesUp : (sys : Sys) (io : Io) → GivesUp (open_compressed sys io)
unfolding open_compressed
open_compressed-GivesUp sys io =
    let io' = take_comp_buf (frag_hdr_size + sys.compress_bound io.impl.size) (ticked io) in
    if_split GivesUp (sys.malloc_ok io.world.ticks)
      (λ _.
        opened_fragment-GivesUp sys io'
          (first_fragment sys io'.impl.tid io'.impl.enumerator io'.world))
      (λ _. record { off = λ h. ground (arith, (fail-off (ticked io)).0) })

open_enabled-GivesUp : (sys : Sys) (io : Io) → GivesUp (open_enabled sys io)
unfolding open_enabled
open_enabled-GivesUp sys io =
    if_split GivesUp (sys.mmap_ok io.world.ticks)
      (λ _. open_compressed-GivesUp sys (take_map (λ _. 0) (ticked io)))
      (λ _. record { off = λ h. ground arith })

ensure_buffer-GivesUp :
    (sys : Sys) (io : Io) → io.world.config.disable_writes ≡ false → GivesUp (ensure_buffer sys io)
unfolding ensure_buffer
ensure_buffer-GivesUp sys io enabled =
    let size = io.world.config.trace_size in
    let disabled = io.world.config.disable_writes in
    let io' : Io = record io {
      impl = record (io.impl) { size = size; offset = 0; enumerator = 0 };
    } in
    if_split GivesUp (not io.impl.initd) (λ i. record { off = λ h. ground arith })
      (λ i.
        if_split GivesUp io.impl.failed (λ f. record { off = λ h. ground arith })
          (λ f.
            if_split GivesUp (is_some io.impl.buffer) (λ b. record { off = λ h. cc })
              (λ b.
                if_split GivesUp (not (validate_trace_size size (not disabled)))
                  {x = (false, set_failed io')} (λ bad. record { off = λ h. ground arith })
                  (λ ok.
                    if_split GivesUp disabled {y = open_enabled sys io'} (λ d. cc)
                      (λ d. open_enabled-GivesUp sys io')))))

reserve_after_lost :
    (sys : Sys) (io : Io) (n : ℕ) (r : Bool × Io)
    → Ensured io r
    → GivesUp r
    → (reserve_after sys n r).0 ≡ none
    → is_on (reserve_after sys n r).1 ≡ false
reserve_after_lost sys io n (true, io') en g h = reserve_in_gone sys io' n en.valid en.buffer h
reserve_after_lost sys io n (false, io') en g h = g.off refl

-- A reservation that fails where writing is enabled
writer_reserve-lost :
    (sys : Sys) (io : Io) (n : ℕ)
    → IsValid io
    → io.world.config.disable_writes ≡ false
    → (writer_reserve sys io n).0 ≡ none
    → is_on (writer_reserve sys io n).1 ≡ false
unfolding writer_reserve
writer_reserve-lost sys io n v enabled h =
    reserve_after_lost sys io n (ensure_buffer sys io) (ensure_buffer-Ensured sys io v)
      (ensure_buffer-GivesUp sys io enabled) h

-- The two ways to write: without a place, the state is that of the reservation.
plain_lost :
    (type ptr : ℕ) (s : Self) (x : Option ℕ × Io)
    → (x.0 ≡ none → is_on x.1 ≡ false)
    → (write_plain type ptr s x).0 ≡ none
    → is_on (write_plain type ptr s x).1.io ≡ false
plain_lost type ptr s (none, io) off h = off refl
plain_lost type ptr s (some e, io) off h = absurd (ground arith)

stack_lost :
    (type ptr len b : ℕ) (s : Self) (x : Option ℕ × Io)
    → (x.0 ≡ none → is_on x.1 ≡ false)
    → (write_stack type ptr len b s x).0 ≡ none
    → is_on (write_stack type ptr len b s x).1.io ≡ false
stack_lost type ptr len b s (none, io) off h = off refl
stack_lost type ptr len b s (some e, io) off h = absurd (ground arith)

-- An entry that a sound thread drops, and why
record Drops (type : ℕ) (s : Self) (x : Option ℕ × Self) : Type 0 where
  why :
      x.0 ≡ none → (s.thread.failed ≡ true) ⊎ (is_type_valid type ≡ false) ⊎ (is_on x.1.io ≡ false)

module _ (sys : Sys) (type ptr : ℕ) (s : Self) (v : IsValid s.io)
    (enabled : s.io.world.config.disable_writes ≡ false) where
  append_plain-Drops : (len : ℕ) → Drops type s (append_plain sys type ptr len s)
  unfolding append_plain
  append_plain-Drops len =
      subst (λ t. Drops type s (write_plain type ptr t (writer_reserve sys t.io len)))
        (sym (with_bottom (writer_new_trace s.io len) s))
        (record {
          why = λ h. inr (
              inr (
                plain_lost type ptr
                  (set_bottom (if writer_new_trace s.io len then 0 else s.thread.stack_bottom) s)
                  (writer_reserve sys s.io len) (writer_reserve-lost sys s.io len v enabled) h));
        })

  append_stack-Drops : (len : ℕ) → Drops type s (append_stack sys type ptr len s)
  unfolding append_stack
  append_stack-Drops len = record {
    why = λ h. inr (
        inr (
          stack_lost type ptr len (entry_bottom s len) s
            (writer_reserve sys s.io (len + stack_bytes s.thread.stack_size (entry_bottom s len)))
            (writer_reserve-lost sys s.io
              (len + stack_bytes s.thread.stack_size (entry_bottom s len)) v enabled)
            h));
  }

  append_to-Drops : type < 256 → Drops type s (append_to sys type ptr s)
  unfolding append_to
  append_to-Drops small =
      let ((_, positive), _, _, _) = fixed_size-lem type small in
      if_split (Drops type s) s.thread.failed (λ f. record { why = λ h. inl f })
        (λ f.
          if_split (Drops type s) (fixed_size type == 0)
            (λ z. record { why = λ h. inr (inl (ground (arith, positive))) })
            (λ z.
              if_split (Drops type s) (with_stack type) (λ _. append_stack-Drops (fixed_size type))
                (λ _. append_plain-Drops (fixed_size type))))

-- Where writing is enabled, a sound thread drops an entry only if its call stack could not grow, if
-- the type is unknown, or if its writer, behind the append, is not set up or has failed.
pub thread_append-none :
    (sys : Sys) {s : Self} {r : List ℕ} {log : List Seen}
    → IsSound s r log
    → (type ptr : ℕ) → type < 256
    → s.io.world.config.disable_writes ≡ false
    → (thread_append sys type ptr s).0 ≡ none
    → (s.thread.failed ≡ true)
      ⊎ (is_type_valid type ≡ false)
      ⊎ (is_on (thread_append sys type ptr s).1.io ≡ false)
unfolding thread_append
thread_append-none sys {s} sound type ptr small enabled =
    rw (get_thread-id s sound.initd) (append_to-Drops sys type ptr s sound.valid enabled small).why
