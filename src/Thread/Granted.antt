-- ===== src/Thread/Granted.antt =====
-- `coldtrace_thread_append` of src/thread.c from the answer of the writer on.
use coldtrace.Prelude.{
  ℕ, ◌+◌, ◌^◌, ◌≤◌, ◌<◌, ◌≡◌, ◌⊎◌, refl, ap, ◌∙◌, inl, inr, true, false, Option, none, some, List,
  is_some, if_split, Bool-cases, arith,
}
use coldtrace.Entry.Kind.{is_type_valid, with_stack}
use coldtrace.Entry.Layout.{fixed_size}
use coldtrace.Sys.{Sys}
use coldtrace.Writer.Defs.{Io}
use coldtrace.Writer.Ops.{writer_reserve, writer_new_trace}
use coldtrace.Writer.Frame.{Touches}
use coldtrace.Writer.Invariant.{IsValid}
use coldtrace.Writer.Reserve.{IsSmall, writer_reserve-Reserved}
use coldtrace.Writer.Lifetime.{writer_reserve-off}
use coldtrace.Thread.Defs.{Self, set_bottom, write_plain, stack_bytes, write_stack}
use coldtrace.Thread.Read.{Seen}
use coldtrace.Thread.Sound.{IsSound, is_on}
use coldtrace.Thread.Place.{Placed, reserve-Placed, bottom_for, reserve_gone}
use coldtrace.Thread.Append.{Appended, plain_written, stack_written, dropped}

-- What the two ways to write need of a reservation.
pub record Granted (s : Self) (log : List Seen) (n b : ℕ) (x : Option ℕ × Io) : Type 0 where
  pub valid : IsValid x.1
  pub tid : x.1.impl.tid ≡ s.io.impl.tid
  pub shared : Touches s.io.impl.tid s.io.world x.1.world
  pub bounded : x.1.impl.offset < 2 ^ 62
  pub buffer : is_some x.1.impl.buffer ≡ is_some x.0
  pub placed : (e : ℕ) → x.0 ≡ some e → Placed s log n b e x.1
  pub closed : x.0 ≡ none → (s.thread.stack_bottom ≡ 0) ⊎ (is_on x.1 ≡ false)

pub bottom_for-le : (s : Self) (n : ℕ) → bottom_for s n ≤ s.thread.stack_bottom
bottom_for-le s n =
    if_split (λ b. b ≤ s.thread.stack_bottom) (writer_new_trace s.io n) (λ _. omega arith)
      (λ _. omega arith)

module _ (s : Self) {r : List ℕ} {log : List Seen} (sound : IsSound s r log) where
  reserve-closed :
      (sys : Sys) (n : ℕ)
      → (writer_reserve sys s.io n).0 ≡ none
      → (s.thread.stack_bottom ≡ 0) ⊎ (is_on (writer_reserve sys s.io n).1 ≡ false)
  reserve-closed sys n h = elim (Bool-cases (is_some s.io.impl.buffer)) [
    | inl there ↦ inr (reserve_gone sys s.io n sound.valid there h)
    | inr gone ↦ elim (sound.closed gone) [
      | inl zero ↦ inl zero
      | inr off ↦
          inr (ap (λ (x : Option ℕ × Io). is_on x.1) (writer_reserve-off sys s.io n off) ∙ off)
    ]
  ]

  pub reserve-Granted :
      (sys : Sys) (n : ℕ)
      → IsSmall s.io n
      → Granted s log n (bottom_for s n) (writer_reserve sys s.io n)
  reserve-Granted sys n small =
      let reserved = writer_reserve-Reserved sys s.io n small sound.valid in
      record {
        valid = reserved.valid;
        tid = reserved.tid;
        shared = reserved.shared;
        bounded = reserved.bounded;
        buffer = reserved.buffer;
        placed = reserve-Placed sys n sound small;
        closed = reserve-closed sys n;
      }

  module _ (type ptr : ℕ) (h : type < 256) (valid : is_type_valid type ≡ true) where
    pub plain-Appended :
        (b : ℕ) (x : Option ℕ × Io)
        → b ≤ s.thread.stack_bottom
        → with_stack type ≡ false
        → Granted s log (fixed_size type) b x
        → Appended s type ptr log (write_plain type ptr (set_bottom b s) x)
    plain-Appended b (none, io) le plain g =
        dropped s sound type ptr h valid b io g.valid g.tid g.shared g.bounded g.buffer
          (omega (arith, sound.bottom))
          (elim (g.closed refl) [ inl zero ↦ inl (omega arith) | inr off ↦ inr off ])
    plain-Appended b (some e, io) le plain g =
        plain_written s sound type ptr h valid e b io g.valid g.tid g.shared g.bounded g.buffer
          plain (g.placed e refl)

    pub stack-Appended :
        (b : ℕ) (x : Option ℕ × Io)
        → with_stack type ≡ true
        → Granted s log (fixed_size type + stack_bytes s.thread.stack_size b) b x
        → Appended s type ptr log (write_stack type ptr (fixed_size type) b s x)
    stack-Appended b (none, io) stacked g =
        dropped s sound type ptr h valid s.thread.stack_bottom io g.valid g.tid g.shared g.bounded
          g.buffer sound.bottom (g.closed refl)
    stack-Appended b (some e, io) stacked g =
        stack_written s sound type ptr h valid e b io g.valid g.tid g.shared g.bounded g.buffer
          stacked (g.placed e refl)
