-- ===== src/Thread/Place.antt =====
-- Where `coldtrace_thread_append` of src/thread.c places an entry, and with which stack bottom.
use mathlib.Core.Path.{subst}
use coldtrace.Prelude.{
  ℕ, ◌+◌, ◌≤◌, ◌≡◌, ◌⊎◌, refl, sym, ap, ◌∙◌, inl, inr, Bool, true, false, Option, none, some, List,
  [], slice, take, is_some, if◌then◌else◌, if_split, Bool-cases, arith,
}
use coldtrace.Sys.{Sys}
use coldtrace.Writer.Defs.{Io, words, flush}
use coldtrace.Writer.Ops.{writer_reserve, writer_new_trace, new_trace, reserve_in, reserve_after}
use coldtrace.Writer.Flush.{
  Flushed, kept, lost, flush-Flushed, begin_advance-IsValid, Flushed-IsValid,
}
use coldtrace.Writer.Ensure.{Ensured, ensure_buffer-Ensured}
use coldtrace.Writer.Invariant.{IsValid, fail-off}
use coldtrace.Writer.Lifetime.{writer_reserve-off}
use coldtrace.Writer.Reserve.{IsSmall, writer_reserve-Reserved, writer_reserve-Positioned}
use coldtrace.Thread.Defs.{Self}
use coldtrace.Thread.Read.{Laid, start, Seen}
use coldtrace.Thread.Sound.{IsSound, is_on}

-- The fragment in front of an entry at `e` of `n` bytes that is written with the bottom `b`.
pub record Placed (s : Self) (log : List Seen) (n b e : ℕ) (io : Io) : Type 0 where
  pub before : List ℕ
  pub earlier : List Seen
  pub laid : Laid (words io.impl.buffer) e before earlier
  pub agreed : take b before ≡ slice s.thread.stack 0 b
  pub same_or_none : (earlier ≡ log) ⊎ (earlier ≡ [])
  pub offset : io.impl.offset ≡ e + n
  pub bottom : b ≤ s.thread.stack_size

-- The bottom that counts once the entry's size is known to start a fragment or not
abbrev pub bottom_for : Self → ℕ → ℕ
bottom_for s n = if writer_new_trace s.io n then 0 else s.thread.stack_bottom

module _ (sys : Sys) {s : Self} {r : List ℕ} {log : List Seen} (n : ℕ) (sound : IsSound s r log)
    (small : IsSmall s.io n) where
  first_Placed :
      (e : ℕ)
      → (writer_reserve sys s.io n).0 ≡ some e
      → (is_some s.io.impl.buffer ≡ false) ⊎ (writer_new_trace s.io n ≡ true)
      → bottom_for s n ≡ 0
      → Placed s log n (bottom_for s n) e (writer_reserve sys s.io n).1
  first_Placed e h why zero = record {
    before = [];
    earlier = [];
    laid = start ((writer_reserve-Positioned sys s.io n sound.valid).anew e h why);
    agreed = rw zero refl;
    same_or_none = inr refl;
    offset = ((writer_reserve-Reserved sys s.io n small sound.valid).placed e h).1;
    bottom = rw zero (omega arith);
  }

  behind_Placed :
      (e : ℕ)
      → (writer_reserve sys s.io n).0 ≡ some e
      → is_some s.io.impl.buffer ≡ true
      → writer_new_trace s.io n ≡ false
      → Placed s log n (bottom_for s n) e (writer_reserve sys s.io n).1
  behind_Placed e h there room =
      let same = (writer_reserve-Positioned sys s.io n sound.valid).behind there room in
      let at_end : s.io.impl.offset ≡ e =
        ground (arith, sym (ap (λ (x : Option ℕ × Io). x.0) same) ∙ h) in
      let laid : Laid (words (writer_reserve sys s.io n).1.impl.buffer) s.io.impl.offset r log =
        subst (λ (x : Option ℕ × Io). Laid (words x.1.impl.buffer) s.io.impl.offset r log)
          (sym same) (sound.laid there) in
      record {
        before = r;
        earlier = log;
        laid =
            subst (λ k. Laid (words (writer_reserve sys s.io n).1.impl.buffer) k r log) at_end laid;
        agreed = rw room (sound.agreed there);
        same_or_none = inl refl;
        offset = ((writer_reserve-Reserved sys s.io n small sound.valid).placed e h).1;
        bottom = rw room sound.bottom;
      }

  pub reserve-Placed :
      (e : ℕ)
      → (writer_reserve sys s.io n).0 ≡ some e
      → Placed s log n (bottom_for s n) e (writer_reserve sys s.io n).1
  reserve-Placed e h = elim (Bool-cases (is_some s.io.impl.buffer)) [
    | inl there ↦ elim (Bool-cases (writer_new_trace s.io n)) [
      | inl full ↦ first_Placed e h (inr full) (rw full refl)
      | inr room ↦ behind_Placed e h there room
    ]
    | inr gone ↦ elim (sound.closed gone) [
      | inl zero ↦
          first_Placed e h (inl gone)
            (rw zero (if_split (λ k. k ≡ 0) (writer_new_trace s.io n) (λ _. refl) (λ _. refl)))
      | inr off ↦ absurd (
          ground
            (arith, ap (λ (x : Option ℕ × Io). x.0) (writer_reserve-off sys s.io n off) ∙ refl))
    ]
  ]

-- A fragment that is given up leaves a failed writer.
Flushed-gone :
    {io io' : Io}
    → Flushed io io'
    → is_some io.impl.buffer ≡ true
    → is_some io'.impl.buffer ≡ false
    → is_on io' ≡ false
Flushed-gone (kept w t) there gone = cc
Flushed-gone {io} (lost w t) there gone = ground (arith, (fail-off (record io { world = w })).0)

new_trace_gone :
    (sys : Sys) (io : Io)
    → IsValid io
    → is_some io.impl.buffer ≡ true
    → is_some (new_trace sys io).impl.buffer ≡ false
    → is_on (new_trace sys io) ≡ false
unfolding new_trace
new_trace_gone sys io v there =
    let f = flush-Flushed sys io in
    let b = Flushed-IsValid f v in
    if_split (λ x. is_some x.impl.buffer ≡ false → is_on x ≡ false)
      (is_some (flush sys io).impl.buffer)
      (λ has gone. absurd (ground (arith, (begin_advance-IsValid sys (flush sys io) b has).1)))
      (λ lost _. Flushed-gone f there lost)

pub reserve_in_gone :
    (sys : Sys) (io : Io) (n : ℕ)
    → IsValid io
    → is_some io.impl.buffer ≡ true
    → (reserve_in sys io n).0 ≡ none
    → is_on (reserve_in sys io n).1 ≡ false
unfolding reserve_in
reserve_in_gone sys io n v there h = ground (arith, new_trace_gone sys io v there)

reserve_after_gone :
    (sys : Sys) (io : Io) (n : ℕ)
    → is_some io.impl.buffer ≡ true
    → (x : Bool × Io) → Ensured io x
    → (reserve_after sys n x).0 ≡ none
    → is_on (reserve_after sys n x).1 ≡ false
reserve_after_gone sys io n there (false, io') en h =
    absurd (ground (arith, ap (λ (y : Bool × Io). y.0) (en.old there)))
reserve_after_gone sys io n there (true, io') en h = reserve_in_gone sys io' n en.valid en.buffer h

-- Where there was a buffer and no room is given, the writer takes no more entries.
pub reserve_gone :
    (sys : Sys) (io : Io) (n : ℕ)
    → IsValid io
    → is_some io.impl.buffer ≡ true
    → (writer_reserve sys io n).0 ≡ none
    → is_on (writer_reserve sys io n).1 ≡ false
unfolding writer_reserve
reserve_gone sys io n v there h =
    reserve_after_gone sys io n there _ (ensure_buffer-Ensured sys io v) h
