-- ===== src/Thread/Last.antt =====
-- The last entry of a fragment, which a subscriber fills in place once it is appended.
use coldtrace.Prelude.{
  ℕ, ◌+◌, ◌/◌, ◌%◌, ◌^◌, ◌≤◌, ◌<◌, ◌≡◌, ◌≢◌, refl, sym, ap, ◌∙◌, true, some, List, ◌∷◌, ◌++◌, take,
  Bool-cases, inl, inr, arith,
}
use mathlib.Core.Path.{subst}
use coldtrace.Entry.Kind.{is_type_valid, with_stack}
use coldtrace.Entry.Header.{entry_init}
use coldtrace.Entry.Layout.{word_size, diff_bytes, diff_popped}
use coldtrace.Entry.Sizes.{diff_word}
use coldtrace.Sys.{Mem, store}
use coldtrace.Thread.Memory.{store-SameBelow, slice-eq}
use coldtrace.Thread.Read.{
  Laid, entry, Seen, entry_end, stack_after, read_stack, diff_at, Laid-SameBelow,
}

-- The entry at `e` ends the fragment at `b`.
pub record Last (m : Mem) (e type ptr b : ℕ) (r : List ℕ) (log : List Seen) : Type 0 where
  pub before : List ℕ
  pub earlier : List Seen
  pub laid : Laid m e before earlier
  pub small : type < 256
  pub valid : is_type_valid type ≡ true
  pub header : m (e / word_size) ≡ entry_init type ptr
  pub ends : b ≡ entry_end m e type
  pub reader : r ≡ stack_after m e type before
  pub logged : log ≡ record { type = type; ptr = ptr % 2 ^ 48; stack = r } ∷ earlier

pub Last-Laid :
    {m : Mem} {e type ptr b : ℕ} {r : List ℕ} {log : List Seen}
    → Last m e type ptr b r log
    → Laid m b r log
Last-Laid {m} {e} {type} {ptr} {b} {r} l =
    subst (λ k. Laid m b r k) (sym l.logged)
      (entry l.laid type ptr l.small l.valid l.header l.ends l.reader)

pub Last-at :
    {m : Mem} {e type ptr b b' : ℕ} {r : List ℕ} {log : List Seen}
    → b' ≡ b
    → Last m e type ptr b r log
    → Last m e type ptr b' r log
Last-at {m} {e} {type} {ptr} {r = r} {log = log} h l =
    subst (λ k. Last m e type ptr k r log) (sym h) l

pub Last-some :
    {m : Mem} {e e' type ptr b : ℕ} {r : List ℕ} {log : List Seen}
    → some e ≡ some e'
    → Last m e type ptr b r log
    → Last m e' type ptr b r log
Last-some {m} {type = type} {ptr = ptr} {b = b} {r = r} {log = log} h l =
    subst (λ k. Last m k type ptr b r log) (ground arith) l

-- The words of an entry that are fields of their own: behind the header, and before the stack diff.
abbrev pub IsField : (type i : ℕ) → Type 0
IsField type i = (0 < i) × (i ≤ diff_word type) × (with_stack type ≡ true → i < diff_word type)

store_other : (m : Mem) (i v j : ℕ) → j ≢ i → store m i v j ≡ m j
store_other m i v j h = ground arith

module _ (m : Mem) (e type i v : ℕ) (field : IsField type i) where
  abbrev filled : Mem
  filled = store m (e / word_size + i) v

  filled_diff : with_stack type ≡ true → diff_at filled e type ≡ diff_at m e type
  filled_diff stacked =
      store_other m (e / 8 + i) v (e / 8 + diff_word type) (λ h. omega (arith, field.2 stacked))

  filled_end : entry_end filled e type ≡ entry_end m e type
  filled_end = elim (Bool-cases (with_stack type)) [
    | inl stacked ↦ rw (stacked, filled_diff stacked) refl
    | inr plain ↦ rw plain refl
  ]

  filled_reader : (r : List ℕ) → stack_after filled e type r ≡ stack_after m e type r
  filled_reader r = elim (Bool-cases (with_stack type)) [
    | inr plain ↦ rw plain refl
    | inl stacked ↦
        let at = e / word_size + diff_word type + 1 in
        let w = diff_at m e type in
        rw stacked (
          ap (λ u. read_stack r u filled at) (filled_diff stacked)
          ∙ ap (λ ws. take (diff_popped w) r ++ ws)
              (slice-eq at (diff_bytes w / word_size)
                (λ j le lt. store_other m (e / 8 + i) v j (λ h. omega (arith, field.2 stacked)))))
  ]

-- A field that is written leaves the entry where it is, and what a reader gets of it.
pub Last-store :
    {m : Mem} {e type ptr b : ℕ} {r : List ℕ} {log : List Seen} (i v : ℕ)
    → IsField type i
    → Last m e type ptr b r log
    → Last (store m (e / word_size + i) v) e type ptr b r log
Last-store {m} {e} {type} i v field l = record {
  before = l.before;
  earlier = l.earlier;
  laid = Laid-SameBelow l.laid (store-SameBelow m (e / 8 + i) v (e / 8) (omega arith));
  small = l.small;
  valid = l.valid;
  header =
      store-SameBelow m (e / 8 + i) v (e / 8 + i) (omega arith) (e / 8) (omega (arith, field.0))
      ∙ l.header;
  ends = l.ends ∙ sym (filled_end m e type i v field);
  reader = l.reader ∙ sym (filled_reader m e type i v field l.before);
  logged = l.logged;
}
