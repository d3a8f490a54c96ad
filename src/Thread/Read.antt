-- ===== src/Thread/Read.antt =====
-- How the entries of a fragment are read back: the iteration by `coldtrace_entry_get_size` of
-- src/entries.c, and the call stack that a reader (scripts/trace_dump.py) keeps along.
use coldtrace.Prelude.{
  ℕ, ◌+◌, ◌-◌, ◌*◌, ◌/◌, ◌%◌, ◌^◌, ◌≤◌, ◌<◌, ◌≡◌, sym, ap, ◌∙◌, true, List, [], ◌∷◌, ◌++◌, take,
  slice, if◌then◌else◌, Bool-cases, inl, inr, arith,
}
use coldtrace.Entry.Kind.{is_type_valid, with_stack}
use coldtrace.Entry.Header.{Buf, entry_init, parse_type, parse_ptr}
use coldtrace.Entry.Layout.{fixed_size, get_size, diff_bytes, diff_popped, word_size}
use coldtrace.Entry.RoundTrip.{parse-entry_init}
use coldtrace.Entry.Sizes.{diff_word, fixed_size-lem, get_size-entry_init}
use coldtrace.Sys.{Mem}
use coldtrace.Thread.Memory.{SameBelow, slice-eq}

-- The words from the address of an entry on.
abbrev pub view : Mem → ℕ → Buf
view m a i = m (a / word_size + i)

-- `_read_stack`: the frames that are kept, and the addresses that follow the diff.
abbrev pub read_stack : List ℕ → ℕ → Mem → ℕ → List ℕ
read_stack r w m i = take (diff_popped w) r ++ slice m i (diff_bytes w / word_size)

-- What a reader has seen of an entry; the type is the whole low byte, with its flag.
pub record Seen : Type 0 where
  pub type : ℕ
  pub ptr : ℕ
  pub stack : List ℕ

-- The stack diff of an entry at `a`.
abbrev pub diff_at : Mem → ℕ → ℕ → ℕ
diff_at m a type = m (a / word_size + diff_word type)

-- Where an entry of this type at `a` ends, and the reader's stack behind it.
abbrev pub entry_end : Mem → ℕ → ℕ → ℕ
entry_end m a type =
    a + (fixed_size type + (if with_stack type then diff_bytes (diff_at m a type) else 0))

abbrev pub stack_after : Mem → ℕ → ℕ → List ℕ → List ℕ
stack_after m a type r =
    if with_stack type
    then read_stack r (diff_at m a type) m (a / word_size + diff_word type + 1)
    else r

-- The fragment up to `a`, behind its header: the entries that it holds, last first, and the stack of
-- a reader that starts with none.
pub data Laid (m : Mem) : ℕ → List ℕ → List Seen → Type 0 where
  start : {a : ℕ} → a ≡ 8 → Laid m a [] []
  entry :
      {a b : ℕ} {r r' : List ℕ} {log : List Seen}
      → Laid m a r log
      → (type ptr : ℕ) → type < 256
      → is_type_valid type ≡ true
      → m (a / word_size) ≡ entry_init type ptr
      → b ≡ entry_end m a type
      → r' ≡ stack_after m a type r
      → Laid m b r' (record { type = type; ptr = ptr % 2 ^ 48; stack = r' } ∷ log)

-- The end of an entry, in numbers: `f` bytes and then `k` words of frames.
end_facts :
    (a f k : ℕ)
    → a % 8 ≡ 0
    → f % 8 ≡ 0
    → 0 < f
    → (a + 8 ≤ a + (f + k * 8))
      × ((a + (f + k * 8)) % 8 ≡ 0)
      × ((a + (f + k * 8)) / 8 ≡ a / 8 + (f / 8 - 1) + 1 + k)
end_facts a f k al fl pos = (omega arith, omega arith, omega arith)

-- The number of frames in an entry at `a`.
abbrev frames_at : Mem → ℕ → ℕ → ℕ
frames_at m a type = if with_stack type then diff_bytes (diff_at m a type) / word_size else 0

entry_end-eq :
    (m : Mem) (a type : ℕ)
    → entry_end m a type ≡ a + (fixed_size type + frames_at m a type * word_size)
entry_end-eq m a type = elim (Bool-cases (with_stack type)) [
  | inl s ↦ rw s (omega arith)
  | inr p ↦ rw p
]

pub entry_end-facts :
    (m : Mem) (a type : ℕ)
    → type < 256
    → is_type_valid type ≡ true
    → a % 8 ≡ 0
    → (a + 8 ≤ entry_end m a type)
      × (entry_end m a type % 8 ≡ 0)
      × (entry_end m a type / 8 ≡ a / 8 + diff_word type + 1 + frames_at m a type)
entry_end-facts m a type h valid al =
    let (positive, whole, _, _) = fixed_size-lem type h in
    rw (entry_end-eq m a type)
      (end_facts a (fixed_size type) (frames_at m a type) al whole (positive.1 valid))

pub Laid-aligned :
    {m : Mem} {a : ℕ} {r : List ℕ} {log : List Seen} → Laid m a r log → (a % 8 ≡ 0) × (8 ≤ a)
Laid-aligned (start e) = omega arith
Laid-aligned {m} (entry {a} l type ptr h valid hd e s) =
    let (al, le) = Laid-aligned l in
    let (grows, whole, _) = entry_end-facts m a type h valid al in (rw e whole, omega arith)

-- An entry is read the same from a memory that agrees up to its end.
module _ {m m' : Mem} (a type : ℕ) (h : type < 256) (valid : is_type_valid type ≡ true)
    (al : a % 8 ≡ 0) (same : SameBelow (entry_end m a type / word_size) m m') where
  header_same : m' (a / word_size) ≡ m (a / word_size)
  header_same = same _ (omega (arith, entry_end-facts m a type h valid al))

  diff_same : diff_at m' a type ≡ diff_at m a type
  diff_same = same _ (omega (arith, (entry_end-facts m a type h valid al).2))

  entry_end_same : entry_end m' a type ≡ entry_end m a type
  entry_end_same =
      ap (λ w. a + (fixed_size type + (if with_stack type then diff_bytes w else 0))) diff_same

  stack_after_same : (r : List ℕ) → stack_after m' a type r ≡ stack_after m a type r
  stack_after_same r = elim (Bool-cases (with_stack type)) [
    | inr plain ↦ rw plain
    | inl stacked ↦
        let i = a / word_size + diff_word type + 1 in
        let w = diff_at m a type in
        let n = diff_bytes w / word_size in
        let ends : entry_end m a type / 8 ≡ i + n =
          (entry_end-facts m a type h valid al).2 ∙ ap (λ b. i + (if b then n else 0)) stacked in
        rw stacked (
          ap (λ v. read_stack r v m' i) diff_same
          ∙ ap (λ ws. take (diff_popped w) r ++ ws)
              (slice-eq i n (λ j le lt. same j (omega (arith, ends)))))
  ]

-- The entries of a fragment stay as they are while nothing is written in front of `a`.
pub Laid-SameBelow :
    {m m' : Mem} {a : ℕ} {r : List ℕ} {log : List Seen}
    → Laid m a r log
    → SameBelow (a / word_size) m m'
    → Laid m' a r log
Laid-SameBelow (start e) same = start e
Laid-SameBelow {m} {m'} (entry {a} {b} {r} l type ptr h valid hd e s) same =
    let (al, _) = Laid-aligned l in
    let (grows, _, _) = entry_end-facts m a type h valid al in
    let within : SameBelow (entry_end m a type / word_size) m m' = λ j lt. same j (rw e lt) in
    let before : SameBelow (a / word_size) m m' = λ j lt. same j (omega arith) in
    entry (Laid-SameBelow l before) type ptr h valid (header_same a type h valid al within ∙ hd)
      (e ∙ sym (entry_end_same a type h valid al within))
      (s ∙ sym (stack_after_same a type h valid al within r))

-- The iteration of src/entries.c over the entries: `coldtrace_entry_get_size` leads from each to
-- the next, and `coldtrace_entry_parse_type` and `coldtrace_entry_parse_ptr` read what is recorded.
pub data Walk (m : Mem) : ℕ → List Seen → Type 0 where
  start : {a : ℕ} → a ≡ 8 → Walk m a []
  next :
      {a b : ℕ} {log : List Seen}
      → Walk m a log
      → b ≡ a + get_size (view m a)
      → (x : Seen) → parse_type (view m a) ≡ x.type % 128
      → parse_ptr (view m a) ≡ x.ptr
      → Walk m b (x ∷ log)

pub Laid-Walk : {m : Mem} {a : ℕ} {r : List ℕ} {log : List Seen} → Laid m a r log → Walk m a log
Laid-Walk (start e) = Walk.start e
Laid-Walk {m} (entry {a} l type ptr h valid hd e s) =
    let first : view m a 0 ≡ entry_init type ptr = ap m (omega arith) ∙ hd in
    let (t, p, _, _) = parse-entry_init (view m a) type ptr h valid first in
    Walk.next (Laid-Walk l)
      (e ∙ ap (λ n. a + n) (sym (get_size-entry_init (view m a) type ptr h valid first))) _ t p
