-- ===== src/Thread/Write.antt =====
-- What `coldtrace_thread_append` of src/thread.c writes into a reserved place: the entry is read back
-- behind the entries before it.
use coldtrace.Prelude.{
  ℕ, ◌+◌, ◌-◌, ◌*◌, ◌/◌, ◌%◌, ◌^◌, ◌≤◌, ◌<◌, ◌≡◌, refl, sym, ap, ◌∙◌, true, false, List, ◌∷◌, ◌++◌,
  slice, length-slice, length, take, arith,
}
use mathlib.Core.Path.{ap₂}
use coldtrace.Entry.Kind.{is_type_valid, with_stack}
use coldtrace.Entry.Header.{entry_init}
use coldtrace.Entry.Layout.{
  fixed_size, word_size, stack_diff_size, pack_diff, diff_bytes, diff_popped,
}
use coldtrace.Entry.Sizes.{diff_word, fixed_size-lem}
use coldtrace.Sys.{Mem, store}
use coldtrace.Thread.Defs.{copy_words, frame_count}
use coldtrace.Thread.Memory.{
  SameBelow, store-SameBelow, copy_words-SameBelow, slice-copy_words, slice-append,
}
use coldtrace.Thread.Last.{Last}
use coldtrace.Thread.Read.{
  Laid, Seen, entry_end, stack_after, read_stack, diff_at, Laid-SameBelow, Laid-aligned,
}

-- The memory with a header and with the entry of a type with a stack, as they are written.
abbrev pub with_header : Mem → (e type ptr : ℕ) → Mem
with_header m e type ptr = store m (e / word_size) (entry_init type ptr)

abbrev pub with_frames : Mem → (e type ptr len bottom top : ℕ) → List ℕ → Mem
with_frames m e type ptr len bottom top frames =
    let diff = (e + len - stack_diff_size) / word_size in
    copy_words (store (with_header m e type ptr) diff (pack_diff bottom top)) (diff + 1) frames

store_at : (m : Mem) (i v : ℕ) → store m i v i ≡ v
store_at m i v = ground arith

-- An entry without a stack: the reader's stack stays.
pub plain-Last :
    {m : Mem} {e : ℕ} {r : List ℕ} {log : List Seen} (type ptr : ℕ)
    → Laid m e r log
    → type < 256
    → is_type_valid type ≡ true
    → with_stack type ≡ false
    → Last
        (with_header m e type ptr)
        e
        type
        ptr
        (e + fixed_size type)
        r
        (record { type = type; ptr = ptr % 2 ^ 48; stack = r } ∷ log)
plain-Last {m} {e} {r} {log} type ptr l h valid plain = record {
  before = r;
  earlier = log;
  laid = Laid-SameBelow l (store-SameBelow m _ _ _ (omega arith));
  small = h;
  valid = valid;
  header = store_at m (e / word_size) (entry_init type ptr);
  ends = rw plain (omega arith);
  reader = rw plain refl;
  logged = refl;
}

-- The stack diff of an entry, whose bottom is not above its top.
diff_values :
    (bottom top : ℕ)
    → bottom ≤ top
    → top < 2 ^ 32
    → (diff_popped (pack_diff bottom top) ≡ bottom)
      × (diff_bytes (pack_diff bottom top) ≡ (top - bottom) * 8)
      × (frame_count top bottom ≡ top - bottom)
diff_values bottom top le small = (omega arith, omega arith, omega arith)

-- The word of the diff, from the address that the code computes.
diff_index :
    (e type : ℕ)
    → e % 8 ≡ 0
    → type < 256
    → with_stack type ≡ true
    → ((e + fixed_size type - 8) / 8 ≡ e / 8 + diff_word type) × (0 < diff_word type)
diff_index e type al h stacked =
    let (_, whole, _, large) = fixed_size-lem type h in
    let wide = large stacked in (omega arith, omega arith)

module _ (m : Mem) (e type ptr bottom top : ℕ) (frames : List ℕ) where
  abbrev after_entry : Mem
  after_entry = with_frames m e type ptr (fixed_size type) bottom top frames

  abbrev headed : Mem
  headed = with_header m e type ptr

  abbrev diff : ℕ
  diff = (e + fixed_size type - 8) / 8

  abbrev diffed : Mem
  diffed = store headed diff (pack_diff bottom top)

  module _ (al : e % 8 ≡ 0) (h : type < 256) (stacked : with_stack type ≡ true) where
    entry_before : SameBelow (e / word_size) m after_entry
    entry_before j lt =
        let (at, pos) = diff_index e type al h stacked in
        copy_words-SameBelow diffed (diff + 1) frames (e / 8) (omega (arith, at)) j lt
        ∙ store-SameBelow headed diff (pack_diff bottom top) (e / 8) (omega (arith, at)) j lt
        ∙ store-SameBelow m (e / 8) (entry_init type ptr) (e / 8) (omega arith) j lt

    entry_header : after_entry (e / word_size) ≡ entry_init type ptr
    entry_header =
        let (at, pos) = diff_index e type al h stacked in
        copy_words-SameBelow diffed (diff + 1) frames (e / 8 + 1) (omega (arith, at)) (e / 8)
          (omega arith)
        ∙ store-SameBelow headed diff (pack_diff bottom top) (e / 8 + 1) (omega (arith, at)) (e / 8)
            (omega arith)
        ∙ store_at m (e / 8) (entry_init type ptr)

    entry_diff : diff_at after_entry e type ≡ pack_diff bottom top
    entry_diff =
        let (at, pos) = diff_index e type al h stacked in
        ap after_entry (sym at)
        ∙ copy_words-SameBelow diffed (diff + 1) frames (diff + 1) (omega arith) diff (omega arith)
        ∙ store_at headed diff (pack_diff bottom top)

    entry_frames : slice after_entry (e / word_size + diff_word type + 1) (length frames) ≡ frames
    entry_frames =
        let (at, pos) = diff_index e type al h stacked in
        ap (λ i. slice after_entry (i + 1) (length frames)) (sym at)
        ∙ slice-copy_words diffed (diff + 1) frames

-- Where a memory holds the diff and the frames, that is the end of the entry and this is the stack.
module _ (m : Mem) (e type bottom top : ℕ) (stacked : with_stack type ≡ true) (le : bottom ≤ top)
    (small : top < 2 ^ 32) (diff : diff_at m e type ≡ pack_diff bottom top) where
  read_end : e + (fixed_size type + frame_count top bottom * word_size) ≡ entry_end m e type
  read_end =
      let (_, bytes, count) = diff_values bottom top le small in
      let size : frame_count top bottom * word_size ≡ diff_bytes (pack_diff bottom top) =
        omega (arith, bytes, count) in
      rw stacked (ap (λ n. e + (fixed_size type + n)) (size ∙ sym (ap diff_bytes diff)))

  read_calls :
      (stack : Mem) (r : List ℕ)
      → let frames = slice stack bottom (frame_count top bottom) in
        slice m (e / word_size + diff_word type + 1) (length frames) ≡ frames
        → take bottom r ≡ slice stack 0 bottom
        → slice stack 0 top ≡ stack_after m e type r
  read_calls stack r there agreed =
      let (popped, bytes, count) = diff_values bottom top le small in
      let i = e / word_size + diff_word type + 1 in
      let n = frame_count top bottom in
      let w = pack_diff bottom top in
      let words_n : diff_bytes w / word_size ≡ n = omega (arith, bytes, count) in
      let got : slice m i n ≡ slice stack bottom n =
        ap (slice m i) (sym (length-slice stack bottom n)) ∙ there in
      let whole : slice stack 0 bottom ++ slice stack bottom n ≡ slice stack 0 (bottom + n) =
        ap (λ k. slice stack 0 bottom ++ slice stack k n) (omega arith)
        ∙ slice-append stack 0 bottom n in
      let read : read_stack r w m i ≡ slice stack 0 top =
        ap₂ (λ k l. take k r ++ slice m i l) popped words_n
        ∙ ap₂ ◌++◌ agreed got
        ∙ whole
        ∙ ap (slice stack 0) (omega (arith, count)) in
      rw stacked (sym read ∙ ap (λ v. read_stack r v m i) (sym diff))

-- An entry with a stack: the reader keeps the frames below the bottom, and ends with the whole
-- call stack.
pub stack-Last :
    {m : Mem} {e : ℕ} {r : List ℕ} {log : List Seen} (type ptr : ℕ) (stack : Mem) (bottom top : ℕ)
    → Laid m e r log
    → type < 256
    → is_type_valid type ≡ true
    → with_stack type ≡ true
    → bottom ≤ top
    → top < 2 ^ 32
    → take bottom r ≡ slice stack 0 bottom
    → let frames = slice stack bottom (frame_count top bottom) in
      let all = slice stack 0 top in
      Last
        (with_frames m e type ptr (fixed_size type) bottom top frames)
        e
        type
        ptr
        (e + (fixed_size type + frame_count top bottom * word_size))
        all
        (record { type = type; ptr = ptr % 2 ^ 48; stack = all } ∷ log)
stack-Last {m} {e} {r} {log} type ptr stack bottom top l h valid stacked le small agreed =
    let (popped, bytes, count) = diff_values bottom top le small in
    let frames = slice stack bottom (frame_count top bottom) in
    let m' = with_frames m e type ptr (fixed_size type) bottom top frames in
    let (al, _) = Laid-aligned l in
    let diff = entry_diff m e type ptr bottom top frames al h stacked in
    record {
      before = r;
      earlier = log;
      laid = Laid-SameBelow l (entry_before m e type ptr bottom top frames al h stacked);
      small = h;
      valid = valid;
      header = entry_header m e type ptr bottom top frames al h stacked;
      ends = read_end m' e type bottom top stacked le small diff;
      reader =
          read_calls m' e type bottom top stacked le small diff stack r
            (entry_frames m e type ptr bottom top frames al h stacked) agreed;
      logged = refl;
    }
