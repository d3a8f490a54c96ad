-- ===== src/Subs/Index.antt =====
-- The atomic index of an entry, as a subscriber takes it from src/counters.c and a reader finds it.
use coldtrace.Prelude.{
  ℕ, ◌+◌, ◌/◌, ◌%◌, ◌^◌, ◌<◌, ◌≡◌, refl, sym, ap, ◌∙◌, Bool, true, false, Option, none, some, List,
  ◌==◌, ◌||◌, if◌then◌else◌, if_split, arith, not,
}
use mathlib.Core.Path.{subst}
use coldtrace.Entry.Kind.{is_type_valid, with_stack}
use coldtrace.Entry.Header.{entry_init, parse_type, Buf}
use coldtrace.Prelude.Bits.{all_below, of_all_below}
use coldtrace.Entry.Layout.{fixed_size, word_size, is_atomic, parse_atomic_index}
use coldtrace.Entry.RoundTrip.{parse-entry_init}
use coldtrace.Entry.Sizes.{fixed_size-lem}
use coldtrace.Sys.{Sys, store, Mem}
use coldtrace.Writer.Defs.{Io, words}
use coldtrace.Writer.Ops.{writer_reserve, writer_new_trace}
use coldtrace.Writer.Reserve.{IsSmall, writer_reserve-Reserved}
use coldtrace.Thread.Defs.{Self, set_bottom, append_to, thread_append, append_plain, write_plain}
use coldtrace.Thread.Read.{Seen, view}
use coldtrace.Thread.Sound.{IsSound}
use coldtrace.Thread.Last.{Last}
use coldtrace.Thread.Append.{Appended}
use coldtrace.Thread.Record.{with_bottom}
use coldtrace.Thread.Record.{append_to-Appended}
use coldtrace.Thread.Stack.{get_thread-id}
use coldtrace.Subs.Counters.{next_atomic_idx}
use coldtrace.Subs.Fill.{append_atomic, append_and, and_fill, fill_atomic}

-- Neither an entry that is placed nor one that is dropped takes an index by itself.
abbrev SameIndex : Self → Option ℕ × Self → Type 0
SameIndex s x = x.1.io.world.next_atomic_index ≡ s.io.world.next_atomic_index

plain_world :
    (type ptr : ℕ) (s : Self) (x : Option ℕ × Io)
    → (write_plain type ptr s x).1.io.world ≡ x.1.world
plain_world type ptr s (none, io) = refl
plain_world type ptr s (some e, io) = refl

module _ (sys : Sys) (type ptr : ℕ) {s : Self} {r : List ℕ} {log : List Seen}
    (sound : IsSound s r log) (small : IsSmall s.io (fixed_size type)) where
  append_plain-SameIndex : SameIndex s (append_plain sys type ptr (fixed_size type) s)
  unfolding append_plain
  append_plain-SameIndex =
      let n = fixed_size type in
      let reserved = writer_reserve-Reserved sys s.io n small sound.valid in
      subst (λ t. SameIndex s (write_plain type ptr t (writer_reserve sys t.io n)))
        (sym (with_bottom (writer_new_trace s.io n) s))
        (ap (λ w. w.next_atomic_index)
            (plain_world type ptr
              (set_bottom (if writer_new_trace s.io n then 0 else s.thread.stack_bottom) s)
              (writer_reserve sys s.io n))
          ∙ reserved.shared.next_atomic_index)

  append_to-SameIndex : with_stack type ≡ false → SameIndex s (append_to sys type ptr s)
  unfolding append_to
  append_to-SameIndex plain =
      if_split (SameIndex s) s.thread.failed (λ _. refl)
        (λ _.
          if_split (SameIndex s) (fixed_size type == 0) (λ _. refl)
            (λ _.
              if_split (SameIndex s) (with_stack type) (λ stacked. cc)
                (λ _. append_plain-SameIndex)))

plain_atomic : ℕ → Bool
plain_atomic t = not (is_atomic (t % 128)) || not (with_stack t)

plain_table : all_below 256 plain_atomic ≡ true
unfolding all_below plain_atomic with_stack
plain_table = refl

atomic-plain : (type : ℕ) → type < 256 → is_atomic (type % 128) ≡ true → with_stack type ≡ false
unfolding plain_atomic
atomic-plain type h atomic = ground (arith, of_all_below 256 plain_atomic type plain_table h)

-- The index of an atomic entry is the word behind its header.
parse_atomic_index-word :
    (buf : Buf) (type : ℕ)
    → parse_type buf ≡ type
    → is_atomic type ≡ true
    → parse_atomic_index buf ≡ buf 1
unfolding parse_atomic_index
parse_atomic_index-word buf type p atomic = rw p (ground arith)

-- What a filled atomic entry is to a reader
filled-index :
    (m : Mem) (e type ptr b index : ℕ) {r : List ℕ} {log : List Seen}
    → Last m e type ptr b r log
    → is_atomic (type % 128) ≡ true
    → let buf = view (store m (e / word_size + 1) index) e in
      (parse_type buf ≡ type % 128) × (parse_atomic_index buf ≡ index)
filled-index m e type ptr b index l atomic =
    let buf : Buf = view (store m (e / word_size + 1) index) e in
    let first : buf 0 ≡ entry_init type ptr = other_word ∙ l.header in
    let (parsed, _, _, _) = parse-entry_init buf type ptr l.small l.valid first in
    (parsed, parse_atomic_index-word buf (type % 128) parsed atomic ∙ own_word)
  where
    other_word : store m (e / word_size + 1) index (e / word_size + 0) ≡ m (e / word_size)
    other_word = ground arith

    own_word : store m (e / word_size + 1) index (e / word_size + 1) ≡ index
    own_word = ground arith

indexed :
    {s : Self} {type ptr : ℕ} {log : List Seen}
    → is_atomic (type % 128) ≡ true
    → s.io.world.next_atomic_index < 2 ^ 64
    → (x : Option ℕ × Self) → Appended s type ptr log x
    → SameIndex s x
    → let t = and_fill fill_atomic x in
      let index = s.io.world.next_atomic_index in
      (x.0 ≡ none → t.io.world.next_atomic_index ≡ index)
      × ((e : ℕ)
          → x.0 ≡ some e
          → (parse_type (view (words t.io.impl.buffer) e) ≡ type % 128)
            × (parse_atomic_index (view (words t.io.impl.buffer) e) ≡ index)
            × (t.io.world.next_atomic_index ≡ (index + 1) % 2 ^ 64))
unfolding next_atomic_idx
indexed atomic bound (none, t) a same = (λ _. same, λ e h. absurd (ground arith))
indexed {s} {type} {ptr} atomic bound (some e, t) a same =
    let m = words t.io.impl.buffer in
    let index = t.io.world.next_atomic_index % 2 ^ 64 in
    let own : index ≡ s.io.world.next_atomic_index = omega (arith, same) in
    let (parsed, found) = filled-index m e type ptr t.io.impl.offset index (a.last e refl) atomic in
    (
      λ h. absurd (ground arith),
      λ e' h.
          let place : e ≡ e' = ground arith in
          (
            subst (λ k. parse_type (view (store m (e / word_size + 1) index) k) ≡ type % 128) place
                parsed,
            subst (λ k. parse_atomic_index (view (store m (e / word_size + 1) index) k) ≡ index)
                  place found
                ∙ own,
            ap (λ i. (i + 1) % 2 ^ 64) same,
          ),
    )

-- `COLDTRACE_APPEND_OR_RETURN_OK` for an entry of the atomic layout, on a sound thread where no size
-- can wrap: an entry that is dropped takes no index. One that is recorded is given the next index,
-- which a reader finds in it beside its type, and the counter goes up by one.
pub append_atomic-index :
    (sys : Sys) {s : Self} {r : List ℕ} {log : List Seen}
    → IsSound s r log
    → (type ptr : ℕ) → type < 256
    → is_type_valid type ≡ true
    → is_atomic (type % 128) ≡ true
    → s.io.world.config.trace_size < 2 ^ 62
    → s.io.impl.offset < 2 ^ 62
    → s.io.world.next_atomic_index < 2 ^ 64
    → let t = append_atomic sys type ptr s in
      let index = s.io.world.next_atomic_index in
      ((thread_append sys type ptr s).0 ≡ none → t.io.world.next_atomic_index ≡ index)
      × ((e : ℕ)
          → (thread_append sys type ptr s).0 ≡ some e
          → (parse_type (view (words t.io.impl.buffer) e) ≡ type % 128)
            × (parse_atomic_index (view (words t.io.impl.buffer) e) ≡ index)
            × (t.io.world.next_atomic_index ≡ (index + 1) % 2 ^ 64))
unfolding append_atomic append_and thread_append
append_atomic-index sys {s} {r} {log} sound type ptr h valid atomic config offset bound =
    let (_, _, most, _) = fixed_size-lem type h in
    let small : IsSmall s.io (fixed_size type) = record {
      trace_size = config;
      entry = omega arith;
      offset = offset;
    } in
    rw (get_thread-id s sound.initd) (
      indexed atomic bound (append_to sys type ptr s)
        (append_to-Appended sys sound type ptr h config offset)
        (append_to-SameIndex sys type ptr sound small (atomic-plain type h atomic)))
