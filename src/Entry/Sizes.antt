-- ===== src/Entry/Sizes.antt =====
-- The sizes and indexes that src/entries.c finds in an entry, against those it was laid out with.
use coldtrace.Prelude.{
  ℕ, ◌+◌, ◌-◌, ◌/◌, ◌%◌, ◌≤◌, ◌<◌, ◌≡◌, ◌≢◌, ◌↔◌, refl, Bool, true, false, ◌&&◌, ◌||◌, not, arith,
  ◌==◌, ltb, leb, if◌then◌else◌,
}
use coldtrace.Prelude.Bits.{all_below, of_all_below}
use coldtrace.Entry.Kind
use coldtrace.Entry.Kind.{is_type_valid, with_stack, stack_label, unflagged}
use coldtrace.Entry.Header.{Buf, entry_init}
use coldtrace.Entry.Layout.{
  fixed_size, space_map, get_size, size_of_type, diff_bytes, parse_alloc_index, parse_atomic_index,
  parse_size, invalid, is_alloc, is_access, word_size,
}
use coldtrace.Entry.RoundTrip.{parse-entry_init, parse_type-eq-end_iff, is_type_valid-lt}

-- The word that holds the stack diff of an entry of this type: the last of its fixed part.
abbrev pub diff_word : ℕ → ℕ
diff_word type = fixed_size type / word_size - 1

-- What the tables say of one type: its fixed part is whole words, it has one exactly if it is valid,
-- and an entry with a stack diff has room for it in word 3 or, for the alloc layout, word 4.
good_layout : ℕ → Bool
good_layout t =
    (fixed_size t % word_size == 0)
    && (ltb 0 (fixed_size t) && is_type_valid t || fixed_size t == 0 && not (is_type_valid t))
    && leb (fixed_size t) 40
    && (if with_stack t then leb 32 (fixed_size t) && is_type_valid t else true)

layout_table : all_below 256 good_layout ≡ true
unfolding all_below good_layout fixed_size is_type_valid with_stack
layout_table = refl

-- A type has a fixed size exactly if it is valid; the size is whole words and at most 40 bytes,
-- and at least 32 where the entry ends in a stack diff.
pub fixed_size-lem :
    (type : ℕ)
    → type < 256
    → ((0 < fixed_size type) ↔ (is_type_valid type ≡ true))
      × (fixed_size type % word_size ≡ 0)
      × (fixed_size type ≤ 40)
      × (with_stack type ≡ true → 32 ≤ fixed_size type)
unfolding good_layout
fixed_size-lem type h = ground (arith, of_all_below 256 good_layout type layout_table)

stack_size_of_type :
    (t word3 word4 : ℕ)
    → size_of_type t word3 word4
      ≡ space_map t
        + (if stack_label t then diff_bytes (if is_alloc t then word4 else word3) else 0)
unfolding size_of_type space_map
stack_size_of_type t word3 word4 = ground arith

-- Where the stack diff of a type stands, and that a flagged type has the layout of the plain one.
good_diff : ℕ → Bool
good_diff t =
    (fixed_size t == space_map (t % 128))
    && (if is_type_valid t then t % 128 == unflagged t else true)
    && (with_stack t && stack_label (t % 128) || not (with_stack t) && not (stack_label (t % 128)))
    && (if with_stack t then diff_word t == (if is_alloc (t % 128) then 4 else 3) else true)

diff_table : all_below 256 good_diff ≡ true
unfolding all_below good_diff fixed_size is_type_valid with_stack
diff_table = refl

-- `coldtrace_entry_get_size` of an entry whose header was packed for a valid type is the type's
-- fixed size, and for a type with a stack the bytes of the addresses that its diff announces.
pub get_size-entry_init :
    (buf : Buf) (type ptr : ℕ)
    → type < 256
    → is_type_valid type ≡ true
    → buf 0 ≡ entry_init type ptr
    → get_size buf
      ≡ fixed_size type + (if with_stack type then diff_bytes (buf (diff_word type)) else 0)
unfolding get_size good_diff
get_size-entry_init buf type ptr h valid e =
    let facts = of_all_below 256 good_diff type diff_table h in
    rw
      ((parse-entry_init buf type ptr h valid e).0, stack_size_of_type (type % 128) (buf 3) (buf 4))
      (ground (arith, facts))

-- An entry whose header holds no valid type has no size, no index and size 0 for an iterator.
pub parse-end :
    (buf : Buf)
    → Kind.end ≤ buf 0 % 128
    → (get_size buf ≡ 0)
      × (parse_size buf ≡ invalid)
      × (parse_alloc_index buf ≡ invalid)
      × (parse_atomic_index buf ≡ invalid)
unfolding get_size size_of_type parse_size parse_alloc_index parse_atomic_index
parse-end buf h = rw ((parse_type-eq-end_iff buf).1 h) (refl, refl, refl, refl)

-- An entry carries an alloc index or an atomic index, never both; it carries neither
-- exactly if it is an access or a marker. (An index of all ones cannot be told from none.)
pub parse_index_lem :
    (buf : Buf) (type ptr : ℕ)
    → type < 256
    → is_type_valid type ≡ true
    → buf 0 ≡ entry_init type ptr
    → buf 1 < invalid
    → buf 2 < invalid
    → let t = type % 128 in
      let has_alloc : Bool = t == Kind.free || is_alloc t in
      let has_none : Bool = is_access t || t == Kind.test_marker in
      ((parse_alloc_index buf ≢ invalid) ↔ (has_alloc ≡ true))
      × ((parse_atomic_index buf ≢ invalid) ↔ ((has_alloc || has_none) ≡ false))
unfolding parse_alloc_index parse_atomic_index
parse_index_lem buf type ptr h valid e small1 small2 =
    rw (parse-entry_init buf type ptr h valid e).0 (ground (arith, is_type_valid-lt type h))
