-- ===== src/Subs/Layouts.antt =====
-- The layouts of the entries against the fields that the subscribers write, for every type.
use coldtrace.Prelude.{ℕ, ◌%◌, ◌<◌, ◌≡◌, refl, Bool, true, arith, ◌==◌, ◌||◌, not, if◌then◌else◌}
use coldtrace.Entry.Kind
use coldtrace.Entry.Kind.{is_type_valid, with_stack}
use coldtrace.Entry.Layout.{fixed_size, is_alloc, is_access, is_atomic_access, is_atomic}
use coldtrace.Prelude.Bits.{all_below, of_all_below}
use coldtrace.Subs.Fill.{
  set_field, fill_access, fill_alloc, fill_free, fill_atomic, fill_atomic_access,
}
use coldtrace.Subs.Pthread.{fill_thread_start, fill_create}
use coldtrace.Subs.Filling.{IsFill-one, IsFill-create, IsFill-index, IsFill-two, IsFill-three}
use coldtrace.Subs.Filled.{IsFill, is_field}

-- The last field of each layout lies before the stack diff or the end.
good_fields : ℕ → Bool
good_fields type =
    let t = type % 128 in
    not (is_type_valid type)
    || (if is_alloc t || t == Kind.thread_start
        then is_field type 3
        else if t == Kind.free || is_access t || is_atomic_access t
        then is_field type 2
        else if is_atomic t
        then is_field type 1
        else true)

fields_table : all_below 256 good_fields ≡ true
unfolding all_below good_fields is_field fixed_size is_type_valid with_stack
fields_table = refl

layout_fields :
    (type : ℕ)
    → type < 256
    → is_type_valid type ≡ true
    → let t = type % 128 in
      ((is_alloc t || t == Kind.thread_start) ≡ true → is_field type 3 ≡ true)
      × ((t == Kind.free || is_access t || is_atomic_access t) ≡ true → is_field type 2 ≡ true)
      × (is_atomic t ≡ true → is_field type 1 ≡ true)
unfolding good_fields
layout_fields type h valid =
    let facts = of_all_below 256 good_fields type fields_table h in
    (ground (arith, facts), ground (arith, facts), ground (arith, facts))

-- Every way in which the subscribers fill an entry, on every type of the layout it is for, with the
-- zero flag or without, keeps the thread sound and the entry the last of its
-- fragment: an entry of a creation and of a fence has the layout of one with an atomic index.
pub layout-IsFill :
    (type : ℕ)
    → type < 256
    → is_type_valid type ≡ true
    → let t = type % 128 in
      (is_alloc t ≡ true → (size pc : ℕ) → IsFill type (fill_alloc size pc))
      × (t ≡ Kind.free → (pc : ℕ) → IsFill type (fill_free pc))
      × (is_access t ≡ true → (size pc : ℕ) → IsFill type (fill_access size pc))
      × (is_atomic_access t ≡ true → (size index : ℕ) → IsFill type (fill_atomic_access size index))
      × (is_atomic t ≡ true → IsFill type fill_atomic)
      × (t ≡ Kind.thread_start → (ptr size : ℕ) → IsFill type (fill_thread_start ptr size))
      × (is_atomic t ≡ true → IsFill type fill_create)
      × (is_atomic t ≡ true → (index : ℕ) → IsFill type (λ e s. set_field e 1 index s))
layout-IsFill type h valid =
    let (three, two, one) = layout_fields type h valid in
    (
      λ e. (IsFill-three (three (ground (arith, e)))).0,
      λ e. (IsFill-two (two (ground (arith, e)))).2,
      λ e. (IsFill-two (two (ground (arith, e)))).0,
      λ e. (IsFill-two (two (ground (arith, e)))).1,
      λ e. IsFill-one (one e),
      λ e. (IsFill-three (three (ground (arith, e)))).1,
      λ e. IsFill-create (one e),
      λ e. IsFill-index (one e),
    )
