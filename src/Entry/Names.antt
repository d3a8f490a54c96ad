-- ===== src/Entry/Names.antt =====
-- The names that `coldtrace_entry_type_str` of src/entries.c gives.
use text.Mathlib.Text.{◌==◌ as str_eq}
use text.Mathlib.TextEquality.{eq_iff}
use coldtrace.Prelude.{
  ℕ, ◌%◌, ◌<◌, ◌≡◌, ◌≢◌, ◌↔◌, refl, sym, ◌∙◌, ap, Bool, true, not, ◌&&◌, ◌||◌, ◌==◌, ltb, arith,
}
use coldtrace.Prelude.Bits.{all_below, of_all_below}
use coldtrace.Entry.Kind
use coldtrace.Entry.Kind.{is_type_valid, entry_type_str}

own_name : ℕ → ℕ → Bool
own_name i j = not (str_eq (entry_type_str i) (entry_type_str j)) || i == j

own_row : ℕ → Bool
own_row i = all_below 25 (own_name i)

own_table : all_below 25 own_row ≡ true
unfolding all_below own_row own_name entry_type_str
own_table = refl

good_name : ℕ → Bool
good_name t =
    not (is_type_valid t)
    || str_eq (entry_type_str t) (entry_type_str (t % 128))
      && not (str_eq (entry_type_str t) "INVALID_EVENT")
      && ltb (t % 128) Kind.end

name_table : all_below 256 good_name ≡ true
unfolding all_below good_name entry_type_str is_type_valid
name_table = refl

good_name-facts :
    (t : ℕ)
    → t < 256
    → is_type_valid t ≡ true
    → (entry_type_str t ≡ entry_type_str (t % 128))
      × (entry_type_str t ≢ "INVALID_EVENT")
      × (t % 128 < Kind.end)
unfolding good_name
good_name-facts t h valid = ground (
  arith,
  of_all_below 256 good_name t name_table h,
  eq_iff (entry_type_str t) (entry_type_str (t % 128)),
  eq_iff (entry_type_str t) "INVALID_EVENT",
)

own_name-eq : (i j : ℕ) → i < 25 → j < 25 → entry_type_str i ≡ entry_type_str j → i ≡ j
unfolding own_name own_row
own_name-eq i j hi hj e =
    let row : own_row i ≡ true = of_all_below 25 own_row i own_table hi in
    ground
      (arith, of_all_below 25 (own_name i) j row hj, eq_iff (entry_type_str i) (entry_type_str j))

-- Two valid types have the same name exactly if they differ at most in the zero flag, and no valid
-- type has the name of the invalid ones.
pub entry_type_str-injective :
    (s t : ℕ)
    → s < 256
    → t < 256
    → is_type_valid s ≡ true
    → is_type_valid t ≡ true
    → ((entry_type_str s ≡ entry_type_str t) ↔ (s % 128 ≡ t % 128))
      × (entry_type_str s ≢ "INVALID_EVENT")
entry_type_str-injective s t hs ht vs vt =
    let (plain_s, named, small_s) = good_name-facts s hs vs in
    let (plain_t, _, small_t) = good_name-facts t ht vt in
    (
      (
        λ e. own_name-eq (s % 128) (t % 128) small_s small_t (sym plain_s ∙ e ∙ plain_t),
        λ e. plain_s ∙ ap entry_type_str e ∙ sym plain_t,
      ),
      named,
    )
