-- ===== src/Utils/Clean.antt =====
-- What `ensure_dir_empty` of src/utils.c removes from a directory, and what it leaves.
use coldtrace.Prelude.{
  ℕ, ◌≡◌, refl, ap, sym, ◌∙◌, Bool, true, false, not, ◌&&◌, ◌||◌, List, [], ◌∷◌, if◌then◌else◌,
  Bool-cases, inl, inr, codes, same_text, of_same_text, is_some, arith, none, some, Option, ◌==◌,
  no_bool,
}
use mathlib.Core.List.{tail-eq_of_cons-eq}
use coldtrace.Utils.Defs.{DirEntry, last_dot, has_ext, is_trace, clean}

-- A text ends in another.
abbrev pub ends_with : (xs part : List ℕ) → Bool
ends_with [] part = same_text [] part
ends_with (x ∷ xs) part = same_text (x ∷ xs) part || ends_with xs part

-- A regular file whose name ends in .bin
unfoldable pub is_bin_file : DirEntry → Bool
is_bin_file d = ends_with d.name (codes ".bin") && d.regular

or_false : (b : Bool) → (b || false) ≡ b
or_false b = ground arith

and_mid : (b c : Bool) → (b && false && c) ≡ (false && c)
and_mid b c = ground arith

-- `has_ext` and `last_dot` from the last dot of the rest on
abbrev is_bin_base : Option (List ℕ) → Bool
is_bin_base o = elim o [ none ↦ false | some base ↦ same_text base (codes ".bin") ]

abbrev last_of : (c : ℕ) (cs : List ℕ) → Option (List ℕ) → Option (List ℕ)
last_of c cs o = elim o [ some base ↦ some base | none ↦ if c == 46 then some (c ∷ cs) else none ]

-- Without a dot in the rest, the text is .bin from here on or nowhere.
no_dot :
    (c : ℕ) (cs : List ℕ) (rest : Bool)
    → false ≡ rest
    → is_bin_base (if c == 46 then some (c ∷ cs) else none)
      ≡ (same_text (c ∷ cs) (codes ".bin") || rest)
no_dot c cs rest h =
    let here = same_text (c ∷ cs) (codes ".bin") in
    let base : Bool → Bool = λ b. is_bin_base (if b then some (c ∷ cs) else none) in
    elim (Bool-cases (c == 46)) [
      | inl dot ↦ ap base dot ∙ sym (or_false here) ∙ ap (λ r. here || r) h
      | inr other ↦
          ap base other ∙ h ∙ ap (λ b. (b && same_text cs (codes "bin")) || rest) (sym other)
    ]

-- With a dot in the rest, it is not .bin from here on.
not_here :
    (c : ℕ) (cs base : List ℕ) → last_dot cs ≡ some base → same_text (c ∷ cs) (codes ".bin") ≡ false
not_here c cs base e = elim (Bool-cases (same_text (c ∷ cs) (codes ".bin"))) [
  | inl same ↦
      let rest : cs ≡ codes "bin" =
        tail-eq_of_cons-eq (of_same_text (c ∷ cs) (codes ".bin") same) in
      absurd (no_bool (ap is_some (sym (ap last_dot rest) ∙ e)))
  | inr other ↦ other
]

ends_lem :
    (c : ℕ) (cs : List ℕ) (o : Option (List ℕ))
    → last_dot cs ≡ o
    → is_bin_base o ≡ ends_with cs (codes ".bin")
    → is_bin_base (last_of c cs o) ≡ ends_with (c ∷ cs) (codes ".bin")
ends_lem c cs none e h = no_dot c cs (ends_with cs (codes ".bin")) h
ends_lem c cs (some base) e h =
    h ∙ sym (ap (λ b. b || ends_with cs (codes ".bin")) (not_here c cs base e))

-- The text from the last dot on is .bin exactly if the whole ends so.
has_ext_lem : (xs : List ℕ) → has_ext xs (codes ".bin") ≡ ends_with xs (codes ".bin")
unfolding has_ext
has_ext_lem [] = refl
has_ext_lem (c ∷ cs) = ends_lem c cs (last_dot cs) refl (has_ext_lem cs)

not_named :
    (xs other : List ℕ)
    → ends_with other (codes ".bin") ≡ false
    → ends_with xs (codes ".bin") ≡ true
    → same_text xs other ≡ false
not_named xs other h e = elim (Bool-cases (same_text xs other)) [
  | inl same ↦ absurd (
      no_bool (sym h ∙ ap (λ n. ends_with n (codes ".bin")) (sym (of_same_text xs other same)) ∙ e))
  | inr differ ↦ differ
]

is_trace_lem : (d : DirEntry) → is_trace d ≡ is_bin_file d
unfolding is_trace is_bin_file
is_trace_lem d =
    let ends = ends_with d.name (codes ".bin") in
    elim (Bool-cases ends) [
      | inl e ↦
          rw
            (
              has_ext_lem d.name,
              not_named d.name (codes ".") refl e,
              not_named d.name (codes "..") refl e,
            )
            refl
      | inr e ↦
          rw (has_ext_lem d.name, e)
            (and_mid (not (same_text d.name (codes ".") || same_text d.name (codes "..")))
              d.regular)
    ]

-- The entries that are something else
pub others : List DirEntry → List DirEntry
others [] = []
others (d ∷ ds) = if is_bin_file d then others ds else d ∷ others ds

pub all_removable : (List ℕ → Bool) → List DirEntry → Bool
all_removable remove_ok [] = true
all_removable remove_ok (d ∷ ds) =
    (if is_bin_file d then remove_ok d.name else true) && all_removable remove_ok ds

-- Cleaning succeeds exactly if every regular file whose name ends in .bin can be removed, and then
-- exactly the other entries remain, in order. Whether it succeeds or not, no other entry is removed.
pub clean-others :
    (remove_ok : List ℕ → Bool) (ds : List DirEntry)
    → let (ok, rest) = clean remove_ok ds in
      (ok ≡ all_removable remove_ok ds) × (ok ≡ true → rest ≡ others ds) × (others rest ≡ others ds)
unfolding clean others all_removable
clean-others remove_ok [] = (refl, λ _. refl, refl)
clean-others remove_ok (d ∷ ds) =
    let (succeeds, left, same) = clean-others remove_ok ds in
    elim (Bool-cases (is_bin_file d)) [
      | inr keep ↦
          rw (is_trace_lem d ∙ keep, keep) (succeeds, λ e. ap (◌∷◌ d) (left e), ap (◌∷◌ d) same)
      | inl trace ↦ elim (Bool-cases (remove_ok d.name)) [
        | inl gone ↦ rw (is_trace_lem d ∙ trace, trace, gone) (succeeds, left, same)
        | inr stays ↦ rw (is_trace_lem d ∙ trace, trace, stays) (refl, λ e. cc, rw trace refl)
      ]
    ]
