-- ===== src/Procmaps/Substrings.antt =====
-- Facts on the string functions of src/procmaps.c: when strstr(3) finds a part, and how long a line is.
use mathlib.Core.List.{append-nil}
use native.Mathlib.Omega.{arith}
use coldtrace.Prelude.{
  ℕ, zero, suc, ◌≤◌, ◌≡◌, refl, sym, ap, ◌∙◌, inl, inr, true, List, [], ◌∷◌, ◌++◌, ◌==◌, length,
  length-append, take, Bool-cases, if_split,
}
use coldtrace.Procmaps.Paths.{until, starts_with, contains, get_line}

pub starts_with-append : (p xs : List ℕ) → starts_with p (p ++ xs) ≡ true
starts_with-append [] xs = refl
starts_with-append (x ∷ p) xs = ground (arith, starts_with-append p xs)

starts_with-longer : (p xs ys : List ℕ) → starts_with p xs ≡ true → starts_with p (xs ++ ys) ≡ true
starts_with-longer [] xs ys h = refl
starts_with-longer (a ∷ p) [] ys h = absurd (ground arith)
starts_with-longer (a ∷ p) (x ∷ xs) ys h = ground (arith, starts_with-longer p xs ys)

starts_with-contains : (p xs : List ℕ) → starts_with p xs ≡ true → contains xs p ≡ true
starts_with-contains p [] h = h
starts_with-contains p (x ∷ xs) h = rw h refl

pub contains-before : (xs ys p : List ℕ) → contains xs p ≡ true → contains (xs ++ ys) p ≡ true
contains-before [] ys p h = starts_with-contains p ys (starts_with-longer p [] ys h)
contains-before (x ∷ xs) ys p h = elim (Bool-cases (starts_with p (x ∷ xs))) [
  | inl here ↦ rw (starts_with-longer p (x ∷ xs) ys here) refl
  | inr later ↦ ground (arith, contains-before xs ys p)
]

pub contains-behind : (xs ys p : List ℕ) → contains ys p ≡ true → contains (xs ++ ys) p ≡ true
contains-behind [] ys p h = h
contains-behind (x ∷ xs) ys p h = rw (contains-behind xs ys p h) (ground arith)

pub contains-same : (p : List ℕ) → contains p p ≡ true
contains-same p =
    starts_with-contains p p (ap (starts_with p) (sym (append-nil p)) ∙ starts_with-append p [])

-- A path is shorter than the line that it is cut from.
pub length-until : (c : ℕ) (xs : List ℕ) → length (until c xs) ≤ length xs
length-until c [] = omega arith
length-until c (x ∷ xs) = ground (arith, length-until c xs)

pub length-get_line : (n : ℕ) (xs : List ℕ) → length (get_line n xs).0 ≤ n
length-get_line zero xs = omega arith
length-get_line (suc n) [] = omega arith
length-get_line (suc n) (x ∷ xs) = ground (arith, length-get_line n xs)

-- A line and what is left are the text, and a line of a text that is not empty is not empty.
pub get_line-append : (n : ℕ) (xs : List ℕ) → (get_line n xs).0 ++ (get_line n xs).1 ≡ xs
get_line-append zero xs = refl
get_line-append (suc n) [] = refl
get_line-append (suc n) (x ∷ xs) = elim (Bool-cases (x == 10)) [
  | inl e ↦ rw e refl
  | inr e ↦ rw e (ap (◌∷◌ x) (get_line-append n xs))
]

pub take-short : (n : ℕ) (xs : List ℕ) → length xs ≤ n → take n xs ≡ xs
take-short zero [] h = refl
take-short zero (x ∷ xs) h = absurd (omega arith)
take-short (suc n) [] h = refl
take-short (suc n) (x ∷ xs) h = ap (◌∷◌ x) (take-short n xs (omega arith))

-- What a line leaves: the line takes at least one byte of a text that is not empty.
length-rest : (n : ℕ) (xs : List ℕ) → length (get_line n xs).1 ≤ length xs
length-rest n xs = omega (
  arith,
  ap (λ (l : List ℕ). length l) (get_line-append n xs),
  length-append (get_line n xs).0 (get_line n xs).1,
)

pub length-rest_cons : (n x : ℕ) (xs : List ℕ) → length (get_line (suc n) (x ∷ xs)).1 ≤ length xs
length-rest_cons n x xs =
    if_split (λ (l : List ℕ × List ℕ). length l.1 ≤ length xs) (x == 10) (λ _. omega arith)
      (λ _. length-rest n xs)
