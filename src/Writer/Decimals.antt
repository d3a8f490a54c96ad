-- ===== src/Writer/Decimals.antt =====
-- The text that `%d` makes of an id in the file names of src/writer.c: its length, its bytes, and that
-- it gives the id back.
use mathlib.Core.List.{head-eq_of_cons-eq, tail-eq_of_cons-eq}
use mathlib.Core.Path.{ap₂}
use native.Mathlib.Nat.{pow-suc}
use coldtrace.Prelude.{
  ℕ, zero, suc, ◌+◌, ◌-◌, ◌*◌, ◌/◌, ◌%◌, ◌^◌, ◌≤◌, ◌<◌, ◌≡◌, refl, sym, ap, ◌∙◌, inl, inr, Bool,
  true, false, not, ◌&&◌, List, [], ◌∷◌, ◌++◌, length, length-append, decimal, ltb, ◌==◌, if_split,
  Bool-cases, arith,
}
use coldtrace.Writer.Names.{int_text}

-- A byte does not occur in a text.
abbrev pub lacks : ℕ → List ℕ → Bool
lacks c [] = true
lacks c (x ∷ xs) = not (x == c) && lacks c xs

pub not_and : (a b : Bool) → (not a && b) ≡ true → (a ≡ false) × (b ≡ true)
not_and a b h = ground arith

-- The value of a decimal text behind a value
abbrev pub value : ℕ → List ℕ → ℕ
value acc [] = acc
value acc (x ∷ xs) = value (acc * 10 + (x - 48)) xs

pub value-append : (acc : ℕ) (xs ys : List ℕ) → value acc (xs ++ ys) ≡ value (value acc xs) ys
value-append acc [] ys = refl
value-append acc (x ∷ xs) ys = value-append (acc * 10 + (x - 48)) xs ys

pub value-decimal : (fuel n : ℕ) → n < fuel → value 0 (decimal fuel n) ≡ n
value-decimal zero n h = absurd (omega arith)
value-decimal (suc fuel) n h = elim (Bool-cases (ltb n 10)) [
  | inl small ↦ (let low : n < 10 = ground arith in rw small (omega arith))
  | inr large ↦ rw large (
      value-append 0 (decimal fuel (n / 10)) ((48 + n % 10) ∷ [])
      ∙ ap (λ v. v * 10 + (48 + n % 10 - 48)) (value-decimal fuel (n / 10) (ground arith))
      ∙ omega arith)
]

length-decimal : (k fuel n : ℕ) → n < 10 ^ suc k → length (decimal fuel n) ≤ suc k
length-decimal k zero n h = omega arith
length-decimal zero (suc fuel) n h =
    let small : ltb n 10 ≡ true = ground arith in rw small (omega arith)
length-decimal (suc k) (suc fuel) n h =
    if_split (λ (high : List ℕ). length (high ++ (48 + n % 10) ∷ []) ≤ suc (suc k)) (ltb n 10)
      (λ _. omega arith)
      (λ _. omega (
        arith,
        length-append (decimal fuel (n / 10)) ((48 + n % 10) ∷ []),
        length-decimal k fuel (n / 10) (omega (arith, pow-suc 10 (suc k))),
      ))

pub lacks-append :
    (c : ℕ) (xs ys : List ℕ) → lacks c xs ≡ true → lacks c ys ≡ true → lacks c (xs ++ ys) ≡ true
lacks-append c [] ys h g = g
lacks-append c (x ∷ xs) ys h g = ground (arith, lacks-append c xs ys)

-- Digits only
pub lacks-decimal :
    (c fuel n : ℕ) → ((d : ℕ) → d < 10 → ((48 + d) == c) ≡ false) → lacks c (decimal fuel n) ≡ true
lacks-decimal c zero n h = refl
lacks-decimal c (suc fuel) n h =
    let digit : lacks c ((48 + n % 10) ∷ []) ≡ true = rw (h (n % 10) (omega arith)) refl in
    if_split (λ (high : List ℕ). lacks c (high ++ (48 + n % 10) ∷ []) ≡ true) (ltb n 10)
      (λ _. digit)
      (λ _. lacks-append c (decimal fuel (n / 10)) _ (lacks-decimal c fuel (n / 10) h) digit)

-- Two texts that end at the same byte, with neither holding it
pub split-lacks :
    (c : ℕ) (xs ys zs ws : List ℕ)
    → lacks c xs ≡ true
    → lacks c ys ≡ true
    → xs ++ (c ∷ zs) ≡ ys ++ (c ∷ ws)
    → (xs ≡ ys) × (zs ≡ ws)
split-lacks c [] [] zs ws h g e = (refl, tail-eq_of_cons-eq e)
split-lacks c [] (y ∷ ys) zs ws h g e =
    let first : c ≡ y = head-eq_of_cons-eq e in
    let other : (y == c) ≡ false = (not_and (y == c) (lacks c ys) g).0 in absurd (ground arith)
split-lacks c (x ∷ xs) [] zs ws h g e =
    let first : x ≡ c = head-eq_of_cons-eq e in
    let other : (x == c) ≡ false = (not_and (x == c) (lacks c xs) h).0 in absurd (ground arith)
split-lacks c (x ∷ xs) (y ∷ ys) zs ws h g e =
    let rest =
      split-lacks c xs ys zs ws (not_and (x == c) (lacks c xs) h).1
        (not_and (y == c) (lacks c ys) g).1 (tail-eq_of_cons-eq e) in
    (ap₂ (λ u us. u ∷ us) (head-eq_of_cons-eq e) rest.0, rest.1)

-- Texts of ids below 2 ^ 31
int_text_lem : (n : ℕ) → n < 2 ^ 31 → int_text n ≡ decimal (suc n) n
int_text_lem n h =
    let whole : n % 2 ^ 32 ≡ n = omega arith in
    let low : ltb n (2 ^ 31) ≡ true = ground arith in rw (whole, low) refl

pub int_text_injective : (n m : ℕ) → n < 2 ^ 31 → m < 2 ^ 31 → int_text n ≡ int_text m → n ≡ m
int_text_injective n m h g e =
    sym (value-decimal (suc n) n (omega arith))
    ∙ ap (value 0) (sym (int_text_lem n h) ∙ e ∙ int_text_lem m g)
    ∙ value-decimal (suc m) m (omega arith)

pub lacks-int_text :
    (c n : ℕ)
    → ((d : ℕ) → d < 10 → ((48 + d) == c) ≡ false)
    → n < 2 ^ 31
    → lacks c (int_text n) ≡ true
lacks-int_text c n h small = rw (int_text_lem n small) (lacks-decimal c (suc n) n h)

pub length-int_text : (n : ℕ) → length (int_text n) ≤ 11
length-int_text n =
    if_split (λ (text : List ℕ). length text ≤ 11) (ltb (n % 2 ^ 32) (2 ^ 31))
      (λ h. omega (arith, length-decimal 9 (suc (n % 2 ^ 32)) (n % 2 ^ 32) (ground arith)))
      (λ h.
        omega (
          arith,
          length-decimal 9 (suc (2 ^ 32 - n % 2 ^ 32)) (2 ^ 32 - n % 2 ^ 32) (ground arith),
        ))
