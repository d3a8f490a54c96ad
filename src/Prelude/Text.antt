-- ===== src/Prelude/Text.antt =====
-- C strings as lists of byte values.
use Prim.Native.String.{String}
use Prim.Native.Char.{code}
use Prim.Native.Nat.{ℕ, zero, suc, ◌+◌, ◌/◌, ◌%◌}
use mathlib.Core.Bool.{Bool, true, false, ◌&&◌}
use mathlib.Core.Logic.{◌≢◌, inl, inr}
use mathlib.Core.Path.{◌≡◌, refl, ap, ◌∙◌}
use native.Mathlib.Omega.{arith}
use mathlib.Core.List.{List, [], ◌∷◌, ◌++◌}
use coldtrace.Prelude.Tests.{ltb, ◌==◌, ==_iff, Bool-cases, if◌then◌else◌}

-- The bytes of a text, if it is ASCII.
abbrev pub codes : String → List ℕ
codes String.[] = []
codes (String.◌∷◌ c s) = code c ∷ codes s

-- `%d` of a number that is not negative
abbrev pub decimal : ℕ → ℕ → List ℕ
decimal zero n = []
decimal (suc fuel) n =
    let high = decimal fuel (n / 10) in (if ltb n 10 then [] else high) ++ (48 + n % 10) ∷ []

-- `strcmp(a, b) == 0`
abbrev pub same_text : List ℕ → List ℕ → Bool
same_text [] [] = true
same_text [] (_ ∷ _) = false
same_text (_ ∷ _) [] = false
same_text (a ∷ xs) (b ∷ ys) = (a == b) && same_text xs ys

pub same_text_refl : (p : List ℕ) → same_text p p ≡ true
same_text_refl [] = refl
same_text_refl (x ∷ p) = ground (arith, same_text_refl p)

and_both : (a b : Bool) → (a && b) ≡ true → (a ≡ true) × (b ≡ true)
and_both a b h = ground arith

pub of_same_text : (p q : List ℕ) → same_text p q ≡ true → p ≡ q
of_same_text [] [] h = refl
of_same_text [] (y ∷ q) h = absurd (ground arith)
of_same_text (x ∷ p) [] h = absurd (ground arith)
of_same_text (x ∷ p) (y ∷ q) h =
    let (e, f) = and_both (x == y) (same_text p q) h in
    let tail = of_same_text p q f in
    let head : x ≡ y = (==_iff x y).0 e in ap (◌∷◌ x) tail ∙ ap (λ z. z ∷ q) head

pub same_text-ne : (p q : List ℕ) → p ≢ q → same_text p q ≡ false
same_text-ne p q ne = elim (Bool-cases (same_text p q)) [
  | inl same ↦ absurd (ne (of_same_text p q same))
  | inr other ↦ other
]
