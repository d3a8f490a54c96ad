-- ===== src/Prelude/Bits.antt =====
-- The bitwise `&` and `|` of C at the masks and shifts that the program uses, as arithmetic.
-- The native operations recur on binary digits with fuel; `and_digit` and `or_digit` drop the fuel.
use Prim.Native.Nat.{
  ℕ, zero, suc, ◌+◌, ◌-◌, ◌*◌, ◌/◌, ◌%◌, ◌^◌, ◌≤◌, ◌<◌, min, max, digits, bit_and, bit_or,
  bit_and-bitwise, bit_or-bitwise,
}
use mathlib.Core.Path.{◌≡◌, refl, ap, ◌∙◌}
use native.Mathlib.Nat.{
  pow-suc, one-le-pow, mod-lt, mod-eq_of_lt, div-add-mod', div-one, div-div-eq-div-mul, mul-one,
  add-mul-mod_self_right,
}
use mathlib.Core.Bool.{Bool, true, ◌&&◌}
use native.Mathlib.Omega.{arith}

-- Two amounts of fuel that both cover `a` give the same digits.
same_digits :
    (z : ℕ → ℕ) (f : ℕ → ℕ → ℕ) (a n m b : ℕ) → a ≤ n → a ≤ m → digits z f n a b ≡ digits z f m a b
same_digits z f zero zero zero b p q = refl
same_digits z f zero zero (suc m) b p q = refl
same_digits z f zero (suc n) zero b p q = refl
same_digits z f zero (suc n) (suc m) b p q = refl
same_digits z f (suc a) zero m b p q = absurd (omega arith)
same_digits z f (suc a) (suc n) zero b p q = absurd (omega arith)
same_digits z f (suc a) (suc n) (suc m) b p q =
    ap (λ t. t * 2 + f (suc a % 2) (b % 2))
      (same_digits z f (suc a / 2) n m (b / 2) (omega arith) (omega arith))

and_digit : (a b : ℕ) → bit_and a b ≡ bit_and (a / 2) (b / 2) * 2 + min (a % 2) (b % 2)
and_digit zero b = omega (arith, bit_and-bitwise 0 b, bit_and-bitwise 0 (b / 2))
and_digit (suc a) b = omega (
  arith,
  bit_and-bitwise (suc a) b,
  bit_and-bitwise (suc a / 2) (b / 2),
  same_digits (λ _. 0) min (suc a / 2) a (suc a / 2) (b / 2) (omega arith) (omega arith),
)

or_digit : (a b : ℕ) → bit_or a b ≡ bit_or (a / 2) (b / 2) * 2 + max (a % 2) (b % 2)
or_digit zero b = omega (arith, bit_or-bitwise 0 b, bit_or-bitwise 0 (b / 2))
or_digit (suc a) b = omega (
  arith,
  bit_or-bitwise (suc a) b,
  bit_or-bitwise (suc a / 2) (b / 2),
  same_digits (λ y. y) max (suc a / 2) a (suc a / 2) (b / 2) (omega arith) (omega arith),
)

-- The last digit of a remainder by an even number.
mod-double : (a p : ℕ) → 0 < p → a % (2 * p) ≡ a / 2 % p * 2 + a % 2
mod-double a p h =
    let low : ℕ = a / 2 % p * 2 + a % 2 in
    let fits : low < 2 * p = omega (arith, mod-lt (a / 2) h) in
    let whole : a ≡ low + a / 2 / p * (2 * p) = omega (arith, div-add-mod' (a / 2) p) in
    ap (λ t. t % (2 * p)) whole ∙ add-mul-mod_self_right low (a / 2 / p) (2 * p) ∙ mod-eq_of_lt fits

bit_and-zero_below : (n a : ℕ) → a ≤ n → bit_and a 0 ≡ 0
bit_and-zero_below n zero h = bit_and-bitwise 0 0
bit_and-zero_below zero (suc a) h = absurd (omega arith)
bit_and-zero_below (suc n) (suc a) h =
    omega (arith, and_digit (suc a) 0, bit_and-zero_below n (suc a / 2) (omega arith))

bit_or-zero_below : (n a : ℕ) → a ≤ n → bit_or a 0 ≡ a
bit_or-zero_below n zero h = bit_or-bitwise 0 0
bit_or-zero_below zero (suc a) h = absurd (omega arith)
bit_or-zero_below (suc n) (suc a) h =
    omega (arith, or_digit (suc a) 0, bit_or-zero_below n (suc a / 2) (omega arith))

-- `a & (2 ^ k - 1)`.
pub bit_and_low : (k a : ℕ) → bit_and a (2 ^ k - 1) ≡ a % 2 ^ k
bit_and_low zero a = omega (arith, bit_and-zero_below a a (omega arith))
bit_and_low (suc k) a =
    let double : 2 ^ suc k ≡ 2 * 2 ^ k = omega (arith, pow-suc 2 k) in
    let pos : 0 < 2 ^ k = one-le-pow k 2 (omega arith) in
    let half : (2 * 2 ^ k - 1) / 2 ≡ 2 ^ k - 1 = omega arith in
    rw double (
      omega (
        arith,
        and_digit a (2 * 2 ^ k - 1),
        ap (bit_and (a / 2)) half,
        bit_and_low k (a / 2),
        mod-double a (2 ^ k) pos,
      ))

-- A mask with `k` zeros at its end.
pub bit_and_high : (k a m : ℕ) → bit_and a (m * 2 ^ k) ≡ bit_and (a / 2 ^ k) m * 2 ^ k
bit_and_high zero a m = omega (arith, ap (λ t. bit_and t m) (div-one a), ap (bit_and a) (mul-one m))
bit_and_high (suc k) a m =
    let double : 2 ^ suc k ≡ 2 * 2 ^ k = omega (arith, pow-suc 2 k) in
    let shifted : m * (2 * 2 ^ k) ≡ 2 * (m * 2 ^ k) = omega arith in
    let half : 2 * (m * 2 ^ k) / 2 ≡ m * 2 ^ k = omega arith in
    rw (double, shifted, ← div-div-eq-div-mul a 2 (2 ^ k))
      (omega
        (arith, and_digit a (2 * (m * 2 ^ k)), ap (bit_and (a / 2)) half, bit_and_high k (a / 2) m))

-- `(q << k) | r` is a sum where `r` fits `k` bits.
pub bit_or_sum : (k q r : ℕ) → r < 2 ^ k → bit_or (q * 2 ^ k) r ≡ q * 2 ^ k + r
bit_or_sum zero q r h =
    let none_left : r ≡ 0 = omega arith in
    rw none_left (omega (arith, bit_or-zero_below (q * 1) (q * 1) (omega arith)))
bit_or_sum (suc k) q r h =
    let double : 2 ^ suc k ≡ 2 * 2 ^ k = omega (arith, pow-suc 2 k) in
    let shifted : q * (2 * 2 ^ k) ≡ 2 * (q * 2 ^ k) = omega arith in
    let half : 2 * (q * 2 ^ k) / 2 ≡ q * 2 ^ k = omega arith in
    rw (double, shifted)
      (omega (
        arith,
        or_digit (2 * (q * 2 ^ k)) r,
        ap (λ t. bit_or t (r / 2)) half,
        bit_or_sum k q (r / 2) (omega (arith, double)),
      ))

-- A property of all numbers below `n`, by evaluation.
unfoldable pub all_below : ℕ → (ℕ → Bool) → Bool
all_below zero p = true
all_below (suc n) p = p n && all_below n p

pub of_all_below : (n : ℕ) (p : ℕ → Bool) (x : ℕ) → all_below n p ≡ true → x < n → p x ≡ true
unfolding all_below
of_all_below zero p x h lt = absurd (omega arith)
of_all_below (suc n) p x h lt = ground (arith, of_all_below n p x)
