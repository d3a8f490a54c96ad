-- ===== src/Thread/Memory.antt =====
-- Words that `coldtrace_memcpy` has copied, and those around them.
use coldtrace.Prelude.{
  ℕ, zero, suc, ◌+◌, ◌≤◌, ◌<◌, ◌≡◌, refl, ap, ◌∙◌, List, [], ◌∷◌, ◌++◌, length, take, slice, arith,
}
use mathlib.Core.Path.{ap₂}
use native.Mathlib.Nat.{add-zero, zero-add, suc-add}
use coldtrace.Sys.{Mem, store}
use coldtrace.Thread.Defs.{copy_words}

-- Two memories that agree below a word.
abbrev pub SameBelow : ℕ → Mem → Mem → Type 0
SameBelow b m m' = (j : ℕ) → j < b → m' j ≡ m j

pub store-SameBelow : (m : Mem) (i v b : ℕ) → b ≤ i → SameBelow b m (store m i v)
store-SameBelow m i v b h j lt = ground arith

store_self : (m : Mem) (i v : ℕ) → store m i v i ≡ v
store_self m i v = ground arith

next : (i k : ℕ) → i + suc k ≡ suc i + k
next i k = omega arith

pub copy_words-SameBelow :
    (m : Mem) (i : ℕ) (ws : List ℕ) (b : ℕ) → b ≤ i → SameBelow b m (copy_words m i ws)
copy_words-SameBelow m i [] b h j lt = refl
copy_words-SameBelow m i (w ∷ ws) b h j lt =
    copy_words-SameBelow (store m i w) (suc i) ws b (omega arith) j lt
    ∙ store-SameBelow m i w b h j lt

pub slice-eq :
    {m m' : Mem} (i n : ℕ) → ((j : ℕ) → i ≤ j → j < i + n → m' j ≡ m j) → slice m' i n ≡ slice m i n
slice-eq i zero same = refl
slice-eq {m} {m'} i (suc n) same =
    ap₂ ◌∷◌ (same i (omega arith) (omega arith))
      (slice-eq (suc i) n (λ j le lt. same j (omega arith) (omega arith)))

pub slice-copy_words :
    (m : Mem) (i : ℕ) (ws : List ℕ) → slice (copy_words m i ws) i (length ws) ≡ ws
slice-copy_words m i [] = refl
slice-copy_words m i (w ∷ ws) =
    ap₂ ◌∷◌
      (copy_words-SameBelow (store m i w) (suc i) ws (suc i) (omega arith) i (omega arith)
        ∙ store_self m i w)
      (slice-copy_words (store m i w) (suc i) ws)

pub slice-add : (m : Mem) (a i n : ℕ) → slice (λ j. m (a + j)) i n ≡ slice m (a + i) n
slice-add m a i zero = refl
slice-add m a i (suc n) =
    ap (◌∷◌ (m (a + i))) (slice-add m a (suc i) n ∙ ap (λ k. slice m k n) (omega arith))

pub take-slice : (m : Mem) (i k n : ℕ) → k ≤ n → take k (slice m i n) ≡ slice m i k
take-slice m i zero n h = refl
take-slice m i (suc k) zero h = absurd (omega arith)
take-slice m i (suc k) (suc n) h = ap (◌∷◌ (m i)) (take-slice m (suc i) k n (omega arith))

pub slice-append : (m : Mem) (i k n : ℕ) → slice m i k ++ slice m (i + k) n ≡ slice m i (k + n)
slice-append m i zero n = rw (add-zero, zero-add)
slice-append m i (suc k) n = rw suc-add (
    ap (◌∷◌ (m i))
      (ap (λ a. slice m (suc i) k ++ slice m a n) (next i k) ∙ slice-append m (suc i) k n))
