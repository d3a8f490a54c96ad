-- ===== src/Writer/FirstFragment.antt =====
-- `first_fragment_` of src/writer.c: the search for an enumerator whose file does not exist.
use coldtrace.Prelude.{
  ℕ, zero, suc, ◌+◌, ◌%◌, ◌^◌, ◌≤◌, ◌<◌, ◌≡◌, ◌≢◌, ◌⊎◌, refl, true, false, some, [], is_some, arith,
}
use native.Mathlib.Nat.{add-zero}
use coldtrace.Sys.{Sys, World, tick, set_file}
use coldtrace.Writer.Files.{first_loop, open_rounds, first_fragment}

-- The world after the search has made `n` calls in vain and then created the file.
abbrev created : World → ℕ → ℕ → ℕ → World
created w n tid e = record w { ticks = w.ticks + n + 1; files = set_file w.files tid e (some []) }

shift : (a n : ℕ) → a + suc n ≡ a + 1 + n
shift a n = omega arith

module _ (sys : Sys) (tid : ℕ) where
  first_loop-created :
      (d fuel start : ℕ) (w : World)
      → d < fuel
      → start + d < 2 ^ 32
      → ((n : ℕ) → n ≤ d → sys.open_ok (w.ticks + n) ≡ true)
      → ((n : ℕ) → n < d → is_some (w.files tid (start + n)) ≡ true)
      → is_some (w.files tid (start + d)) ≡ false
      → first_loop sys fuel tid start w ≡ some (true, (start + d, created w d tid (start + d)))
  unfolding first_loop
  first_loop-created d zero start w h small ok taken free = absurd (omega arith)
  first_loop-created zero (suc fuel) start w h small ok taken free =
      let opens : sys.open_ok w.ticks ≡ true = rw add-zero at (ok 0 (omega arith)) in
      let absent : is_some (w.files tid start) ≡ false = rw add-zero at free in
      rw (opens, absent, first_loop) (simp add-zero)
  first_loop-created (suc d) (suc fuel) start w h small ok taken free =
      let opens : sys.open_ok w.ticks ≡ true = rw add-zero at (ok 0 (omega arith)) in
      let present : is_some (w.files tid start) ≡ true = rw add-zero at (taken 0 (omega arith)) in
      let fits : (start + 1) % 2 ^ 32 ≡ start + 1 = omega arith in
      rw (opens, present, fits, first_loop)
        (rw (shift start d, shift w.ticks d)
          (first_loop-created d fuel (start + 1) (tick w) (omega arith) (omega arith)
            (λ n le. rw (← shift w.ticks n) (ok (suc n) (omega arith)))
            (λ n lt. rw (← shift start n) (taken (suc n) (omega arith)))
            (rw (← shift start d) free)))

  -- If the files numbered from `start` on exist up to a first one that does not, and open does not
  -- fail, `first_fragment_` ends: it creates that file, empty, and returns its number;
  -- no other file changes.
  pub first_fragment-created :
      (d start : ℕ) (w : World)
      → start + d < 2 ^ 32
      → ((n : ℕ) → n ≤ d → sys.open_ok (w.ticks + n) ≡ true)
      → ((n : ℕ) → n < d → is_some (w.files tid (start + n)) ≡ true)
      → is_some (w.files tid (start + d)) ≡ false
      → let (made, (e, w')) = first_fragment sys tid start w in
        (made ≡ true)
        × (e ≡ start + d)
        × (w'.files tid e ≡ some [])
        × ((t n : ℕ) → (t ≢ tid) ⊎ (n ≢ e) → w'.files t n ≡ w.files t n)
  unfolding first_fragment
  first_fragment-created d start w small ok taken free =
      rw (first_loop-created d open_rounds start w (omega arith) small ok taken free)
        (refl, refl, ground arith, λ t n other. ground arith)
