-- ===== src/Writer/Frame.antt =====
-- What a writer may change of the state that all threads share: files of its own thread.
use coldtrace.Prelude.{
  ℕ, zero, suc, ◌+◌, ◌%◌, ◌^◌, ◌≡◌, ◌≢◌, refl, ◌∙◌, Bool, Option, none, some, List, [], ◌∷◌,
  is_some, length, drop, arith, Bool-cases, inl, inr,
}
use coldtrace.Sys.{Sys, World, WriteResult, wrote, eintr, failed, tick, put_file}
use coldtrace.Writer.Files.{
  append_file, write_loop, finished, write_all, first_loop, first_fragment,
}

-- Nothing but the clock and the files of thread `tid` differs between two worlds; the process has
-- not crashed in between unless the number of files is limited to 0.
pub record Touches (tid : ℕ) (w w' : World) : Type 0 where
  pub config : w'.config ≡ w.config
  pub next_alloc_index : w'.next_alloc_index ≡ w.next_alloc_index
  pub next_atomic_index : w'.next_atomic_index ≡ w.next_atomic_index
  pub crashed : w.config.max_file_count ≢ 0 → w'.crashed ≡ w.crashed
  pub others : (t e : ℕ) → t ≢ tid → w'.files t e ≡ w.files t e

module _ {tid : ℕ} where
  pub Touches-refl : (w : World) → Touches tid w w
  Touches-refl w = record {
    config = refl;
    next_alloc_index = refl;
    next_atomic_index = refl;
    crashed = λ h. refl;
    others = λ t e h. refl;
  }

  pub Touches-trans : {u v w : World} → Touches tid u v → Touches tid v w → Touches tid u w
  Touches-trans a b = record {
    config = b.config ∙ a.config;
    next_alloc_index = b.next_alloc_index ∙ a.next_alloc_index;
    next_atomic_index = b.next_atomic_index ∙ a.next_atomic_index;
    crashed = λ h. b.crashed (rw a.config h) ∙ a.crashed h;
    others = λ t e h. b.others t e h ∙ a.others t e h;
  }

  pub Touches-tick : (w : World) → Touches tid w (tick w)
  Touches-tick w = record {
    config = refl;
    next_alloc_index = refl;
    next_atomic_index = refl;
    crashed = λ h. refl;
    others = λ t e h. refl;
  }

  pub Touches-put_file :
      (w : World) (enumerator : ℕ) (c : Option (List ℕ))
      → Touches tid w (put_file w tid enumerator c)
  Touches-put_file w enumerator c = record {
    config = refl;
    next_alloc_index = refl;
    next_atomic_index = refl;
    crashed = λ h. refl;
    others = λ t e h. ground arith;
  }

-- Of a loop on fuel: what holds of its result, if it ends.
abbrev pub Ends {ℓ} : {A : Type ℓ} → (A → Type 0) → Option A → Type 0
Ends P none = Unit
Ends P (some r) = P r

pub data WriteCase (r : WriteResult) : Type 0 where
  case_wrote : (k : ℕ) → r ≡ wrote k → WriteCase r
  case_eintr : r ≡ eintr → WriteCase r
  case_failed : r ≡ failed → WriteCase r

pub WriteResult-cases : (r : WriteResult) → WriteCase r
WriteResult-cases (wrote k) = case_wrote k refl
WriteResult-cases eintr = case_eintr refl
WriteResult-cases failed = case_failed refl

module _ (tid : ℕ) where
  Ends-Touches :
      {u v : World} (o : Option (Bool × World))
      → Touches tid u v
      → Ends (λ r. Touches tid v r.1) o
      → Ends (λ r. Touches tid u r.1) o
  Ends-Touches none t e = tt
  Ends-Touches (some r) t e = Touches-trans t e

  finished-Touches :
      (w : World) (o : Option (Bool × World))
      → Ends (λ r. Touches tid w r.1) o
      → Touches tid w (finished o w).1
  finished-Touches w none e = Touches-refl w
  finished-Touches w (some r) e = e

module _ (sys : Sys) (tid enumerator : ℕ) where
  pub append_file-Touches :
      (w : World) (k : ℕ) (bytes : List ℕ)
      → Touches tid w (append_file (tick w) tid enumerator k bytes)
  append_file-Touches w k bytes =
      Touches-trans (Touches-tick w) (Touches-put_file (tick w) enumerator _)

  write_loop-Touches :
      (fuel : ℕ) (bytes : List ℕ) (w : World)
      → Ends (λ r. Touches tid w r.1) (write_loop sys fuel tid enumerator bytes w)
  unfolding write_loop
  write_loop-Touches zero bytes w = tt
  write_loop-Touches (suc fuel) [] w = Touches-refl w
  write_loop-Touches (suc fuel) (b ∷ bs) w =
      elim (WriteResult-cases (sys.write_result w.ticks (length (b ∷ bs)))) [
        | case_wrote k e ↦
            rw (e, Ends)
              (Ends-Touches tid _ (append_file-Touches w k (b ∷ bs))
                (write_loop-Touches fuel (drop k (b ∷ bs)) _))
        | case_eintr e ↦
            rw (e, Ends)
              (Ends-Touches tid _ (Touches-tick w) (write_loop-Touches fuel (b ∷ bs) (tick w)))
        | case_failed e ↦ rw (e, Ends) (Touches-tick w)
      ]

  pub write_all-Touches :
      (bytes : List ℕ) (w : World) → Touches tid w (write_all sys tid enumerator bytes w).1
  unfolding write_all
  write_all-Touches bytes w = finished-Touches tid w _ (write_loop-Touches _ bytes w)

module _ (sys : Sys) (tid : ℕ) where
  first_loop-Touches :
      (fuel enumerator : ℕ) (w : World)
      → Ends (λ r. Touches tid w r.1.1) (first_loop sys fuel tid enumerator w)
  unfolding first_loop
  first_loop-Touches zero enumerator w = tt
  first_loop-Touches (suc fuel) enumerator w = elim (Bool-cases (sys.open_ok w.ticks)) [
    | inr refused ↦ rw (refused, Ends) (Touches-tick w)
    | inl ok ↦ elim (Bool-cases (is_some (w.files tid enumerator))) [
      | inr free ↦
          rw (ok, free, Ends)
            (Touches-trans (Touches-tick w) (Touches-put_file (tick w) enumerator _))
      | inl taken ↦
          rw (ok, taken, Ends)
            (later _ (first_loop-Touches fuel ((enumerator + 1) % 2 ^ 32) (tick w)))
    ]
  ]
    where
      later :
          (o : Option (Bool × (ℕ × World)))
          → Ends (λ r. Touches tid (tick w) r.1.1) o
          → Ends (λ r. Touches tid w r.1.1) o
      later none e = tt
      later (some r) e = Touches-trans (Touches-tick w) e

  pub first_fragment-Touches :
      (enumerator : ℕ) (w : World) → Touches tid w (first_fragment sys tid enumerator w).1.1
  unfolding first_fragment
  first_fragment-Touches enumerator w = ended _ (first_loop-Touches _ enumerator w)
    where
      ended :
          (o : Option (Bool × (ℕ × World)))
          → Ends (λ r. Touches tid w r.1.1) o
          → Touches tid w (finished o (enumerator, w)).1.1
      ended none e = Touches-refl w
      ended (some r) e = e
