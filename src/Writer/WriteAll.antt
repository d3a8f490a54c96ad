-- ===== src/Writer/WriteAll.antt =====
-- `write_all_` of src/writer.c under short writes and interruptions: it ends, and what it has written.
use coldtrace.Prelude.{
  ℕ, zero, suc, ◌+◌, ◌*◌, ◌≤◌, ◌<◌, ◌≡◌, refl, sym, ap, ◌∙◌, Bool, true, false, Option, some, List,
  [], ◌∷◌, ◌++◌, length, take, drop, length-drop, arith,
}
use mathlib.Core.List.{append_assoc, append-nil}
use native.Mathlib.Nat.{zero-add, suc-add}
use coldtrace.Sys.{Sys, Fair, World, tick, content}
use coldtrace.Writer.Files.{append_file, write_loop, write_rounds, finished, write_all}
use coldtrace.Writer.Frame.{case_wrote, case_eintr, case_failed, WriteResult-cases}

take-append-take-drop {ℓ} :
    {A : Type ℓ} (k m : ℕ) (xs : List A) → take k xs ++ take m (drop k xs) ≡ take (k + m) xs
take-append-take-drop zero m xs = rw zero-add
take-append-take-drop (suc k) zero [] = rw suc-add
take-append-take-drop (suc k) (suc m) [] = rw suc-add
take-append-take-drop (suc k) m (x ∷ xs) = rw suc-add (ap (◌∷◌ x) (take-append-take-drop k m xs))

take-length {ℓ} : {A : Type ℓ} (xs : List A) → take (length xs) xs ≡ xs
take-length [] = refl
take-length (x ∷ xs) = ap (◌∷◌ x) (take-length xs)

content-append_file :
    (w : World) (tid e k : ℕ) (bytes : List ℕ)
    → content (append_file (tick w) tid e k bytes) tid e ≡ content w tid e ++ take k bytes
content-append_file w tid e k bytes = ground arith

-- How a run of the loop ends: so many of the bytes are in the file, and all of them on success.
record Written (tid e : ℕ) (bytes : List ℕ) (w : World) (o : Option (Bool × World)) : Type 0 where
  done : Bool
  last : World
  count : ℕ
  result : o ≡ some (done, last)
  holds : content last tid e ≡ content w tid e ++ take count bytes
  complete : done ≡ true → count ≡ length bytes

-- The measure of the loop falls with every byte taken, even if it then waits the longest.
measure_falls :
    (left k patience wait wait' fuel : ℕ)
    → 0 < k
    → (left + k) * (patience + 1) + wait < suc fuel
    → wait' ≤ patience
    → left * (patience + 1) + wait' < fuel
measure_falls left zero patience wait wait' fuel pos h le = absurd (omega arith)
measure_falls left (suc k) patience wait wait' fuel pos h le = grind arith

-- What a later part of the loop has written, seen from before the call that took `k` bytes.
Written-append :
    (tid e k : ℕ) (bytes : List ℕ) (w : World) {o : Option (Bool × World)}
    → length (drop k bytes) + k ≡ length bytes
    → Written tid e (drop k bytes) (append_file (tick w) tid e k bytes) o
    → Written tid e bytes w o
Written-append tid e k bytes w left rest = record {
  done = rest.done;
  last = rest.last;
  count = k + rest.count;
  result = rest.result;
  holds =
      rest.holds
      ∙ ap (λ c. c ++ take rest.count (drop k bytes)) (content-append_file w tid e k bytes)
      ∙ append_assoc (content w tid e) (take k bytes) (take rest.count (drop k bytes))
      ∙ ap (λ c. content w tid e ++ c) (take-append-take-drop k rest.count bytes);
  complete = λ d. omega (arith, rest.complete d, left);
}

-- An interrupted call writes nothing.
same_file :
    {tid e : ℕ} {bytes : List ℕ} {w : World} {o : Option (Bool × World)}
    → Written tid e bytes (tick w) o
    → Written tid e bytes w o
same_file rest = record {
  done = rest.done;
  last = rest.last;
  count = rest.count;
  result = rest.result;
  holds = rest.holds;
  complete = rest.complete;
}

Written-finished :
    {tid e : ℕ} {bytes : List ℕ} {w : World} {o : Option (Bool × World)}
    → Written tid e bytes w o
    → let (done, w') = finished o w in
      (n : ℕ) × (o ≡ some (done, w'))
      × (content w' tid e ≡ content w tid e ++ take n bytes)
      × (done ≡ true → content w' tid e ≡ content w tid e ++ bytes)
Written-finished {tid} {e} {bytes} {w} r = rw r.result (
  r.count,
  refl,
  r.holds,
  λ d. r.holds ∙ ap (λ c. content w tid e ++ c) (rw (r.complete d) (take-length bytes)),
)

module _ {sys : Sys} (fair : Fair sys) (tid e : ℕ) where
  write_loop-Written :
      (fuel : ℕ) (bytes : List ℕ) (w : World)
      → length bytes * (sys.patience + 1) + fair.wait w.ticks < fuel
      → Written tid e bytes w (write_loop sys fuel tid e bytes w)
  unfolding write_loop
  write_loop-Written zero bytes w h = absurd (omega arith)
  write_loop-Written (suc fuel) [] w h = record {
    done = true;
    last = w;
    count = 0;
    result = refl;
    holds = sym (append-nil (content w tid e));
    complete = λ _. refl;
  }
  write_loop-Written (suc fuel) (b ∷ bs) w h =
      let n = length (b ∷ bs) in
      elim (WriteResult-cases (sys.write_result w.ticks n)) [
        | case_wrote k eq ↦
            let (pos, small) = fair.progress w.ticks n k (omega arith) eq in
            let left : length (drop k (b ∷ bs)) + k ≡ n = omega (arith, length-drop k (b ∷ bs)) in
            let after = append_file (tick w) tid e k (b ∷ bs) in
            let rest = write_loop-Written fuel (drop k (b ∷ bs)) after (
              measure_falls (length (drop k (b ∷ bs))) k sys.patience (fair.wait w.ticks)
                (fair.wait (w.ticks + 1)) fuel pos (rw left h) (fair.wait_le (w.ticks + 1))) in
            rw (eq, write_loop) (Written-append tid e k (b ∷ bs) w left rest)
        | case_eintr eq ↦
            let rest =
              write_loop-Written fuel (b ∷ bs) (tick w) (omega (arith, fair.falls w.ticks n eq)) in
            rw (eq, write_loop) (same_file rest)
        | case_failed eq ↦
            rw (eq, write_loop)
              (record {
                done = false;
                last = tick w;
                count = 0;
                result = refl;
                holds = sym (append-nil (content w tid e));
                complete = λ d. cc;
              })
      ]

  -- With a system that keeps the rules of write(2), `write_all_` ends within the fuel given to it;
  -- the file then holds what it held before and so many of the bytes in order, all if it succeeds.
  pub write_all-append :
      (bytes : List ℕ) (w : World)
      → let (done, w') = write_all sys tid e bytes w in
        (n : ℕ) × (write_loop sys (write_rounds sys (length bytes)) tid e bytes w ≡ some (done, w'))
        × (content w' tid e ≡ content w tid e ++ take n bytes)
        × (done ≡ true → content w' tid e ≡ content w tid e ++ bytes)
  unfolding write_all
  write_all-append bytes w = Written-finished (
      write_loop-Written (write_rounds sys (length bytes)) bytes w
        (omega (arith, fair.wait_le w.ticks)))
