-- ===== src/Thread/Stack.antt =====
-- The call stack of src/thread.c under push and pop.
use coldtrace.Prelude.{
  ℕ, zero, suc, ◌+◌, ◌-◌, ◌%◌, ◌^◌, ◌≤◌, ◌<◌, ◌≡◌, refl, sym, ap, ◌∙◌, inl, inr, Bool, true, false,
  List, [], ◌∷◌, ◌++◌, slice, take, if◌then◌else◌, if_split, arith, ◌==◌, ltb,
}
use coldtrace.Sys.{Sys, Mem, store}
use coldtrace.Writer.Ops.{ticked}
use coldtrace.Thread.Defs.{
  Self, get_thread, grow_stack, push_frame, push_grown, stack_push, stack_pop,
}
use coldtrace.Thread.Memory.{slice-eq, slice-append, take-slice, store-SameBelow}
use coldtrace.Thread.Read.{Seen}
use coldtrace.Thread.Sound.{IsSound, calls}

-- The thread-local state is set up once.
pub get_thread-id : (s : Self) → s.thread.initd ≡ true → get_thread s ≡ s
unfolding get_thread
get_thread-id s i = rw i refl

slice-store : (m : Mem) (n v k : ℕ) → k ≤ n → slice (store m n v) 0 k ≡ slice m 0 k
slice-store m n v k le =
    slice-eq 0 k (λ j _ lt. store-SameBelow m n v n (omega arith) j (omega arith))

slice-suc : (m : Mem) (n : ℕ) → slice m 0 (n + 1) ≡ slice m 0 n ++ (m n ∷ [])
slice-suc m n = sym (ap (λ k. slice m 0 n ++ slice m k 1) (omega arith) ∙ slice-append m 0 n 1)

store_top : (m : Mem) (n v : ℕ) → store m n v n ≡ v
store_top m n v = ground arith

-- What a push may do: the caller is on top, or the thread has failed and nothing has changed.
pub record Pushed (caller : ℕ) (s : Self) (r : List ℕ) (log : List Seen) (s' : Self) : Type 0 where
  pub sound : IsSound s' r log
  pub pushed : s'.thread.failed ≡ false → calls s' ≡ calls s ++ (caller % 2 ^ 64 ∷ [])
  pub kept : s'.thread.failed ≡ true → calls s' ≡ calls s

take-take : (k n : ℕ) (xs : List ℕ) → k ≤ n → take k (take n xs) ≡ take k xs
take-take zero n xs le = refl
take-take (suc k) zero xs le = absurd (omega arith)
take-take (suc k) (suc n) [] le = refl
take-take (suc k) (suc n) (x ∷ xs) le = ap (◌∷◌ x) (take-take k n xs (omega arith))

module _ {s : Self} {r : List ℕ} {log : List Seen} (sound : IsSound s r log) where
  push_frame-Pushed :
      (caller : ℕ)
      → s.thread.failed ≡ false
      → s.thread.stack_size < s.thread.stack_capacity
      → Pushed caller s r log (push_frame caller s)
  push_frame-Pushed caller f lt =
      let n = s.thread.stack_size in
      let m = store s.thread.stack n (caller % 2 ^ 64) in
      let fits : (n + 1) % 2 ^ 32 ≡ n + 1 = omega (arith, sound.small) in
      record {
        sound = record {
          valid = sound.valid;
          bottom = omega (arith, sound.bottom);
          initd = sound.initd;
          room = omega arith;
          small = sound.small;
          laid = sound.laid;
          agreed = λ b.
              sound.agreed b
              ∙ sym (
                  slice-store s.thread.stack n (caller % 2 ^ 64) s.thread.stack_bottom
                    sound.bottom);
          closed = sound.closed;
        };
        pushed = λ _.
            ap (slice m 0) fits
            ∙ slice-suc m n
            ∙ ap (λ k. k ++ (m n ∷ []))
                (slice-store s.thread.stack n (caller % 2 ^ 64) n (omega arith))
            ∙ ap (λ v. calls s ++ (v ∷ [])) (store_top s.thread.stack n (caller % 2 ^ 64));
        kept = λ t. cc;
      }

  -- The state after the call of realloc: another capacity, or a failed thread.
  resized :
      (failed : Bool) (capacity : ℕ)
      → s.thread.stack_size ≤ capacity
      → capacity < 2 ^ 32
      → IsSound
          (record s {
            thread = record (s.thread) { failed = failed; stack_capacity = capacity };
            io = ticked s.io;
          })
          r
          log
  resized failed capacity fits small = record {
    valid = record {
      maps = sound.valid.maps;
      pools = sound.valid.pools;
      blocks = sound.valid.blocks;
      paired = sound.valid.paired;
      opened = sound.valid.opened;
    };
    bottom = sound.bottom;
    initd = sound.initd;
    room = fits;
    small = small;
    laid = sound.laid;
    agreed = sound.agreed;
    closed = sound.closed;
  }

  -- One frame less, and a bottom that is not above it.
  lowered :
      (b n : ℕ)
      → b ≤ n
      → b ≤ s.thread.stack_bottom
      → n ≤ s.thread.stack_size
      → IsSound (record s { thread = record (s.thread) { stack_size = n; stack_bottom = b } }) r log
  lowered b n le low fewer = record {
    valid = sound.valid;
    bottom = le;
    initd = sound.initd;
    room = omega (arith, sound.room);
    small = sound.small;
    laid = sound.laid;
    agreed = λ there.
        sym (take-take b s.thread.stack_bottom r low)
        ∙ ap (take b) (sound.agreed there)
        ∙ take-slice s.thread.stack 0 b s.thread.stack_bottom low;
    closed =
        λ gone. elim (sound.closed gone) [ inl low_one ↦ inl (omega arith) | inr off ↦ inr off ];
  }

push_grown-Pushed :
    (sys : Sys) {s : Self} {r : List ℕ} {log : List Seen} (caller : ℕ)
    → IsSound s r log
    → s.thread.failed ≡ false
    → s.thread.stack_capacity < 2 ^ 31
    → s.thread.stack_size ≡ s.thread.stack_capacity
    → Pushed caller s r log (push_grown caller (grow_stack sys s))
unfolding grow_stack
push_grown-Pushed sys {s} {r} {log} caller sound f small full =
    if_split (λ x. Pushed caller s r log (push_grown caller x)) (sys.malloc_ok s.io.world.ticks)
      (λ _.
        let grown = resized sound s.thread.failed _ (ground arith) (ground arith) in
        let p = push_frame-Pushed grown caller f (ground arith) in
        record { sound = p.sound; pushed = p.pushed; kept = p.kept })
      (λ _. record {
        sound = resized sound true s.thread.stack_capacity sound.room sound.small;
        pushed = λ c. cc;
        kept = λ _. refl;
      })

-- A push on a sound thread, whose capacity can be doubled, leaves it sound and its fragment as it was. The caller
-- is on top of the call stack, unless the thread has failed: then the call stack is as before.
pub stack_push-Pushed :
    (sys : Sys) {s : Self} {r : List ℕ} {log : List Seen} (caller : ℕ)
    → IsSound s r log
    → s.thread.stack_capacity < 2 ^ 31
    → Pushed caller s r log (stack_push sys caller s)
unfolding stack_push
stack_push-Pushed sys {s} {r} {log} caller sound small = rw (get_thread-id s sound.initd) (
    if_split (Pushed caller s r log) s.thread.failed
      (λ f. record { sound = sound; pushed = λ c. cc; kept = λ _. refl })
      (λ f.
        if_split (Pushed caller s r log) (s.thread.stack_size == s.thread.stack_capacity)
          (λ full. push_grown-Pushed sys caller sound f small (ground arith))
          (λ room. push_frame-Pushed sound caller f (ground (arith, sound.room)))))

-- A pop on a sound thread leaves it sound and its fragment as it was, and takes the last function
-- off the call stack, unless the thread has failed.
pub stack_pop-calls :
    {s : Self} {r : List ℕ} {log : List Seen}
    → IsSound s r log
    → IsSound (stack_pop s) r log
      × (calls (stack_pop s)
          ≡ (if s.thread.failed then calls s else take (s.thread.stack_size - 1) (calls s)))
unfolding stack_pop
stack_pop-calls {s} {r} {log} sound =
    let n = s.thread.stack_size in
    let shorter : take (n - 1) (calls s) ≡ slice s.thread.stack 0 (n - 1) =
      take-slice s.thread.stack 0 (n - 1) n (omega arith) in
    let popped = if s.thread.failed then calls s else take (n - 1) (calls s) in
    rw (get_thread-id s sound.initd) (
      if_split (λ x. IsSound x r log × (calls x ≡ popped)) s.thread.failed (λ f. (sound, rw f refl))
        (λ f.
          if_split (λ x. IsSound x r log × (calls x ≡ popped)) (ltb 0 n)
            (λ some_left. (
              lowered sound _ (n - 1) (ground arith) (ground arith) (omega arith),
              rw f (sym shorter),
            ))
            (λ empty. (sound, rw f (ap (slice s.thread.stack 0) (ground arith) ∙ sym shorter)))))
