-- ===== src/Subs/Follows.antt =====
-- What a subscriber does to a thread, against the entries that it is to record: the lemmas from which
-- the handlers of src/subs_*.c are put together.
use coldtrace.Prelude.{
  is_some, take, length, length-slice, ◌-◌, sym, ◌∙◌, ℕ, ◌%◌, ◌^◌, ◌<◌, ◌≡◌, refl, ap, Bool, true,
  false, ◌&&◌, List, [], ◌∷◌, ◌++◌, ltb, if◌then◌else◌, arith,
}
use mathlib.Core.Path.{subst}
use coldtrace.Thread.Calls.{
  stack_push-failed, stack_pop-failed, stack_push-buffer, stack_pop-buffer,
}
use coldtrace.Thread.Gone.{thread_append-Settled}
use coldtrace.Thread.Stack.{stack_push-Pushed, stack_pop-calls, get_thread-id}
use coldtrace.Entry.Kind
use coldtrace.Entry.Kind.{is_type_valid}
use coldtrace.Entry.Layout.{is_alloc, is_access, is_atomic}
use coldtrace.Sys.{Sys, World}
use coldtrace.Thread.Defs.{set_create_idx, get_thread, Self, stack_push, stack_pop, thread_append}
use coldtrace.Thread.Bounded.{
  stack_push-IsBounded, stack_pop-IsBounded, set_create_idx-IsSound, set_create_idx-IsBounded,
  IsBounded, Keeps, Keeps-refl, stack_push-Keeps, stack_pop-Keeps, set_create_idx-Keeps,
}
use coldtrace.Thread.Run.{thread_append-Appended}
use coldtrace.Thread.Read.{Seen}
use coldtrace.Thread.Sound.{IsSound, calls}
use coldtrace.Subs.Counters.{next_atomic_idx, with_world}
use coldtrace.Subs.Fill.{
  append_and, append_atomic, append_atomic_if, fill_alloc, fill_free, fill_access, fill_atomic,
}
use coldtrace.Subs.Memory.{append_alloc, append_free, append_access}
use coldtrace.Subs.Filled.{IsFill}
use coldtrace.Subs.Pthread.{before_thread_create}
use coldtrace.Subs.Layouts.{layout-IsFill}
use coldtrace.Subs.Run.{and_fill-Keeps}
use coldtrace.Subs.Course.{
  Act, enters, leaves, Course, act_all, to_record, IsOn, filled-IsOn, world-IsOn,
}

-- What a handler does, and that nothing of other threads changes on the way.
pub record Follows (sys : Sys) (acts : List Act) (s t : Self) : Type 0 where
  pub goes : {v : Course} → IsOn v s → IsOn (act_all acts v) t
  pub keeps : {r : List ℕ} {log : List Seen} → IsSound s r log → IsBounded s → Keeps s t

module _ {sys : Sys} {s : Self} where
  pub Follows-refl : Follows sys [] s s
  Follows-refl = record { goes = λ k. k; keeps = λ h b. Keeps-refl }

  pub world-Follows :
      (w : World)
      → w.config ≡ s.io.world.config
      → w.files ≡ s.io.world.files
      → Follows sys [] s (with_world s w)
  world-Follows w same files = record {
    goes = λ k. world-IsOn w (rw same k.bounded.trace_size) k;
    keeps = λ h b. record { tid = refl; config = same; files = λ k e n. ap (λ f. f k e) files };
  }

  pub append-Follows :
      (type ptr : ℕ) (fill : ℕ → Self → Self)
      → type < 256
      → is_type_valid type ≡ true
      → IsFill type fill
      → Follows sys (to_record type ptr ∷ []) s (append_and sys type ptr fill s)
  unfolding append_and
  append-Follows type ptr fill small valid kept = record {
    goes = λ k.
        filled-IsOn kept valid k (thread_append sys type ptr s)
          (thread_append-Appended sys k.sound type ptr small k.bounded.trace_size k.bounded.offset)
          (thread_append-Settled sys type ptr k.sound.initd k.sound.valid small);
    keeps = λ h b.
        and_fill-Keeps kept _ (thread_append-Appended sys h type ptr small b.trace_size b.offset);
  }

  pub if-Follows :
      (b : Bool) {xs ys : List Act} {t u : Self}
      → Follows sys xs s t
      → Follows sys ys s u
      → Follows sys (if b then xs else ys) s (if b then t else u)
  if-Follows true f g = f
  if-Follows false f g = g

-- A valid type with a layout, which decides how it may be filled
abbrev pub is_filled_as : (ℕ → Bool) → ℕ → Bool
is_filled_as layout type = ltb type 256 && is_type_valid type && layout (type % 128)

pub three_parts : (a b c : Bool) → (a && b && c) ≡ true → (a ≡ true) × (b ≡ true) × (c ≡ true)
three_parts a b c h = ground arith

module _ {sys : Sys} {s : Self} where
  pub append_atomic-Follows :
      (type ptr : ℕ)
      → is_filled_as is_atomic type ≡ true
      → Follows sys (to_record type ptr ∷ []) s (append_atomic sys type ptr s)
  unfolding append_atomic
  append_atomic-Follows type ptr h =
      let (small, valid, layout) = three_parts (ltb type 256) (is_type_valid type) _ h in
      let lt : type < 256 = ground arith in
      let (_, _, _, _, atomic, _, _, _) = layout-IsFill type lt valid in
      append-Follows type ptr fill_atomic lt valid (atomic layout)

  pub append_atomic_if-Follows :
      (ok : Bool) (type ptr : ℕ)
      → is_filled_as is_atomic type ≡ true
      → Follows sys
          (if ok then to_record type ptr ∷ [] else [])
          s
          (append_atomic_if ok sys type ptr s)
  unfolding append_atomic_if
  append_atomic_if-Follows ok type ptr h =
      if-Follows ok (append_atomic-Follows type ptr h) Follows-refl

  pub append_alloc-Follows :
      (type ptr size pc : ℕ)
      → is_filled_as is_alloc type ≡ true
      → Follows sys (to_record type ptr ∷ []) s (append_alloc sys type ptr size pc s)
  unfolding append_alloc
  append_alloc-Follows type ptr size pc h =
      let (small, valid, layout) = three_parts (ltb type 256) (is_type_valid type) _ h in
      let lt : type < 256 = ground arith in
      append-Follows type ptr (fill_alloc size pc) lt valid
        ((layout-IsFill type lt valid).0 layout size pc)

  pub append_access-Follows :
      (type ptr size pc : ℕ)
      → is_filled_as is_access type ≡ true
      → Follows sys (to_record type ptr ∷ []) s (append_access sys type ptr size pc s)
  unfolding append_access
  append_access-Follows type ptr size pc h =
      let (small, valid, layout) = three_parts (ltb type 256) (is_type_valid type) _ h in
      let lt : type < 256 = ground arith in
      let (_, _, access, _, _, _, _, _) = layout-IsFill type lt valid in
      append-Follows type ptr (fill_access size pc) lt valid (access layout size pc)

  pub append_free-Follows :
      (ptr pc : ℕ) → Follows sys (to_record Kind.free ptr ∷ []) s (append_free sys ptr pc s)
  unfolding append_free is_type_valid
  append_free-Follows ptr pc =
      append-Follows Kind.free ptr (fill_free pc) (omega arith) refl
        ((layout-IsFill Kind.free (omega arith) refl).1 refl pc)

  pub stack_push-Follows :
      (caller : ℕ)
      → s.thread.stack_capacity < 2 ^ 31
      → Follows sys (enters caller ∷ []) s (stack_push sys caller s)
  stack_push-Follows caller small = record {
    goes = λ {v} k.
        let p = stack_push-Pushed sys caller k.sound small in
        record {
          reader = k.reader;
          log = k.log;
          sound = p.sound;
          bounded = stack_push-IsBounded sys caller k.sound.initd k.bounded;
          known = λ f.
              let (inside, agrees) = k.known (stack_push-failed sys caller s k.sound.initd f) in
              (p.pushed f ∙ ap (λ c. c ++ (caller % 2 ^ 64 ∷ [])) inside, agrees);
          begun = λ f there.
              let same = ap is_some (stack_push-buffer sys caller s k.sound.initd) in
              k.begun (stack_push-failed sys caller s k.sound.initd f) (sym same ∙ there);
        };
    keeps = λ h b. stack_push-Keeps sys caller h.initd;
  }

  pub stack_pop-Follows : Follows sys (leaves ∷ []) s (stack_pop s)
  stack_pop-Follows = record {
    goes = λ {v} k.
        let (sound, popped) = stack_pop-calls k.sound in
        record {
          reader = k.reader;
          log = k.log;
          sound = sound;
          bounded = stack_pop-IsBounded k.sound.initd k.bounded;
          known = λ f.
              let g = sym (stack_pop-failed s k.sound.initd) ∙ f in
              let (inside, agrees) = k.known g in
              let n = s.thread.stack_size in
              (
                popped
                    ∙ ap (λ b. if b then calls s else take (n - 1) (calls s)) g
                    ∙ ap (λ m. take (m - 1) (calls s)) (sym (length-slice s.thread.stack 0 n))
                    ∙ ap (λ c. take (length c - 1) c) inside,
                agrees,
              );
          begun = λ f there.
              let same = ap is_some (stack_pop-buffer s k.sound.initd) in
              k.begun (sym (stack_pop-failed s k.sound.initd) ∙ f) (sym same ∙ there);
        };
    keeps = λ h b. stack_pop-Keeps h.initd;
  }

  pub create-Follows : Follows sys [] s (before_thread_create s)
  unfolding before_thread_create next_atomic_idx set_create_idx get_thread
  create-Follows = record {
    goes = λ k.
        let index = s.io.world.next_atomic_index in
        let w = (next_atomic_idx s.io.world).1 in
        let on = world-IsOn w k.bounded.trace_size k in
        let (sound, same) = set_create_idx-IsSound index on.sound in
        record {
          reader = on.reader;
          log = on.log;
          sound = sound;
          bounded = set_create_idx-IsBounded index on.sound.initd on.bounded;
          known = λ f.
              let (inside, agrees) = on.known (
                subst (λ t. t.thread.failed ≡ false) (get_thread-id (with_world s w) on.sound.initd)
                  f) in
              (same ∙ inside, agrees);
          begun = λ f there.
              let back = get_thread-id (with_world s w) on.sound.initd in
              on.begun (subst (λ t. t.thread.failed ≡ false) back f)
                (subst (λ t. is_some t.io.impl.buffer ≡ true) back there);
        };
    keeps = λ h b.
        let w = (next_atomic_idx s.io.world).1 in
        let k = set_create_idx-Keeps {s = with_world s w} s.io.world.next_atomic_index h.initd in
        record { tid = k.tid; config = k.config; files = k.files };
  }
