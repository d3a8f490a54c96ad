-- ===== src/Subs/Filling.antt =====
-- Each way in which a subscriber fills an entry, by the fields that it writes.
use coldtrace.Prelude.{ℕ, ◌≡◌, refl, sym, ap, true, arith}
use mathlib.Core.Path.{subst}
use coldtrace.Thread.Defs.{get_create_idx}
use coldtrace.Thread.Stack.{get_thread-id}
use coldtrace.Thread.Sound.{calls}
use coldtrace.Subs.Counters.{next_alloc_idx, next_atomic_idx}
use coldtrace.Subs.Fill.{
  set_field, fill_access, fill_alloc, fill_free, fill_atomic, fill_atomic_access,
}
use coldtrace.Subs.Pthread.{fill_thread_start, fill_create}
use coldtrace.Subs.Filled.{
  Holds, IsFill, with_world-Holds, set_field-Holds, is_field, is_field-IsField,
}

module _ {type : ℕ} where
  -- No field
  pub IsFill-none : IsFill type (λ e s. s)
  IsFill-none = record {
    holds = λ h. h;
    config = λ e s _. refl;
    offset = λ e s _. refl;
    files = λ e s _. refl;
    tid = λ e s _. refl;
    same_calls = λ e s _. refl;
    failed = λ e s _. refl;
  }

  -- An index that was taken before
  pub IsFill-index :
      is_field type 1 ≡ true → (index : ℕ) → IsFill type (λ e s. set_field e 1 index s)
  IsFill-index f index =
      let one = is_field-IsField type 1 1 f (omega arith) (omega arith) in
      record {
        holds = λ h. set_field-Holds 1 _ one h;
        config = λ e s _. refl;
        offset = λ e s _. refl;
        files = λ e s _. refl;
        tid = λ e s _. refl;
        same_calls = λ e s _. refl;
        failed = λ e s _. refl;
      }

  -- The index that the thread has kept
  pub IsFill-create : is_field type 1 ≡ true → IsFill type fill_create
  unfolding get_create_idx
  IsFill-create f =
      let one = is_field-IsField type 1 1 f (omega arith) (omega arith) in
      record {
        holds = λ {s} {e} {ptr} {r} {log} h.
            subst (λ t. Holds (set_field e 1 t.thread.created_thread_idx t) e type ptr r log)
              (sym (get_thread-id s h.sound.initd)) (set_field-Holds 1 _ one h);
        config = λ e s i. ap (λ t. t.io.world.config) (get_thread-id s i);
        files = λ e s i. ap (λ t. t.io.world.files) (get_thread-id s i);
        tid = λ e s i. ap (λ t. t.io.impl.tid) (get_thread-id s i);
        same_calls = λ e s i. ap calls (get_thread-id s i);
        failed = λ e s i. ap (λ t. t.thread.failed) (get_thread-id s i);
        offset = λ e s i. ap (λ t. t.io.impl.offset) (get_thread-id s i);
      }

  pub IsFill-one : is_field type 1 ≡ true → IsFill type fill_atomic
  unfolding next_atomic_idx
  IsFill-one f =
      let one = is_field-IsField type 1 1 f (omega arith) (omega arith) in
      record {
        holds = λ h. set_field-Holds 1 _ one (with_world-Holds _ h);
        config = λ e s _. refl;
        offset = λ e s _. refl;
        files = λ e s _. refl;
        tid = λ e s _. refl;
        same_calls = λ e s _. refl;
        failed = λ e s _. refl;
      }

  pub IsFill-two :
      is_field type 2 ≡ true
      → ((size pc : ℕ) → IsFill type (fill_access size pc))
        × ((size index : ℕ) → IsFill type (fill_atomic_access size index))
        × ((pc : ℕ) → IsFill type (fill_free pc))
  unfolding next_alloc_idx
  IsFill-two f =
      let one = is_field-IsField type 1 2 f (omega arith) (omega arith) in
      let two = is_field-IsField type 2 2 f (omega arith) (omega arith) in
      (
        λ size pc. record {
          holds = λ h. set_field-Holds 2 _ two (set_field-Holds 1 _ one h);
          config = λ e s _. refl;
          offset = λ e s _. refl;
          files = λ e s _. refl;
          tid = λ e s _. refl;
          same_calls = λ e s _. refl;
          failed = λ e s _. refl;
        },
        λ size index. record {
          holds = λ h. set_field-Holds 2 _ two (set_field-Holds 1 _ one h);
          config = λ e s _. refl;
          offset = λ e s _. refl;
          files = λ e s _. refl;
          tid = λ e s _. refl;
          same_calls = λ e s _. refl;
          failed = λ e s _. refl;
        },
        λ pc. record {
          holds = λ h. set_field-Holds 2 _ two (set_field-Holds 1 _ one (with_world-Holds _ h));
          config = λ e s _. refl;
          offset = λ e s _. refl;
          files = λ e s _. refl;
          tid = λ e s _. refl;
          same_calls = λ e s _. refl;
          failed = λ e s _. refl;
        },
      )

  pub IsFill-three :
      is_field type 3 ≡ true
      → ((size pc : ℕ) → IsFill type (fill_alloc size pc))
        × ((ptr size : ℕ) → IsFill type (fill_thread_start ptr size))
  unfolding next_alloc_idx next_atomic_idx
  IsFill-three f =
      let one = is_field-IsField type 1 3 f (omega arith) (omega arith) in
      let two = is_field-IsField type 2 3 f (omega arith) (omega arith) in
      let three = is_field-IsField type 3 3 f (omega arith) (omega arith) in
      (
        λ size pc. record {
          holds = λ h.
              set_field-Holds 3 _ three
                (set_field-Holds 2 _ two (with_world-Holds _ (set_field-Holds 1 _ one h)));
          config = λ e s _. refl;
          offset = λ e s _. refl;
          files = λ e s _. refl;
          tid = λ e s _. refl;
          same_calls = λ e s _. refl;
          failed = λ e s _. refl;
        },
        λ ptr size. record {
          holds = λ h.
              set_field-Holds 3 _ three
                (set_field-Holds 2 _ two (set_field-Holds 1 _ one (with_world-Holds _ h)));
          config = λ e s _. refl;
          offset = λ e s _. refl;
          files = λ e s _. refl;
          tid = λ e s _. refl;
          same_calls = λ e s _. refl;
          failed = λ e s _. refl;
        },
      )
