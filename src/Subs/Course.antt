-- ===== src/Subs/Course.antt =====
-- What a thread is to do and to record on its way through events, as a reference that does not look at the
-- state, and the thread against it.
use coldtrace.Prelude.{
  take, length, ◌-◌, Bool-cases, inl, inr, no_bool, sym, ◌∙◌, ℕ, ◌%◌, ◌^◌, ◌<◌, ◌≡◌, refl, true,
  false, Option, none, some, List, [], ◌∷◌, ◌++◌, is_some,
}
use mathlib.Core.Path.{subst}
use mathlib.Core.List.{nil≢cons}
use coldtrace.Thread.Append.{Appended}
use coldtrace.Thread.Gone.{Settled}
use coldtrace.Entry.Kind.{is_type_valid}
use coldtrace.Sys.{World}
use coldtrace.Thread.Defs.{Self}
use coldtrace.Thread.Bounded.{IsBounded}
use coldtrace.Thread.Read.{Seen}
use coldtrace.Thread.Sound.{IsSound, calls}
use coldtrace.Subs.Counters.{with_world}
use coldtrace.Subs.Fill.{and_fill}
use coldtrace.Subs.Filled.{IsFill, with_world-IsSound}
use coldtrace.Subs.Run.{Agrees, none_left, append-Agrees, and_fill-IsSound, and_fill-IsBounded}

-- What a handler is to do: to enter a function, to leave one, and to record an entry, which keeps 48 bits
-- of the pointer.
pub data Act : Type 0 where
  enters : (caller : ℕ) → Act
  leaves : Act
  records : (type ptr : ℕ) → Act

-- What is to be known of a thread: the functions that it is in, the outermost first, and the entries to
-- record so far, the last one first, each with the functions of its moment.
pub record Course : Type 0 where
  pub inside : List ℕ
  pub history : List Seen

abbrev pub act : Act → Course → Course
act (enters caller) v = record v { inside = v.inside ++ (caller % 2 ^ 64 ∷ []) }
act leaves v = record v { inside = take (length v.inside - 1) v.inside }
act (records type ptr) v = record v {
  history = record { type = type; ptr = ptr % 2 ^ 48; stack = v.inside } ∷ v.history;
}

abbrev pub act_all : List Act → Course → Course
act_all [] v = v
act_all (a ∷ acts) v = act_all acts (act a v)

pub act_all-append :
    (xs ys : List Act) (v : Course) → act_all (xs ++ ys) v ≡ act_all ys (act_all xs v)
act_all-append [] ys v = refl
act_all-append (x ∷ xs) ys v = act_all-append xs ys (act x v)

abbrev pub to_record : (type ptr : ℕ) → Act
to_record type ptr = records type ptr

-- A sound thread on its course: unless its call stack could not grow, it knows the functions that it is
-- in, and its fragment holds the last entries of the history, with none left out.
pub record IsOn (v : Course) (t : Self) : Type 0 where
  pub reader : List ℕ
  pub log : List Seen
  pub sound : IsSound t reader log
  pub bounded : IsBounded t
  pub known : t.thread.failed ≡ false → (calls t ≡ v.inside) × Agrees log v.history
  pub begun : t.thread.failed ≡ false → is_some t.io.impl.buffer ≡ true → log ≡ [] → v.history ≡ []

-- Without a buffer, or once the call stack could not grow, any history is kept.
pub lost-IsOn :
    {v : Course} {t : Self} (history : List Seen)
    → (t.thread.failed ≡ false → is_some t.io.impl.buffer ≡ false)
    → IsOn v t
    → IsOn (record v { history = history }) t
lost-IsOn {v} {t} history gone k = elim (Bool-cases (is_some t.io.impl.buffer)) [
  | inl b ↦ record {
    reader = k.reader;
    log = k.log;
    sound = k.sound;
    bounded = k.bounded;
    known = λ f. absurd (no_bool (sym (gone f) ∙ b));
    begun = λ f. absurd (no_bool (sym (gone f) ∙ b));
  }
  | inr b ↦ record {
    reader = k.reader;
    log = [];
    sound = record {
      initd = k.sound.initd;
      valid = k.sound.valid;
      bottom = k.sound.bottom;
      room = k.sound.room;
      small = k.sound.small;
      laid = λ there. absurd (no_bool (sym b ∙ there));
      agreed = k.sound.agreed;
      closed = k.sound.closed;
    };
    bounded = k.bounded;
    known = λ f. ((k.known f).0, none_left);
    begun = λ f there. absurd (no_bool (sym b ∙ there));
  }
]

-- An append, from its result on
pub filled-IsOn :
    {s : Self} {type ptr : ℕ} {fill : ℕ → Self → Self} {v : Course}
    → IsFill type fill
    → is_type_valid type ≡ true
    → (k : IsOn v s) → (x : Option ℕ × Self) → Appended s type ptr k.log x
    → Settled type s x
    → IsOn (act (records type ptr) v) (and_fill fill x)
filled-IsOn {s} {type} {ptr} {v = v} kept valid k (none, t) a settled =
    lost-IsOn {v = v} _ (λ f. settled.gone refl (sym settled.failed ∙ f) valid)
      (record {
        reader = a.reader;
        log = k.log;
        sound = subst (λ l. IsSound t a.reader l) (a.unrecorded refl) a.sound;
        bounded = and_fill-IsBounded kept (none, t) a k.bounded;
        known = λ f.
            let (inside, agrees) = k.known (sym settled.failed ∙ f) in
            (a.same_calls ∙ inside, agrees);
        begun = λ f there.
            absurd (no_bool (sym (settled.gone refl (sym settled.failed ∙ f) valid) ∙ there));
      })
filled-IsOn {s} {type} {ptr} {v = v} kept valid k (some e, t) a settled =
    let i = a.sound.initd in
    record {
      reader = a.reader;
      log = a.entries;
      sound = and_fill-IsSound kept (some e, t) a;
      bounded = and_fill-IsBounded kept (some e, t) a k.bounded;
      known = λ f.
          let (inside, agrees) = k.known (sym settled.failed ∙ sym (kept.failed e t i) ∙ f) in
          (
            kept.same_calls e t i ∙ a.same_calls ∙ inside,
            subst
                (λ c.
                  Agrees a.entries
                    (record { type = type; ptr = ptr % 2 ^ 48; stack = c } ∷ v.history))
                inside (append-Agrees (some e, t) a agrees),
          );
      begun = λ f there empty. elim (a.recorded refl) [
        | inl behind ↦ absurd (nil≢cons (sym empty ∙ behind))
        | inr alone ↦ absurd (nil≢cons (sym empty ∙ alone))
      ];
    }

-- Other threads change what they share with it.
pub world-IsOn :
    {v : Course} {s : Self} (w : World)
    → w.config.trace_size < 2 ^ 62
    → IsOn v s
    → IsOn v (with_world s w)
world-IsOn w small k = record {
  reader = k.reader;
  log = k.log;
  sound = with_world-IsSound w k.sound;
  bounded = record { trace_size = small; offset = k.bounded.offset };
  known = k.known;
  begun = k.begun;
}
