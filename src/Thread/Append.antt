-- ===== src/Thread/Append.antt =====
-- `coldtrace_thread_append` of src/thread.c: what an entry is to a reader, and that the thread stays
-- sound whether the entry is recorded or dropped.
use coldtrace.Prelude.{
  ℕ, ◌+◌, ◌%◌, ◌^◌, ◌≤◌, ◌<◌, ◌≡◌, ◌⊎◌, refl, ap, inl, inr, true, false, Option, none, some, List,
  [], ◌∷◌, is_some, arith,
}
use coldtrace.Entry.Kind.{is_type_valid, with_stack}
use coldtrace.Entry.Layout.{fixed_size}
use coldtrace.Writer.Defs.{words, Io}
use coldtrace.Writer.Frame.{Touches}
use coldtrace.Writer.Invariant.{IsValid}
use coldtrace.Thread.Defs.{
  Self, set_bottom, write_plain, stack_bytes, write_stack, poke, poke_words,
}
use coldtrace.Thread.Memory.{take-slice}
use coldtrace.Thread.Last.{Last, Last-Laid, Last-at, Last-some}
use coldtrace.Thread.Read.{Seen}
use coldtrace.Thread.Sound.{IsSound, calls, is_on}
use coldtrace.Thread.Place.{Placed}
use coldtrace.Thread.Write.{plain-Last, stack-Last}

-- What an append leaves. A recorded entry is the last of the fragment, behind the earlier ones or as
-- the first of a new one, and an entry with a stack shows a reader the whole call stack.
pub record Appended (s : Self) (type ptr : ℕ) (log : List Seen) (x : Option ℕ × Self) : Type 0 where
  pub reader : List ℕ
  pub entries : List Seen
  pub sound : IsSound x.1 reader entries
  pub same_calls : calls x.1 ≡ calls s
  pub tid : x.1.io.impl.tid ≡ s.io.impl.tid
  pub shared : Touches s.io.impl.tid s.io.world x.1.io.world
  pub bounded : x.1.io.impl.offset < 2 ^ 62
  pub recorded :
      is_some x.0 ≡ true
      → let seen : Seen = record { type = type; ptr = ptr % 2 ^ 48; stack = reader } in
        (entries ≡ seen ∷ log) ⊎ (entries ≡ seen ∷ [])
  pub there : is_some x.0 ≡ true → is_some x.1.io.impl.buffer ≡ true
  pub last :
      (e : ℕ)
      → x.0 ≡ some e
      → Last (words x.1.io.impl.buffer) e type ptr x.1.io.impl.offset reader entries
  pub unrecorded : is_some x.0 ≡ false → entries ≡ log
  pub shown : is_some x.0 ≡ true → with_stack type ≡ true → reader ≡ calls s

last_of :
    (x : Seen) {earlier log : List Seen}
    → (earlier ≡ log) ⊎ (earlier ≡ [])
    → ((x ∷ earlier) ≡ (x ∷ log)) ⊎ ((x ∷ earlier) ≡ (x ∷ []))
last_of x (inl e) = inl (ap (◌∷◌ x) e)
last_of x (inr e) = inr (ap (◌∷◌ x) e)

pub poke-IsValid :
    (io : Io) (i v : ℕ) → IsValid io → is_some io.impl.buffer ≡ true → IsValid (poke i v io)
poke-IsValid io i v valid b = ground arith

poke_words-IsValid :
    (io : Io) (i : ℕ) (ws : List ℕ)
    → IsValid io
    → is_some io.impl.buffer ≡ true
    → IsValid (poke_words i ws io)
poke_words-IsValid io i ws valid b = ground arith

module _ (s : Self) {r : List ℕ} {log : List Seen} (sound : IsSound s r log) (type ptr : ℕ)
    (h : type < 256) (valid : is_type_valid type ≡ true) where
  -- An entry without a stack, once its place is known: the bottom falls to 0 with a new fragment.
  pub plain_written :
      (e b : ℕ) (io : Io)
      → IsValid io
      → io.impl.tid ≡ s.io.impl.tid
      → Touches s.io.impl.tid s.io.world io.world
      → io.impl.offset < 2 ^ 62
      → is_some io.impl.buffer ≡ true
      → with_stack type ≡ false
      → Placed s log (fixed_size type) b e io
      → Appended s type ptr log (write_plain type ptr (set_bottom b s) (some e, io))
  plain_written e b io v tid shared small there plain p =
      let last = Last-at p.offset (plain-Last type ptr p.laid h valid plain) in
      record {
        reader = p.before;
        entries = record { type = type; ptr = ptr % 2 ^ 48; stack = p.before } ∷ p.earlier;
        sound = record {
          valid = poke-IsValid io _ _ v there;
          bottom = p.bottom;
          initd = sound.initd;
          room = sound.room;
          small = sound.small;
          laid = λ _. Last-Laid last;
          agreed = λ _. p.agreed;
          closed = λ c. cc;
        };
        same_calls = refl;
        tid = tid;
        shared = shared;
        bounded = small;
        recorded = λ _. last_of _ p.same_or_none;
        there = λ _. refl;
        last = λ e' eq. Last-some eq last;
        unrecorded = λ c. cc;
        shown = λ _ stacked. cc;
      }

  pub stack_written :
      (e b : ℕ) (io : Io)
      → IsValid io
      → io.impl.tid ≡ s.io.impl.tid
      → Touches s.io.impl.tid s.io.world io.world
      → io.impl.offset < 2 ^ 62
      → is_some io.impl.buffer ≡ true
      → with_stack type ≡ true
      → Placed s log (fixed_size type + stack_bytes s.thread.stack_size b) b e io
      → Appended s type ptr log (write_stack type ptr (fixed_size type) b s (some e, io))
  stack_written e b io v tid shared small there stacked p =
      let top = s.thread.stack_size in
      let last = Last-at p.offset (
        stack-Last type ptr s.thread.stack b top p.laid h valid stacked p.bottom
          (omega (arith, sound.room, sound.small)) p.agreed) in
      record {
        reader = calls s;
        entries = record { type = type; ptr = ptr % 2 ^ 48; stack = calls s } ∷ p.earlier;
        sound = record {
          valid = ground arith;
          bottom = omega arith;
          initd = sound.initd;
          room = sound.room;
          small = sound.small;
          laid = λ _. Last-Laid last;
          agreed = λ _. take-slice s.thread.stack 0 top top (omega arith);
          closed = λ c. cc;
        };
        same_calls = refl;
        tid = tid;
        shared = shared;
        bounded = small;
        recorded = λ _. last_of _ p.same_or_none;
        there = λ _. refl;
        last = λ e' eq. Last-some eq last;
        unrecorded = λ c. cc;
        shown = λ _ _. refl;
      }

  -- Nothing is recorded: the fragment is gone, and no later entry refers to it.
  pub dropped :
      (b : ℕ) (io : Io)
      → IsValid io
      → io.impl.tid ≡ s.io.impl.tid
      → Touches s.io.impl.tid s.io.world io.world
      → io.impl.offset < 2 ^ 62
      → is_some io.impl.buffer ≡ false
      → b ≤ s.thread.stack_size
      → (b ≡ 0) ⊎ (is_on io ≡ false)
      → Appended s type ptr log (none, record (set_bottom b s) { io = io })
  dropped b io v tid shared small gone le closed = record {
    reader = r;
    entries = log;
    sound = record {
      valid = v;
      bottom = le;
      initd = sound.initd;
      room = sound.room;
      small = sound.small;
      laid = λ c. cc;
      agreed = λ c. cc;
      closed = λ _. closed;
    };
    same_calls = refl;
    tid = tid;
    shared = shared;
    bounded = small;
    recorded = λ c. cc;
    there = λ c. cc;
    last = λ e' eq. absurd (ground arith);
    unrecorded = λ _. refl;
    shown = λ c _. cc;
  }
