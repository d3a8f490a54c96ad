-- ===== src/Writer/Reserve.antt =====
-- `coldtrace_writer_reserve` of src/writer.c: where an entry is placed.
use coldtrace.Prelude.{
  ℕ, ◌+◌, ◌^◌, ◌≤◌, ◌<◌, ◌≡◌, refl, ap, ◌∙◌, Bool, true, false, Option, some, is_some, if_split,
  arith, Bool-cases, inl, inr, ◌⊎◌, min,
}
use coldtrace.Sys.{Sys}
use coldtrace.Writer.Defs.{Io, header_size}
use coldtrace.Writer.Ops.{
  new_trace, writer_new_trace, bump, reserve_in, reserve_after, writer_reserve,
}
use coldtrace.Writer.Frame.{Touches, Touches-refl, Touches-trans}
use coldtrace.Writer.Invariant.{IsValid}
use coldtrace.Writer.Flush.{new_trace-Renewed, Touches-tid}
use coldtrace.Writer.Ensure.{Ensured, ensure_buffer-Ensured}

-- The sizes at which no `size_t` sum of the writer wraps.
pub record IsSmall (io : Io) (n : ℕ) : Type 0 where
  pub trace_size : io.world.config.trace_size < 2 ^ 62
  pub entry : n < 2 ^ 61
  pub offset : io.impl.offset < 2 ^ 62

bump-IsValid : (io : Io) (n : ℕ) → IsValid io → io.impl.offset + n < 2 ^ 64 → IsValid (bump n io).1
bump-IsValid io n v h = ground arith

-- What a call of `coldtrace_writer_reserve` for `n` bytes gives.
pub record Reserved (io : Io) (n : ℕ) (r : Option ℕ × Io) : Type 0 where
  pub valid : IsValid r.1
  pub buffer : is_some r.1.impl.buffer ≡ is_some r.0
  pub tid : r.1.impl.tid ≡ io.impl.tid
  pub shared : Touches io.impl.tid io.world r.1.world
  pub bounded : r.1.impl.offset < 2 ^ 62
  pub placed :
      (off : ℕ)
      → r.0 ≡ some off
      → (header_size ≤ off)
        × (r.1.impl.offset ≡ off + n)
        × (r.1.impl.offset < 2 ^ 62)
        × (header_size + n ≤ min r.1.impl.size io.world.config.trace_size
            → off + n ≤ min r.1.impl.size io.world.config.trace_size)

-- An entry goes behind the last one, where it fits, and else behind the header of a new fragment.
pub record Positioned (io : Io) (n : ℕ) (r : Option ℕ × Io) : Type 0 where
  pub behind : is_some io.impl.buffer ≡ true → writer_new_trace io n ≡ false → r ≡ bump n io
  pub anew :
      (off : ℕ)
      → r.0 ≡ some off
      → (is_some io.impl.buffer ≡ false) ⊎ (writer_new_trace io n ≡ true)
      → off ≡ header_size

module _ (sys : Sys) (io : Io) (n : ℕ) (v : IsValid io) (b : is_some io.impl.buffer ≡ true) where
  reserve_in-Reserved : IsSmall io n → Reserved io n (reserve_in sys io n)
  unfolding reserve_in writer_new_trace
  reserve_in-Reserved small =
      let renewed = new_trace-Renewed sys io v in
      if_split (Reserved io n) (writer_new_trace io n)
        (λ full.
          if_split (Reserved io n) (is_some (new_trace sys io).impl.buffer)
            (λ there. record {
              valid =
                  bump-IsValid (new_trace sys io) n renewed.valid
                    (omega (arith, renewed.offset there));
              buffer = there;
              tid = renewed.tid;
              shared = renewed.shared;
              bounded = ground (arith, renewed.offset there);
              placed = λ off e. ground (arith, renewed.offset there);
            })
            (λ gone. record {
              valid = renewed.valid;
              buffer = gone;
              tid = renewed.tid;
              shared = renewed.shared;
              bounded = omega (arith, renewed.near);
              placed = λ off e. cc;
            }))
        (λ room. record {
          valid = bump-IsValid io n v (omega arith);
          buffer = b;
          tid = refl;
          shared = Touches-refl io.world;
          bounded = ground arith;
          placed = λ off e. ground (arith, v.opened b);
        })

  reserve_in-Positioned : Positioned io n (reserve_in sys io n)
  unfolding reserve_in
  reserve_in-Positioned = record {
    behind = λ _ room. rw room;
    anew = ground (arith, (new_trace-Renewed sys io v).offset);
  }

module _ (sys : Sys) (io : Io) (n : ℕ) (small : IsSmall io n) where
  -- The offset in a buffer that `ensure_buffer_` has left or opened.
  Ensured-IsSmall : {io' : Io} → Ensured io (true, io') → IsSmall io' n
  Ensured-IsSmall {io'} en = record {
    trace_size = rw en.shared.config small.trace_size;
    entry = small.entry;
    offset = elim (Bool-cases (is_some io.impl.buffer)) [
      | inl there ↦ rw (ap (λ (r : Bool × Io). r.1.impl.offset) (en.old there)) small.offset
      | inr none_yet ↦ omega (arith, (en.new none_yet refl).0)
    ];
  }

  reserve_after-Reserved : (r : Bool × Io) → Ensured io r → Reserved io n (reserve_after sys n r)
  reserve_after-Reserved (false, io') en = record {
    valid = en.valid;
    buffer = en.buffer;
    tid = en.tid;
    shared = en.shared;
    bounded = omega (arith, en.near, small.offset);
    placed = λ off e. cc;
  }
  reserve_after-Reserved (true, io') en =
      let inner = reserve_in-Reserved sys io' n en.valid en.buffer (Ensured-IsSmall en) in
      record {
        valid = inner.valid;
        buffer = inner.buffer;
        tid = inner.tid ∙ en.tid;
        shared = Touches-trans en.shared (Touches-tid en.tid inner.shared);
        bounded = inner.bounded;
        placed = λ off e. rw (← en.shared.config) (inner.placed off e);
      }

  -- The address that `coldtrace_writer_reserve` gives lies behind the header and the next entry goes
  -- behind it; if the header and the entry fit the buffer and the configured trace size, the entry
  -- lies inside both. It gives none exactly if there is no buffer. The writer stays valid, and of
  -- the shared state only files of its own thread may change.
  pub writer_reserve-Reserved : IsValid io → Reserved io n (writer_reserve sys io n)
  unfolding writer_reserve
  writer_reserve-Reserved v = reserve_after-Reserved _ (ensure_buffer-Ensured sys io v)

module _ (sys : Sys) (io : Io) (n : ℕ) where
  -- The first entry of a buffer just opened, whatever the test for a new fragment says of it.
  first_entry :
      {io' : Io}
      → IsValid io'
      → is_some io'.impl.buffer ≡ true
      → io'.impl.offset ≡ header_size
      → (off : ℕ) → (reserve_in sys io' n).0 ≡ some off
      → off ≡ header_size
  first_entry {io'} v b h off e =
      let placing = reserve_in-Positioned sys io' n v b in
      elim (Bool-cases (writer_new_trace io' n)) [
        | inl full ↦ placing.anew off e (inr full)
        | inr room ↦ ground (arith, ap (λ (r : Option ℕ × Io). r.0) (placing.behind b room))
      ]

  after_anew :
      (r : Bool × Io)
      → Ensured io r
      → (off : ℕ) → (reserve_after sys n r).0 ≡ some off
      → (is_some io.impl.buffer ≡ false) ⊎ (writer_new_trace io n ≡ true)
      → off ≡ header_size
  after_anew (false, io') en off e why = cc
  after_anew (true, io') en off e why = elim (Bool-cases (is_some io.impl.buffer)) [
    | inr none_yet ↦ first_entry en.valid en.buffer (en.new none_yet refl).0 off e
    | inl there ↦
        let same : io' ≡ io = ap (λ (r : Bool × Io). r.1) (en.old there) in
        let full : writer_new_trace io n ≡ true = elim why [ inl gone ↦ cc | inr f ↦ f ] in
        (reserve_in-Positioned sys io' n en.valid en.buffer).anew off e
          (inr (ap (λ x. writer_new_trace x n) same ∙ full))
  ]

  -- With a buffer and room for the entry, the entry goes behind the last one and nothing else
  -- changes; with no buffer, or no room, it goes behind the header of a fragment.
  pub writer_reserve-Positioned : IsValid io → Positioned io n (writer_reserve sys io n)
  unfolding writer_reserve
  writer_reserve-Positioned v =
      let en = ensure_buffer-Ensured sys io v in
      record {
        behind = λ there room.
            ap (reserve_after sys n) (en.old there)
            ∙ (reserve_in-Positioned sys io n v there).behind there room;
        anew = after_anew _ en;
      }
