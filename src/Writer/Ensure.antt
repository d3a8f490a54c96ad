-- ===== src/Writer/Ensure.antt =====
-- `ensure_buffer_` of src/writer.c: what it leaves of a valid writer, whichever way it goes.
use coldtrace.Prelude.{
  ℕ, ◌≤◌, ◌≡◌, max, refl, ◌∙◌, Bool, true, false, not, is_some, if_split, arith,
}
use coldtrace.Sys.{Sys}
use coldtrace.Writer.Defs.{Io, header_size, lz4_max_input_size, validate_trace_size}
use coldtrace.Writer.Ops.{ensure_buffer}
use coldtrace.Writer.Frame.{Touches, Touches-refl}
use coldtrace.Writer.Invariant.{IsValid}
use coldtrace.Writer.Opening.{IsFresh, Opens, open_disabled-Opens, open_enabled-Opens}

sized : ℕ → Io → Io
sized size io = record io { impl = record (io.impl) { size = size; offset = 0; enumerator = 0 } }

sized-IsFresh :
    (io : Io) (size : ℕ) (compressed : Bool)
    → IsValid io
    → io.impl.initd ≡ true
    → io.impl.failed ≡ false
    → is_some io.impl.buffer ≡ false
    → validate_trace_size size compressed ≡ true
    → IsFresh (sized size io) × (compressed ≡ true → size ≤ lz4_max_input_size)
unfolding validate_trace_size sized
sized-IsFresh io size compressed v i f b ok = ground arith

-- `ensure_buffer_` keeps the writer valid and has a buffer exactly if it succeeds. It leaves a
-- buffer that is there alone; a new one has the configured size and holds the header.
pub record Ensured (io : Io) (r : Bool × Io) : Type 0 where
  pub valid : IsValid r.1
  pub buffer : is_some r.1.impl.buffer ≡ r.0
  pub tid : r.1.impl.tid ≡ io.impl.tid
  pub shared : Touches io.impl.tid io.world r.1.world
  pub near : r.1.impl.offset ≤ max io.impl.offset header_size
  pub old : is_some io.impl.buffer ≡ true → r ≡ (true, io)
  pub new :
      is_some io.impl.buffer ≡ false
      → r.0 ≡ true
      → (r.1.impl.offset ≡ header_size) × (r.1.impl.size ≡ io.world.config.trace_size)

-- No buffer is there and none is opened.
refused-Ensured :
    (io io' : Io)
    → IsValid io'
    → is_some io.impl.buffer ≡ false
    → is_some io'.impl.buffer ≡ false
    → io'.impl.tid ≡ io.impl.tid
    → io'.world ≡ io.world
    → io'.impl.offset ≤ max io.impl.offset header_size
    → Ensured io (false, io')
refused-Ensured io io' v b b' t w o = record {
  valid = v;
  buffer = b';
  tid = t;
  shared = rw w (Touches-refl io.world);
  near = o;
  old = λ e. cc;
  new = λ e d. cc;
}

Opens-Ensured :
    (io : Io) (size : ℕ) {r : Bool × Io}
    → is_some io.impl.buffer ≡ false
    → size ≡ io.world.config.trace_size
    → Opens (sized size io) r
    → Ensured io r
unfolding sized
Opens-Ensured io size b e o = record {
  valid = o.valid;
  buffer = o.buffer;
  tid = o.tid;
  shared = o.shared;
  near = omega (arith, o.near);
  old = λ t. cc;
  new = λ _ d. (o.offset d, o.size ∙ e);
}

pub ensure_buffer-Ensured : (sys : Sys) (io : Io) → IsValid io → Ensured io (ensure_buffer sys io)
unfolding ensure_buffer sized
ensure_buffer-Ensured sys io v =
    let size = io.world.config.trace_size in
    let disabled = io.world.config.disable_writes in
    if_split (Ensured io) (not io.impl.initd)
      (λ e. refused-Ensured io io v (ground arith) (ground arith) refl refl (omega arith))
      (λ i.
        if_split (Ensured io) io.impl.failed
          (λ e. refused-Ensured io io v (ground arith) (ground arith) refl refl (omega arith))
          (λ f.
            if_split (Ensured io) (is_some io.impl.buffer)
              (λ b. record {
                valid = v;
                buffer = b;
                tid = refl;
                shared = Touches-refl io.world;
                near = omega arith;
                old = λ _. refl;
                new = λ n. cc;
              })
              (λ b.
                if_split (Ensured io) (not (validate_trace_size size (not disabled)))
                  (λ bad. refused-Ensured io _ (ground arith) b b refl refl (omega arith))
                  (λ ok.
                    let (fresh, fits) =
                      sized-IsFresh io size (not disabled) v (ground arith) f b (ground arith) in
                    Opens-Ensured io size b refl (
                      if_split (Opens (sized size io)) disabled
                        (λ d. open_disabled-Opens sys (sized size io) fresh)
                        (λ d.
                          open_enabled-Opens sys (sized size io) fresh (fits (ground arith))))))))
