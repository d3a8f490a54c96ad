-- ===== src/Thread/Sound.antt =====
-- What holds of a thread between the events: where its fragment stands, and that the call stack of
-- a reader agrees with the thread's own up to the bottom.
use coldtrace.Prelude.{
  ℕ, ◌^◌, ◌≤◌, ◌<◌, ◌≡◌, ◌⊎◌, Bool, true, false, not, ◌&&◌, List, slice, take, is_some,
}
use coldtrace.Writer.Defs.{Io, words}
use coldtrace.Writer.Invariant.{IsValid}
use coldtrace.Thread.Defs.{Self}
use coldtrace.Thread.Read.{Laid, Seen}

-- The functions that have been entered and not left, the outermost first.
abbrev pub calls : Self → List ℕ
calls s = slice s.thread.stack 0 s.thread.stack_size

-- The writer takes entries: it is initialised and has not failed.
abbrev pub is_on : Io → Bool
is_on io = io.impl.initd && not io.impl.failed

-- With a buffer, the fragment holds the entries `log`, and the stack `r` of its reader and the
-- call stack are the same up to the bottom. Without one, the next entry refers to no earlier one.
pub record IsSound (s : Self) (r : List ℕ) (log : List Seen) : Type 0 where
  pub initd : s.thread.initd ≡ true
  pub valid : IsValid s.io
  pub bottom : s.thread.stack_bottom ≤ s.thread.stack_size
  pub room : s.thread.stack_size ≤ s.thread.stack_capacity
  pub small : s.thread.stack_capacity < 2 ^ 32
  pub laid : is_some s.io.impl.buffer ≡ true → Laid (words s.io.impl.buffer) s.io.impl.offset r log
  pub agreed :
      is_some s.io.impl.buffer ≡ true
      → take s.thread.stack_bottom r ≡ slice s.thread.stack 0 s.thread.stack_bottom
  pub closed : is_some s.io.impl.buffer ≡ false → (s.thread.stack_bottom ≡ 0) ⊎ (is_on s.io ≡ false)
