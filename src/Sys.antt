-- ===== src/Sys.antt =====
-- What the tracer calls outside its own sources: memory, files, LZ4 and the build's version header.
-- `Sys` answers the calls, `World` is the state that they and the tracer share.
use coldtrace.Prelude.{
  ℕ, ◌+◌, ◌/◌, ◌%◌, ◌^◌, ◌≤◌, ◌<◌, zero, suc, ◌≡◌, Bool, ◌&&◌, Option, none, some, List, [], ◌∷◌,
  ◌==◌, if◌then◌else◌,
}
use coldtrace.Config.Defs.{Config}

-- Memory as 64-bit words, by word index from the start of an allocation.
abbrev pub Mem : Type 0
Mem = ℕ → ℕ

abbrev pub store : Mem → ℕ → ℕ → Mem
store m i v j = if j == i then v else m j

-- What one call of write(2) does: it takes some bytes, is interrupted (EINTR), or fails.
pub data WriteResult : Type 0 where
  wrote : ℕ → WriteResult
  eintr failed : WriteResult

-- The answers of the system. A call is numbered by the ticks that the world counted before it.
pub record Sys : Type 0 where
  -- The version header, which the build generates, as the word that it occupies.
  pub version : ℕ
  -- `MAIN_THREAD`, the id of the main thread
  pub main_thread : ℕ
  pub mmap_ok : ℕ → Bool
  pub malloc_ok : ℕ → Bool
  pub mempool_ok : ℕ → Bool
  -- The contents of a block that `mempool_alloc` returns.
  pub mempool_mem : ℕ → Mem
  -- open(2) succeeds, but for EEXIST.
  pub open_ok : ℕ → Bool
  -- write(2) asked to write so many bytes
  pub write_result : ℕ → ℕ → WriteResult
  -- EINTR stops a call at most so often in a row.
  pub patience : ℕ
  -- `LZ4_compressBound`
  pub compress_bound : ℕ → ℕ
  -- `LZ4_compress_fast` of these bytes into a buffer of this capacity; `none` for a result ≤ 0
  pub compress : List ℕ → ℕ → Option (List ℕ)

-- The trace files of the directory by thread id and enumerator, which the pattern renders.
abbrev pub Files : Type 0
Files = ℕ → ℕ → Option (List ℕ)

abbrev pub set_file : Files → ℕ → ℕ → Option (List ℕ) → Files
set_file files tid enumerator content t e =
    if (t == tid) && (e == enumerator) then content else files t e

pub record World : Type 0 where
  pub config : Config
  pub ticks : ℕ
  pub files : Files
  -- `next_alloc_index` and `next_atomic_index` of src/counters.c
  pub next_alloc_index : ℕ
  pub next_atomic_index : ℕ
  -- An integer division by zero has stopped the process.
  pub crashed : Bool

abbrev pub tick : World → World
tick w = record w { ticks = w.ticks + 1 }

abbrev pub put_file : World → ℕ → ℕ → Option (List ℕ) → World
put_file w tid enumerator content = record w { files = set_file w.files tid enumerator content }

abbrev pub content : World → ℕ → ℕ → List ℕ
content w tid enumerator = elim (w.files tid enumerator) [ none ↦ [] | some bytes ↦ bytes ]

-- write(2) behaves: it takes at least one byte and no more than it was given, and an interrupted
-- call is followed by fewer interruptions than it was preceded by.
pub record Fair (sys : Sys) : Type 0 where
  pub wait : ℕ → ℕ
  pub wait_le : (t : ℕ) → wait t ≤ sys.patience
  pub progress : (t n k : ℕ) → 0 < n → sys.write_result t n ≡ wrote k → (0 < k) × (k ≤ n)
  pub falls : (t n : ℕ) → sys.write_result t n ≡ eintr → wait (t + 1) < wait t

-- The low `n` bytes of a word, in memory order.
abbrev pub le_bytes : ℕ → ℕ → List ℕ
le_bytes zero w = []
le_bytes (suc n) w = w % 256 ∷ le_bytes n (w / 256)

-- The byte at an address, and `n` bytes from there on.
abbrev pub byte_at : Mem → ℕ → ℕ
byte_at m a = m (a / 8) / 256 ^ (a % 8) % 256

abbrev pub read_bytes : Mem → ℕ → ℕ → List ℕ
read_bytes m a zero = []
read_bytes m a (suc n) = byte_at m a ∷ read_bytes m (suc a) n
