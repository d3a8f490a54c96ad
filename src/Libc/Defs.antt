-- ===== src/Libc/Defs.antt =====
-- `COLDTRACE_REAL_` of include/coldtrace/libc.h and the wrappers that use it. An address is a number,
-- NULL is 0; a wrapper has a cache of its own, so that a cache belongs to a symbol.
use coldtrace.Prelude.{ℕ, List, [], ◌∷◌, ◌==◌, if◌then◌else◌}

-- The names that the wrappers pass to `real_sym`
pub data Symbol : Type 0 where
  sym_malloc sym_calloc sym_realloc sym_free sym_memcpy sym_memmove sym_memset sym_mmap sym_munmap :
      Symbol

-- The number of a symbol, to compare two
abbrev pub rank : Symbol → ℕ
rank sym_malloc = 0
rank sym_calloc = 1
rank sym_realloc = 2
rank sym_free = 3
rank sym_memcpy = 4
rank sym_memmove = 5
rank sym_memset = 6
rank sym_mmap = 7
rank sym_munmap = 8

-- What a wrapper is called with: the function that it is for, and its arguments
pub record Request : Type 0 where
  pub symbol : Symbol
  pub arguments : List ℕ

abbrev pub coldtrace_malloc : (size : ℕ) → Request
coldtrace_malloc size = record { symbol = sym_malloc; arguments = size ∷ [] }

abbrev pub coldtrace_calloc : (number size : ℕ) → Request
coldtrace_calloc number size = record { symbol = sym_calloc; arguments = number ∷ size ∷ [] }

abbrev pub coldtrace_realloc : (ptr size : ℕ) → Request
coldtrace_realloc ptr size = record { symbol = sym_realloc; arguments = ptr ∷ size ∷ [] }

abbrev pub coldtrace_free : (ptr : ℕ) → Request
coldtrace_free ptr = record { symbol = sym_free; arguments = ptr ∷ [] }

abbrev pub coldtrace_memcpy : (dest src n : ℕ) → Request
coldtrace_memcpy dest src n = record { symbol = sym_memcpy; arguments = dest ∷ src ∷ n ∷ [] }

abbrev pub coldtrace_memmove : (dest src n : ℕ) → Request
coldtrace_memmove dest src n = record { symbol = sym_memmove; arguments = dest ∷ src ∷ n ∷ [] }

abbrev pub coldtrace_memset : (ptr value n : ℕ) → Request
coldtrace_memset ptr value n = record { symbol = sym_memset; arguments = ptr ∷ value ∷ n ∷ [] }

abbrev pub coldtrace_mmap : (addr length prot flags fd offset : ℕ) → Request
coldtrace_mmap addr length prot flags fd offset = record {
  symbol = sym_mmap;
  arguments = addr ∷ length ∷ prot ∷ flags ∷ fd ∷ offset ∷ [];
}

abbrev pub coldtrace_munmap : (addr length : ℕ) → Request
coldtrace_munmap addr length = record { symbol = sym_munmap; arguments = addr ∷ length ∷ [] }

-- `cached_` of each wrapper
abbrev pub Cache : Type 0
Cache = Symbol → ℕ

-- Where a thread stands in the macro: `p_` was NULL, `p_` is what `real_sym` returned, or the function
-- at `p_` is called next.
pub data Pc : Type 0 where
  idle : Pc
  missed : Request → Pc
  resolved found : Request → ℕ → Pc

-- `vatomicptr_read_acq` and the test of its result
unfoldable pub read_cached : Cache → Request → Pc
read_cached cached request =
    let p = cached request.symbol in if p == 0 then missed request else found request p

-- `real_sym`
unfoldable pub resolve : (Symbol → ℕ) → Request → Pc
resolve real_sym request = resolved request (real_sym request.symbol)

-- `vatomicptr_write_rel`
unfoldable pub write_cached : Symbol → ℕ → Cache → Cache
write_cached symbol p cached s = if rank s == rank symbol then p else cached s
