-- ===== src/Libc/Tests.antt =====
-- Two threads that allocate at the same time.
use coldtrace.Prelude.{ℕ, refl, inl, [], ◌+◌}
use coldtrace.Libc.Defs.{Symbol, rank, coldtrace_malloc, idle, read_cached}
use coldtrace.Libc.Race.{Scene, set_pc, here, next, enter, IsReal, no_call, Interleaves-IsReal}

abbrev address_of : Symbol → ℕ
address_of k = 1000 + rank k

abbrev fresh : Scene
fresh = record { cached = λ k. 0; pc = λ t. idle; calls = [] }

fresh-IsReal : IsReal address_of fresh
fresh-IsReal = record { cached = λ k. inl refl; right = λ t. tt; calls = no_call }

abbrev one_in : Scene
one_in = record fresh { pc = set_pc fresh.pc 1 (read_cached fresh.cached (coldtrace_malloc 8)) }

abbrev both_in : Scene
both_in = record one_in {
  pc = set_pc one_in.pc 2 (read_cached one_in.cached (coldtrace_malloc 16));
}

Interleaves-IsReal_example : IsReal address_of both_in
Interleaves-IsReal_example =
    Interleaves-IsReal address_of fresh-IsReal
      (next (next here (enter 1 (coldtrace_malloc 8) refl)) (enter 2 (coldtrace_malloc 16) refl))
