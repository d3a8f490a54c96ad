-- ===== src/Writer/Files.antt =====
-- The two loops of src/writer.c over system calls: `write_all_` and `first_fragment_`.
use coldtrace.Prelude.{
  ℕ, zero, suc, ◌+◌, ◌*◌, ◌%◌, ◌^◌, Bool, true, false, Option, none, some, List, [], ◌∷◌, ◌++◌,
  length, take, drop, is_some,
}
use coldtrace.Sys.{Sys, World, wrote, eintr, failed, tick, put_file, content}

-- One write(2) that takes the first `k` of the bytes at the end of the file.
abbrev pub append_file : World → (tid enumerator k : ℕ) → List ℕ → World
append_file w tid enumerator k bytes =
    put_file w tid enumerator (some (content w tid enumerator ++ take k bytes))

-- `write_all_` on the bytes that remain, to the open file of that name, with fuel.
unfoldable pub write_loop : Sys → ℕ → (tid enumerator : ℕ) → List ℕ → World → Option (Bool × World)
write_loop sys zero tid enumerator bytes w = none
write_loop sys (suc fuel) tid enumerator [] w = some (true, w)
write_loop sys (suc fuel) tid enumerator (b ∷ bs) w =
    elim (sys.write_result w.ticks (length (b ∷ bs))) [
      | wrote k ↦
          write_loop sys fuel tid enumerator (drop k (b ∷ bs))
            (append_file (tick w) tid enumerator k (b ∷ bs))
      | eintr ↦ write_loop sys fuel tid enumerator (b ∷ bs) (tick w)
      | failed ↦ some (false, tick w)
    ]

-- The calls that `write_all_` makes for so many bytes, at most.
abbrev pub write_rounds : Sys → ℕ → ℕ
write_rounds sys count = count * (sys.patience + 1) + sys.patience + 2

-- A loop that has run out of fuel counts as failed.
abbrev pub finished {ℓ} : {A : Type ℓ} → Option (Bool × A) → A → Bool × A
finished none a = (false, a)
finished (some r) a = r

-- `write_all_`
unfoldable pub write_all : Sys → (tid enumerator : ℕ) → List ℕ → World → Bool × World
write_all sys tid enumerator bytes w =
    finished (write_loop sys (write_rounds sys (length bytes)) tid enumerator bytes w) w

-- The loop of `first_fragment_`: the enumerator of the file that it creates, or `none` for an open
-- that fails other than by EEXIST; with fuel.
unfoldable pub first_loop : Sys → ℕ → (tid enumerator : ℕ) → World → Option (Bool × (ℕ × World))
first_loop sys zero tid enumerator w = none
first_loop sys (suc fuel) tid enumerator w = elim (sys.open_ok w.ticks) [
  | false ↦ some (false, (enumerator, tick w))
  | true ↦ elim (is_some (w.files tid enumerator)) [
    | false ↦ some (true, (enumerator, put_file (tick w) tid enumerator (some [])))
    | true ↦ first_loop sys fuel tid ((enumerator + 1) % 2 ^ 32) (tick w)
  ]
]

-- After this many rounds the enumerator, a uint32_t, has had every value.
abbrev pub open_rounds : ℕ
open_rounds = 2 ^ 32

-- `first_fragment_`
unfoldable pub first_fragment : Sys → (tid enumerator : ℕ) → World → Bool × (ℕ × World)
first_fragment sys tid enumerator w =
    finished (first_loop sys open_rounds tid enumerator w) (enumerator, w)
