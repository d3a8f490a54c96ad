-- ===== src/Procmaps/Paths.antt =====
-- The string functions that src/procmaps.c calls, on C strings as the bytes before their 0.
use coldtrace.Prelude.{
  ℕ, zero, suc, ◌-◌, Bool, true, false, ◌&&◌, ◌||◌, Option, none, some, List, [], ◌∷◌, ◌==◌,
  if◌then◌else◌, take,
}

-- The text before the first `c`: `strcspn` with one byte, and a C string in an array for 0
abbrev pub until : ℕ → List ℕ → List ℕ
until c [] = []
until c (x ∷ xs) = if x == c then [] else x ∷ until c xs

-- `strchr`
abbrev pub from : ℕ → List ℕ → Option (List ℕ)
from c [] = none
from c (x ∷ xs) = if x == c then some (x ∷ xs) else from c xs

-- The text before the last `c`: `strrchr` and a 0 in its place
abbrev pub before_last : ℕ → List ℕ → Option (List ℕ)
before_last c [] = none
before_last c (x ∷ xs) = elim (before_last c xs) [
  | some base ↦ some (x ∷ base)
  | none ↦ if x == c then some [] else none
]

abbrev pub starts_with : List ℕ → List ℕ → Bool
starts_with [] text = true
starts_with (x ∷ xs) [] = false
starts_with (x ∷ xs) (y ∷ ys) = (x == y) && starts_with xs ys

-- `strstr(text, part)` finds something
abbrev pub contains : List ℕ → List ℕ → Bool
contains [] part = starts_with part []
contains (x ∷ xs) part = starts_with part (x ∷ xs) || contains xs part

-- A line of `fgets` with room for `n` bytes and the 0, and what it leaves
abbrev pub get_line : ℕ → List ℕ → List ℕ × List ℕ
get_line zero text = ([], text)
get_line (suc n) [] = ([], [])
get_line (suc n) (x ∷ xs) =
    let (line, rest) = get_line n xs in if x == 10 then (x ∷ [], xs) else (x ∷ line, rest)

-- `snprintf` into an array of `size` bytes
abbrev pub fit : ℕ → List ℕ → List ℕ
fit size text = take (size - 1) text
