-- ===== src/Config/Init.antt =====
-- The module initialiser of src/config.c: the settings that the environment gives.
use coldtrace.Prelude.{
  same_text, ℕ, ◌+◌, ◌-◌, ◌*◌, ◌%◌, ◌^◌, Bool, false, not, ◌&&◌, ◌||◌, Option, none, some, List, [],
  ◌∷◌, ltb, leb, ◌==◌, if◌then◌else◌, codes, min,
}
use coldtrace.Config.Defs.{Config, set_path, disable_writes, set_trace_size, set_max}
use coldtrace.Utils.Defs.{Dirs, ensure_dir_empty, ensure_dir_exists}

-- `strtoul` and `strtoull` to base 10 in the C locale, on a 64-bit unsigned long: white space, a
-- sign, digits; ULONG_MAX where the digits exceed it.
abbrev pub is_space : ℕ → Bool
is_space c = c == 32 || (leb 9 c && leb c 13)

abbrev pub digits : ℕ → List ℕ → ℕ
digits value [] = value
digits value (c ∷ cs) = if leb 48 c && leb c 57 then digits (value * 10 + (c - 48)) cs else value

abbrev pub clamp : ℕ → ℕ
clamp n = min n (2 ^ 64 - 1)

-- A value that fits is negated modulo 2 ^ 64; one that does not is ULONG_MAX with either sign.
abbrev pub negated : ℕ → ℕ
negated n = if ltb n (2 ^ 64) then (2 ^ 64 - n) % 2 ^ 64 else 2 ^ 64 - 1

abbrev pub signed_digits : List ℕ → ℕ
signed_digits [] = 0
signed_digits (c ∷ cs) =
    if c == 45
    then negated (digits 0 cs)
    else if c == 43
    then clamp (digits 0 cs)
    else clamp (digits 0 (c ∷ cs))

unfoldable pub strtoul : List ℕ → ℕ
strtoul [] = 0
strtoul (c ∷ cs) = let rest = strtoul cs in if is_space c then rest else signed_digits (c ∷ cs)

-- `getenv` of the five variables that start with COLDTRACE_
pub record Env : Type 0 where
  pub max_files : Option (List ℕ)
  pub no_writes : Option (List ℕ)
  pub size : Option (List ℕ)
  pub path : Option (List ℕ)
  pub no_cleanup : Option (List ℕ)

abbrev pub init_max : Option (List ℕ) → Config → Config
init_max none c = c
init_max (some var) c = set_max (strtoul var % 2 ^ 32) c

abbrev pub says_yes : Option (List ℕ) → Bool
says_yes none = false
says_yes (some var) = same_text var (codes "yes") || same_text var (codes "true")

abbrev pub init_size : Option (List ℕ) → Config → Config
init_size none c = c
init_size (some var) c = set_trace_size (strtoul var) c

-- The directory, once `coldtrace_set_path` has taken it. COLDTRACE_DISABLE_CLEANUP has any value.
abbrev pub init_dir : Dirs → (var : List ℕ) → (no_cleanup : Option (List ℕ)) → Config → Config
init_dir dirs var no_cleanup c =
    if not (ensure_dir_exists dirs var) then disable_writes c else elim no_cleanup [
      | some _ ↦ c
      | none ↦ if (ensure_dir_empty dirs var).0 then c else disable_writes c
    ]

abbrev pub init_path : Dirs → (path no_cleanup : Option (List ℕ)) → Config → Config
init_path dirs none no_cleanup c = disable_writes c
init_path dirs (some var) no_cleanup c =
    let (taken, c') = set_path var c in
    if taken then init_dir dirs var no_cleanup c' else disable_writes c

-- `DICE_MODULE_INIT`
unfoldable pub init : Dirs → Env → Config → Config
init dirs env c =
    let c1 = init_max env.max_files c in
    let c2 = if says_yes env.no_writes then disable_writes c1 else c1 in
    let c3 = init_size env.size c2 in init_path dirs env.path env.no_cleanup c3
