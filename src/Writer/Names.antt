-- ===== src/Writer/Names.antt =====
-- The names of the fragment files: `sprintf(file_name, pattern, impl->tid, impl->enumerator)` in `flush_`
-- and `first_fragment_` of src/writer.c.
use coldtrace.Prelude.{
  ℕ, suc, ◌-◌, ◌%◌, ◌^◌, Bool, true, false, not, ◌&&◌, Option, none, some, List, [], ◌∷◌, ◌++◌, ltb,
  ◌==◌, if◌then◌else◌, decimal,
}
use coldtrace.Config.Defs.{Config, get_file_pattern}

-- `%d` of an argument, of which printf reads the low 32 bits as an int
abbrev pub int_text : ℕ → List ℕ
int_text arg =
    let v = arg % 2 ^ 32 in
    if ltb v (2 ^ 31) then decimal (suc v) v else 45 ∷ decimal (suc (2 ^ 32 - v)) (2 ^ 32 - v)

-- The conversion behind a percent sign, a `%d`. It is `none` where the arguments have run out, and for
-- every other conversion: `COLDTRACE_FILE_SUFFIX` has none.
abbrev pub printed : ℕ → List ℕ → Option (List ℕ) → Option (List ℕ)
printed c [] rest = none
printed c (arg ∷ args) none = none
printed c (arg ∷ args) (some text) = if c == 100 then some (int_text arg ++ text) else none

abbrev pub copied : ℕ → Option (List ℕ) → Option (List ℕ)
copied c none = none
copied c (some text) = some (c ∷ text)

abbrev pub args_behind : Bool → List ℕ → List ℕ
args_behind true (_ ∷ args) = args
args_behind true [] = []
args_behind false args = args

-- The rest of a format, behind a percent sign or not
unfoldable pub print_rest : Bool → List ℕ → List ℕ → Option (List ℕ)
print_rest percent [] args = if percent then none else some []
print_rest percent (c ∷ format) args =
    let rest = print_rest (not percent && c == 37) format (args_behind percent args) in
    if percent then printed c args rest else if c == 37 then rest else copied c rest

-- `sprintf` of a format with `%d` only
unfoldable pub sprintf : List ℕ → List ℕ → Option (List ℕ)
sprintf format args = print_rest false format args

-- The name of a file
unfoldable pub file_name : Config → (tid enumerator : ℕ) → Option (List ℕ)
file_name config tid enumerator = sprintf (get_file_pattern config) (tid ∷ enumerator ∷ [])

-- `FORMAT_EXPANSION_SPACE`
abbrev pub format_expansion_space : ℕ
format_expansion_space = 20
