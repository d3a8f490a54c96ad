-- ===== src/Utils/Defs.antt =====
-- The directory helpers of src/utils.c. A directory is the list that readdir(3) gives; a C string is
-- the bytes before its 0.
use coldtrace.Prelude.{
  ℕ, Bool, true, false, not, ◌&&◌, ◌||◌, Option, none, some, List, [], ◌∷◌, ◌==◌, if◌then◌else◌,
  codes, same_text,
}

-- `strrchr(fname, '.')`: the text from its last dot on
abbrev pub last_dot : List ℕ → Option (List ℕ)
last_dot [] = none
last_dot (c ∷ cs) = elim (last_dot cs) [
  | some base ↦ some base
  | none ↦ if c == 46 then some (c ∷ cs) else none
]

-- `has_ext`
unfoldable pub has_ext : List ℕ → List ℕ → Bool
has_ext fname ext = elim (last_dot fname) [ none ↦ false | some base ↦ same_text base ext ]

-- A directory entry, with whether stat(2) succeeds on it and finds a regular file.
pub record DirEntry : Type 0 where
  pub name : List ℕ
  pub regular : Bool

-- Whether `ensure_dir_empty` removes an entry
unfoldable pub is_trace : DirEntry → Bool
unfolding has_ext
is_trace d =
    not (same_text d.name (codes ".") || same_text d.name (codes ".."))
    && has_ext d.name (codes ".bin")
    && d.regular

-- The loop of `ensure_dir_empty`: the first remove(3) that fails ends it. The entries that remain.
unfoldable pub clean : (List ℕ → Bool) → List DirEntry → Bool × List DirEntry
clean remove_ok [] = (true, [])
clean remove_ok (d ∷ ds) =
    let (ok, rest) = clean remove_ok ds in
    if not (is_trace d)
    then (ok, d ∷ rest)
    else if remove_ok d.name
    then (ok, rest)
    else (false, d ∷ ds)

-- What the system answers about a path.
pub record Dirs : Type 0 where
  -- stat(2): `none` if it fails, else whether the path is a directory
  pub stat : List ℕ → Option Bool
  pub mkdir_ok : List ℕ → Bool
  -- opendir(3) and readdir(3)
  pub entries : List ℕ → Option (List DirEntry)
  pub remove_ok : List ℕ → Bool

-- `ensure_dir_empty`, true for 0
unfoldable pub ensure_dir_empty : Dirs → List ℕ → Bool × List DirEntry
unfolding clean
ensure_dir_empty dirs path = elim (dirs.entries path) [
  | none ↦ (false, [])
  | some ds ↦ clean dirs.remove_ok ds
]

-- `ensure_dir_exists`, true for 0
unfoldable pub ensure_dir_exists : Dirs → List ℕ → Bool
ensure_dir_exists dirs path = elim (dirs.stat path) [
  | some is_dir ↦ is_dir
  | none ↦ dirs.mkdir_ok path
]
