-- ===== src/Procmaps/Defs.antt =====
-- The copies of src/procmaps.c: `mkdir_`, `cp_` and the functions that use them. A function that
-- returns 0 or -1 gives true or false, beside the disk that it leaves.
use coldtrace.Prelude.{
  ℕ, zero, suc, ◌-◌, Bool, true, false, ◌||◌, Option, none, some, List, [], ◌∷◌, ◌++◌, ◌==◌,
  if◌then◌else◌, length, take, drop, codes, decimal,
}
use coldtrace.Utils.Defs.{has_ext}
use coldtrace.Procmaps.Fs.{Fs, is_made}
use coldtrace.Procmaps.Paths.{until, from, before_last, contains, get_line, fit}

-- `MAX_LINE_LENGTH`, `MAX_PATH_LENGTH`, `MAX_BUFFER_SIZE`, `MAX_UNIQUE_PATHS`
abbrev pub max_line_length : ℕ
max_line_length = 256

abbrev pub max_path_length : ℕ
max_path_length = 1024

abbrev pub max_buffer_size : ℕ
max_buffer_size = 4096

abbrev pub max_unique_paths : ℕ
max_unique_paths = 1000

-- `temp[len - 1] == '/'` takes the last byte away.
abbrev pub strip_slash : List ℕ → List ℕ
strip_slash [] = []
strip_slash (x ∷ []) = if x == 47 then [] else x ∷ []
strip_slash (x ∷ y ∷ ys) = x ∷ strip_slash (y ∷ ys)

-- `src` of a line: from its first '/' up to the newline
abbrev pub path_of : List ℕ → Option (List ℕ)
path_of line = elim (from 47 (until 0 line)) [ none ↦ none | some text ↦ some (until 10 text) ]

-- `dst`
abbrev pub target : (path src : List ℕ) → List ℕ
target path src = fit max_path_length (path ++ src)

module _ (fs : Fs) where
  abbrev pub make_one : List ℕ → fs.Disk → Bool × fs.Disk
  make_one path d = (is_made (fs.mkdir path d).0, (fs.mkdir path d).1)

  -- The loop of `mkdir_` and the call behind it; `done` is the text before `p`.
  abbrev pub make_prefixes : (done rest : List ℕ) → fs.Disk → Bool × fs.Disk
  make_prefixes done [] d = make_one done d
  make_prefixes done (c ∷ cs) d =
      let (ok, e) = if c == 47 then make_one done d else (true, d) in
      let rest = make_prefixes (done ++ c ∷ []) cs e in if ok then rest else (false, e)

  -- The loop begins at `temp + 1`; where `temp` is empty, that byte was the 0 behind a single '/'.
  abbrev pub make_path : List ℕ → fs.Disk → Bool × fs.Disk
  make_path [] d = make_one [] d
  make_path (c ∷ cs) d = make_prefixes (c ∷ []) cs d

  -- `mkdir_`
  unfoldable pub mkdir : List ℕ → fs.Disk → Bool × fs.Disk
  mkdir path d = make_path (strip_slash (fit max_path_length path)) d

  -- The loop of `cp_`: fread fills the buffer but at the end of the file.
  abbrev pub copy_loop : ℕ → (dst bytes : List ℕ) → fs.Disk → fs.Disk
  copy_loop zero dst bytes d = d
  copy_loop (suc fuel) dst [] d = d
  copy_loop (suc fuel) dst (b ∷ bs) d =
      copy_loop fuel dst (drop max_buffer_size (b ∷ bs))
        (fs.append dst (take max_buffer_size (b ∷ bs)) d)

  abbrev pub copy_stream : List ℕ → Option (List ℕ) → fs.Disk → fs.Disk
  copy_stream dst none d = d
  copy_stream dst (some bytes) d = copy_loop (length bytes) dst bytes d

  -- `cp_` behind its two calls of fopen. What fread delivers from `src` is what it holds once `dst` is
  -- open, that is, empty.
  abbrev pub copy_open :
      (src dst : List ℕ) → fs.Disk → Option (List ℕ) → Option fs.Disk → Bool × fs.Disk
  copy_open src dst d none opened = (false, d)
  copy_open src dst d (some _) none = (false, d)
  copy_open src dst d (some _) (some e) = (true, copy_stream dst (fs.contents e src) e)

  -- `cp_`
  unfoldable pub cp : (src dst : List ℕ) → fs.Disk → Bool × fs.Disk
  cp src dst d = copy_open src dst d (fs.contents d src) (fs.create dst d)

  -- `copy_proc_maps_` of a process
  unfoldable pub copy_proc_maps : (pid : ℕ) → List ℕ → fs.Disk → Bool × fs.Disk
  copy_proc_maps pid path d =
      let src = fit max_path_length (codes "/proc/" ++ decimal (suc pid) pid ++ codes "/maps") in
      let dst = fit max_path_length (path ++ codes "/maps") in
      let (ok, e) = mkdir path d in if ok then cp src dst e else (false, e)

  -- The variables of `copy_mapped_files_` at the head of its loop.
  pub record Copying : Type 0 where
    pub unique : List ℕ
    pub ret : Bool
    pub disk : fs.Disk

  -- The directory of `dst` is made first.
  abbrev pub make_dir : Option (List ℕ) → fs.Disk → Bool × fs.Disk
  make_dir none d = (true, d)
  make_dir (some dir) d = mkdir dir d

  abbrev pub make_parent : List ℕ → fs.Disk → Bool × fs.Disk
  make_parent dst d = make_dir (before_last 47 dst) d

  -- What a copied file adds to `unique`
  abbrev pub after_cp : (src : List ℕ) → Copying → Bool × fs.Disk → Copying
  after_cp src c (true, d) = record c { unique = c.unique ++ 58 ∷ src; disk = d }
  after_cp src c (false, d) = record c { ret = false; disk = d }

  -- What follows the directory: `cp_`, or the return from within the loop
  abbrev pub after_mkdir : (path src : List ℕ) → Copying → Bool × fs.Disk → Bool × Copying
  after_mkdir path src c (true, d) =
      (true, after_cp src (record c { disk = d }) (cp src (target path src) d))
  after_mkdir path src c (false, d) = (false, record c { ret = false; disk = d })

  -- The body of the loop for a path: whether it goes on, and its state then
  unfoldable pub copy_path : (path src : List ℕ) → Copying → Bool × Copying
  copy_path path src c =
      if contains c.unique src || has_ext src (codes ".bin")
      then (true, c)
      else after_mkdir path src c (make_parent (target path src) c.disk)

  -- The body for a line
  abbrev pub try_path : List ℕ → Copying → Option (List ℕ) → Bool × Copying
  try_path path c none = (true, c)
  try_path path c (some src) = copy_path path src c

  abbrev pub copy_line : (path line : List ℕ) → Copying → Bool × Copying
  copy_line path line c = try_path path c (path_of line)

  -- The loop of `copy_mapped_files_`
  abbrev pub copy_lines : ℕ → (path text : List ℕ) → Copying → Copying
  copy_lines zero path text c = c
  copy_lines (suc fuel) path [] c = c
  copy_lines (suc fuel) path (b ∷ bs) c =
      let (line, rest) = get_line (max_line_length - 1) (b ∷ bs) in
      let (on, c') = copy_line path line c in
      let last = copy_lines fuel path rest c' in if on then last else c'

  -- `copy_mapped_files_`, behind its fopen
  abbrev pub copy_text : (path : List ℕ) → fs.Disk → Option (List ℕ) → Copying
  copy_text path d none = record { unique = []; ret = false; disk = d }
  copy_text path d (some text) =
      copy_lines (length text) path text (record { unique = []; ret = true; disk = d })

  -- `copy_mapped_files_`
  unfoldable pub copy_mapped_files : List ℕ → fs.Disk → Copying
  copy_mapped_files path d =
      copy_text path d (fs.contents d (fit max_path_length (path ++ codes "/maps")))
