-- ===== src/Procmaps/Files.antt =====
-- `copy_mapped_files_` of src/procmaps.c as a whole: which files it copies, and what fits its arrays.
use mathlib.Core.List.Memᴰ.{Memᴰ}
use mathlib.Core.Path.{subst}
use coldtrace.Prelude.{
  ℕ, ◌*◌, ◌<◌, ◌≡◌, ◌≢◌, refl, sym, ◌⊎◌, true, false, some, List, [], ◌++◌, length, codes, arith,
}
use coldtrace.Utils.Defs.{has_ext}
use coldtrace.Config.Defs.{default_path_size}
use coldtrace.Procmaps.Fs.{Fs, Lawful}
use coldtrace.Procmaps.Paths.{starts_with, contains, fit}
use coldtrace.Procmaps.Defs.{
  Copying, target, path_of, copy_text, copy_mapped_files, max_path_length, max_unique_paths,
}
use coldtrace.Procmaps.Chosen.{joined, Chosen, none_yet, length-Chosen, target_lem}
use coldtrace.Procmaps.Mapped.{IsCopying}
use coldtrace.Procmaps.Lines.{lines_of, concat, concat-lines_of, Looped, copy_lines-Looped}

-- What `copy_mapped_files_` leaves, where `text` are the maps in the directory.
pub record MappedCopies (fs : Fs) (path text : List ℕ) (before : fs.Disk) (c : Copying fs)
    : Type 0 where
  pub files : List (List ℕ)
  pub chosen : Chosen files
  pub faithful :
      (p : List ℕ)
      → Memᴰ p files
      → starts_with path p ≡ false
      → fs.contents c.disk (path ++ p) ≡ fs.contents before p
  pub outside :
      (q : List ℕ) → starts_with path q ≡ false → fs.contents c.disk q ≡ fs.contents before q
  pub marked : c.unique ≡ joined files
  pub untouched :
      (q : List ℕ)
      → q ≢ fit max_path_length (path ++ codes "/maps")
      → ((p : List ℕ) → Memᴰ p files → q ≢ target path p)
      → fs.contents c.disk q ≡ fs.contents before q
  pub whole : concat (lines_of (length text) text) ≡ text
  pub handled :
      (line src : List ℕ)
      → Memᴰ line (lines_of (length text) text)
      → path_of line ≡ some src
      → c.ret ≡ true
      → (has_ext src (codes ".bin") ≡ true) ⊎ (contains (joined files) src ≡ true)

module _ {fs : Fs} (law : Lawful fs) where
  start-IsCopying :
      (path : List ℕ) (d : fs.Disk)
      → IsCopying law path d (record { unique = []; ret = true; disk = d })
  start-IsCopying path d = record {
    files = [];
    marked = refl;
    chosen = none_yet;
    faithful = λ p m. elim m [ ];
    outside = λ q h. refl;
    untouched = λ q h. refl;
  }

  copy_mapped_files-Looped :
      (path text : List ℕ) (d : fs.Disk)
      → (short : length path < default_path_size) → (named : 0 < length path)
      → fs.contents d (fit max_path_length (path ++ codes "/maps")) ≡ some text
      → Looped law path short named d
          (lines_of (length text) text)
          (record { unique = []; ret = true; disk = d })
          (copy_mapped_files fs path d)
  unfolding copy_mapped_files
  copy_mapped_files-Looped path text d short named there =
      subst
        (λ o.
          Looped law path short named d (lines_of (length text) text)
            (record { unique = []; ret = true; disk = d }) (copy_text fs path d o))
        (sym there)
        (copy_lines-Looped law path short named (length text) text _ (start-IsCopying path d))

  -- From a copy of the maps, `copy_mapped_files_` copies files one by one, where the lines that it reads
  -- are the whole copy. No file is copied that has the extension .bin, or that is a part of the paths
  -- that were copied before it, so none is copied twice; the array `unique` holds the copied ones. Each
  -- copy holds what its source held. No other file changes, neither outside the directory nor, but for the
  -- copy of the maps, inside. If the result is 0, every path of a line has the extension or
  -- is a part of the paths that were copied. The directory's path is not empty and fits its array; a
  -- source that is itself in the directory is left out of what is said of the copies.
  pub copy_mapped_files-MappedCopies :
      (path text : List ℕ) (d : fs.Disk)
      → length path < default_path_size
      → 0 < length path
      → fs.contents d (fit max_path_length (path ++ codes "/maps")) ≡ some text
      → MappedCopies fs path text d (copy_mapped_files fs path d)
  copy_mapped_files-MappedCopies path text d short named there =
      let l = copy_mapped_files-Looped path text d short named there in
      let k = l.sound in
      record {
        files = k.files;
        chosen = k.chosen;
        faithful = λ p m h.
            subst (λ q. fs.contents (copy_mapped_files fs path d).disk q ≡ fs.contents d p)
              (target_lem path p short (length-Chosen k.chosen m)) (k.faithful p m h);
        outside = k.outside;
        marked = k.marked;
        untouched = λ q _ h. k.untouched q h;
        whole = concat-lines_of (length text) text (omega arith);
        handled = λ line src m e h.
            subst (λ u. (has_ext src (codes ".bin") ≡ true) ⊎ (contains u src ≡ true)) k.marked
              (l.handled line src m e h);
      }

  -- The array `unique`, to which the code appends without a check, holds the paths of fewer than 4,000
  -- lines of the maps and their final 0. The directory's path is not empty and fits its array.
  pub unique-fits :
      (path text : List ℕ) (d : fs.Disk)
      → length path < default_path_size
      → 0 < length path
      → fs.contents d (fit max_path_length (path ++ codes "/maps")) ≡ some text
      → length (lines_of (length text) text) < 4000
      → length (copy_mapped_files fs path d).unique < max_path_length * max_unique_paths
  unique-fits path text d short named there few =
      omega (arith, (copy_mapped_files-Looped path text d short named there).size)
