-- ===== src/Procmaps/Dump.antt =====
-- `copy_proc_maps_` and `copy_maps_and_mapped_files_` of src/procmaps.c: the maps and the files that they
-- name, in one directory.
use coldtrace.Prelude.{
  ℕ, suc, ◌-◌, ◌<◌, ◌≡◌, ◌≢◌, refl, sym, ap, ◌∙◌, Bool, true, false, some, List, [], ◌∷◌, ◌++◌,
  length, length-append, codes, decimal, no_bool, if◌then◌else◌, is_empty, arith,
}
use coldtrace.Config.Defs.{Config, default_path_size, get_path}
use coldtrace.Procmaps.Fs.{Fs, Lawful}
use coldtrace.Procmaps.Paths.{starts_with, fit}
use coldtrace.Procmaps.Substrings.{starts_with-append, take-short}
use coldtrace.Procmaps.Defs.{Copying, mkdir, cp, copy_proc_maps, copy_mapped_files, max_path_length}
use coldtrace.Procmaps.Events.{Maps, copy_maps_and_mapped_files}
use coldtrace.Procmaps.Copy.{cp-Copied}
use coldtrace.Procmaps.Directories.{mkdir-files}
use coldtrace.Procmaps.Files.{MappedCopies, copy_mapped_files-MappedCopies}

-- The two paths of `copy_proc_maps_`
abbrev pub maps_source : ℕ → List ℕ
maps_source pid = fit max_path_length (codes "/proc/" ++ decimal (suc pid) pid ++ codes "/maps")

abbrev pub maps_target : List ℕ → List ℕ
maps_target path = fit max_path_length (path ++ codes "/maps")

module _ {fs : Fs} (law : Lawful fs) where
  -- What `copy_proc_maps_` leaves.
  record ProcCopied (pid : ℕ) (path : List ℕ) (d : fs.Disk) (x : Bool × fs.Disk) : Type 0 where
    copied : x.0 ≡ true → fs.contents x.1 (maps_target path) ≡ fs.contents d (maps_source pid)
    others : (q : List ℕ) → q ≢ maps_target path → fs.contents x.1 q ≡ fs.contents d q

  then_cp :
      (pid : ℕ) (path : List ℕ) (d : fs.Disk) (x : Bool × fs.Disk)
      → maps_source pid ≢ maps_target path
      → ((q : List ℕ) → fs.contents x.1 q ≡ fs.contents d q)
      → ProcCopied pid path d
          (if x.0 then cp fs (maps_source pid) (maps_target path) x.1 else (false, x.1))
  then_cp pid path d (true, e) ne same =
      let c = cp-Copied law (maps_source pid) (maps_target path) e ne in
      record {
        copied = λ h. c.copied h ∙ same (maps_source pid);
        others = λ q other. c.others q other ∙ same q;
      }
  then_cp pid path d (false, e) ne same = record {
    copied = λ h. absurd (no_bool h);
    others = λ q other. same q;
  }

  copy_proc_maps-ProcCopied :
      (pid : ℕ) (path : List ℕ) (d : fs.Disk)
      → maps_source pid ≢ maps_target path
      → ProcCopied pid path d (copy_proc_maps fs pid path d)
  unfolding copy_proc_maps
  copy_proc_maps-ProcCopied pid path d ne =
      then_cp pid path d (mkdir fs path d) ne (λ q. mkdir-files law path q d)

  below_path :
      (path q : List ℕ)
      → length path < default_path_size
      → starts_with path q ≡ false
      → q ≢ maps_target path
  below_path path q short h e =
      let whole =
        take-short (max_path_length - 1) (path ++ codes "/maps")
          (omega (arith, length-append path (codes "/maps"))) in
      no_bool (sym h ∙ ap (starts_with path) (e ∙ whole) ∙ starts_with-append path (codes "/maps"))

  not_empty : (path : List ℕ) → 0 < length path → is_empty path ≡ false
  not_empty [] h = absurd (omega arith)
  not_empty (_ ∷ _) h = refl

  rebase :
      {path text : List ℕ} {d e : fs.Disk} {c : Copying fs}
      → length path < default_path_size
      → ((q : List ℕ) → q ≢ maps_target path → fs.contents e q ≡ fs.contents d q)
      → MappedCopies fs path text e c
      → MappedCopies fs path text d c
  rebase {path = path} short same m = record {
    files = m.files;
    chosen = m.chosen;
    faithful = λ p k h. m.faithful p k h ∙ same p (below_path path p short h);
    outside = λ q h. m.outside q h ∙ same q (below_path path q short h);
    marked = m.marked;
    untouched = λ q other h. m.untouched q other h ∙ same q other;
    whole = m.whole;
    handled = m.handled;
  }

  -- Where the copy of /proc/<pid>/maps succeeds, `copy_mapped_files_` runs behind it on the same
  -- directory; it reads the whole of those maps and copies their files as `MappedCopies` says, each with
  -- what it held before the whole operation. What it leaves of the disk is the result, and the flag is
  -- set. The directory's path is not empty and fits its array, and it is not the one of the process
  -- below /proc.
  pub copy_maps-MappedCopies :
      (pid : ℕ) (config : Config) (text : List ℕ) (m : Maps fs)
      → let path = get_path config in
        length path < default_path_size
        → 0 < length path
        → maps_source pid ≢ maps_target path
        → fs.contents m.disk (maps_source pid) ≡ some text
        → (copy_proc_maps fs pid path m.disk).0 ≡ true
        → let c = copy_mapped_files fs path (copy_proc_maps fs pid path m.disk).1 in
          MappedCopies fs path text m.disk c
          × (copy_maps_and_mapped_files fs pid config m
              ≡ record { maps_copied = true; disk = c.disk })
  unfolding copy_maps_and_mapped_files
  copy_maps-MappedCopies pid config text m short named ne there ok =
      let path = get_path config in
      let p = copy_proc_maps-ProcCopied pid path m.disk ne in
      let e = (copy_proc_maps fs pid path m.disk).1 in
      let some_path : is_empty path ≡ false = not_empty path named in
      (
        rebase short p.others
            (copy_mapped_files-MappedCopies law path text e short named (p.copied ok ∙ there)),
        rw some_path refl,
      )
