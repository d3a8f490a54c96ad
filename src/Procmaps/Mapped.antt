-- ===== src/Procmaps/Mapped.antt =====
-- What `copy_mapped_files_` of src/procmaps.c copies.
use mathlib.Core.List.Memᴰ.{Memᴰ, head, tail}
use coldtrace.Prelude.{
  ℕ, ◌<◌, ◌≡◌, ◌≢◌, refl, sym, ap, ◌∙◌, Bool, true, false, List, ◌∷◌, ◌++◌, length, length-append,
  codes, arith, no_bool,
}
use coldtrace.Utils.Defs.{has_ext}
use coldtrace.Config.Defs.{default_path_size}
use coldtrace.Procmaps.Fs.{Fs, Lawful}
use coldtrace.Procmaps.Paths.{starts_with, contains}
use coldtrace.Procmaps.Substrings.{starts_with-append}
use coldtrace.Procmaps.Defs.{Copying, target, after_cp, max_line_length}
use coldtrace.Procmaps.Copy.{Copied}
use coldtrace.Procmaps.Chosen.{
  joined, Chosen, one_more, contains-joined, length-Chosen, target_lem, append_cancel,
}

module _ {fs : Fs} (law : Lawful fs) where
  -- The state of the loop against the disk before it: `files` are the copied paths, the last one first.
  pub record IsCopying (path : List ℕ) (before : fs.Disk) (c : Copying fs) : Type 0 where
    pub files : List (List ℕ)
    pub marked : c.unique ≡ joined files
    pub chosen : Chosen files
    -- A copy below `path` holds what its source held, unless the source is itself below `path`.
    pub faithful :
        (p : List ℕ)
        → Memᴰ p files
        → starts_with path p ≡ false
        → fs.contents c.disk (target path p) ≡ fs.contents before p
    -- Nothing outside changes.
    pub outside :
        (q : List ℕ) → starts_with path q ≡ false → fs.contents c.disk q ≡ fs.contents before q
    -- Nor does anything inside but the copies.
    pub untouched :
        (q : List ℕ)
        → ((p : List ℕ) → Memᴰ p files → q ≢ target path p)
        → fs.contents c.disk q ≡ fs.contents before q

  module _ (path : List ℕ) (short : length path < default_path_size) (named : 0 < length path) where
    not_target :
        (q src : List ℕ)
        → length src < max_line_length
        → starts_with path q ≡ false
        → q ≢ target path src
    not_target q src small h e =
        let inside : starts_with path (path ++ src) ≡ true = starts_with-append path src in
        absurd (ground (arith, ap (starts_with path) (e ∙ target_lem path src short small)))

    -- A disk with the same files
    pub move-IsCopying :
        {before : fs.Disk} (c : Copying fs) (d : fs.Disk)
        → ((q : List ℕ) → fs.contents d q ≡ fs.contents c.disk q)
        → IsCopying path before c
        → IsCopying path before (record c { disk = d })
    move-IsCopying c d same k = record {
      files = k.files;
      marked = k.marked;
      chosen = k.chosen;
      faithful = λ p m h. same (target path p) ∙ k.faithful p m h;
      outside = λ q h. same q ∙ k.outside q h;
      untouched = λ q h. same q ∙ k.untouched q h;
    }

    pub fail-IsCopying :
        {before : fs.Disk} {c : Copying fs}
        → IsCopying path before c
        → IsCopying path before (record c { ret = false })
    fail-IsCopying k = record {
      files = k.files;
      marked = k.marked;
      chosen = k.chosen;
      faithful = k.faithful;
      outside = k.outside;
      untouched = k.untouched;
    }

    pub longer : (src : List ℕ) → length src < max_line_length → src ≢ target path src
    longer src small e = omega (
      arith,
      length-append path src,
      ap (λ (l : List ℕ). length l) (e ∙ target_lem path src short small),
    )

    other_target :
        {files : List (List ℕ)} {p : List ℕ} (src : List ℕ)
        → length src < max_line_length
        → Chosen files
        → Memᴰ p files
        → contains (joined files) src ≡ false
        → target path p ≢ target path src
    other_target {files} {p} src small chosen m fresh e =
        let whole =
          sym (target_lem path p short (length-Chosen chosen m))
          ∙ e
          ∙ target_lem path src short small in
        no_bool (
          sym fresh
          ∙ ap (contains (joined files)) (sym (append_cancel path whole))
          ∙ contains-joined m)

    pub after_cp-IsCopying :
        {before : fs.Disk} (src : List ℕ) (c : Copying fs) (x : Bool × fs.Disk)
        → length src < max_line_length
        → contains c.unique src ≡ false
        → has_ext src (codes ".bin") ≡ false
        → Copied law src (target path src) c.disk x
        → IsCopying path before c
        → IsCopying path before (after_cp fs src c x)
    after_cp-IsCopying src c (false, d) small fresh other x k =
        fail-IsCopying (move-IsCopying c d (λ q. ap (λ e. fs.contents e q) (x.kept refl)) k)
    after_cp-IsCopying {before} src c (true, d) small fresh other x k =
        let new : contains (joined k.files) src ≡ false =
          ap (λ u. contains u src) (sym k.marked) ∙ fresh in
        record {
          files = src ∷ k.files;
          marked = ap (λ u. u ++ 58 ∷ src) k.marked;
          chosen = one_more new other small k.chosen;
          faithful = λ p m h. elim m [
            | head e ↦
                ap (λ q. fs.contents d (target path q)) e
                ∙ x.copied refl
                ∙ k.outside src (ap (starts_with path) (sym e) ∙ h)
                ∙ ap (fs.contents before) (sym e)
            | tail old ↦
                x.others (target path p) (other_target src small k.chosen old new)
                ∙ k.faithful p old h
          ];
          outside = λ q h. x.others q (not_target q src small h) ∙ k.outside q h;
          untouched = λ q h. x.others q (h src (head refl)) ∙ k.untouched q (λ p m. h p (tail m));
        }
