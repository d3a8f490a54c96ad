-- ===== src/Procmaps/Steps.antt =====
-- The body of the loop of `copy_mapped_files_` of src/procmaps.c.
use coldtrace.Prelude.{
  ℕ, ◌+◌, ◌<◌, ◌≤◌, ◌≡◌, refl, sym, inl, inr, ◌⊎◌, Bool, true, false, ◌||◌, Option, none, some,
  List, [], ◌∷◌, length, length-append, codes, arith, if_split, no_bool,
}
use coldtrace.Utils.Defs.{has_ext}
use coldtrace.Config.Defs.{default_path_size}
use coldtrace.Procmaps.Fs.{Fs, Lawful}
use coldtrace.Procmaps.Paths.{before_last, contains}
use coldtrace.Procmaps.Substrings.{contains-before, contains-behind, contains-same}
use coldtrace.Procmaps.Defs.{
  cp, Copying, target, make_dir, make_parent, after_cp, after_mkdir, copy_path, max_line_length,
}
use coldtrace.Procmaps.Copy.{cp-Copied}
use coldtrace.Procmaps.Directories.{mkdir-files}
use coldtrace.Procmaps.Mapped.{
  IsCopying, move-IsCopying, fail-IsCopying, after_cp-IsCopying, longer,
}

module _ {fs : Fs} (law : Lawful fs) where
  module _ (path : List ℕ) (short : length path < default_path_size) (named : 0 < length path) where
    -- The body of the loop: what it keeps, and that a path that it meets is handled.
    pub record Stepped (before : fs.Disk) (src : List ℕ) (c : Copying fs) (x : Bool × Copying fs)
        : Type 0 where
      pub sound : IsCopying law path before x.1
      pub grows : (p : List ℕ) → contains c.unique p ≡ true → contains x.1.unique p ≡ true
      pub failed : x.1.ret ≡ true → c.ret ≡ true
      pub handled :
          x.1.ret ≡ true → (has_ext src (codes ".bin") ≡ true) ⊎ (contains x.1.unique src ≡ true)
      pub stops : x.0 ≡ false → x.1.ret ≡ false
      pub size : length x.1.unique ≤ length c.unique + max_line_length

    make_parent-files :
        (q dst : List ℕ) (d : fs.Disk) → fs.contents (make_parent fs dst d).1 q ≡ fs.contents d q
    make_parent-files q dst d = make_dir-files q (before_last 47 dst) d
      where
        make_dir-files :
            (q : List ℕ) (o : Option (List ℕ)) (d : fs.Disk)
            → fs.contents (make_dir fs o d).1 q ≡ fs.contents d q
        make_dir-files q none d = refl
        make_dir-files q (some dir) d = mkdir-files law dir q d

    after_cp-Stepped :
        {before : fs.Disk} (src : List ℕ) (c : Copying fs) (x : Bool × fs.Disk)
        → length src < max_line_length
        → IsCopying law path before (after_cp fs src c x)
        → Stepped before src c (true, after_cp fs src c x)
    after_cp-Stepped src c (true, d) small k = record {
      sound = k;
      grows = λ p m. contains-before c.unique (58 ∷ src) p m;
      failed = λ h. h;
      handled = λ _. inr (
          contains-behind c.unique (58 ∷ src) src
            (contains-behind (58 ∷ []) src src (contains-same src)));
      stops = λ e. absurd (no_bool (sym e));
      size = omega (arith, length-append c.unique (58 ∷ src));
    }
    after_cp-Stepped src c (false, d) small k = record {
      sound = k;
      grows = λ p m. m;
      failed = λ e. absurd (no_bool e);
      handled = λ e. absurd (no_bool e);
      stops = λ e. absurd (no_bool (sym e));
      size = omega arith;
    }

    after_mkdir-Stepped :
        {before : fs.Disk} (src : List ℕ) (c : Copying fs) (x : Bool × fs.Disk)
        → length src < max_line_length
        → contains c.unique src ≡ false
        → has_ext src (codes ".bin") ≡ false
        → ((q : List ℕ) → fs.contents x.1 q ≡ fs.contents c.disk q)
        → IsCopying law path before c
        → Stepped before src c (after_mkdir fs path src c x)
    after_mkdir-Stepped src c (true, d) small fresh other same k =
        let c' : Copying fs = record c { disk = d } in
        let x = cp fs src (target path src) d in
        let made = cp-Copied law src (target path src) d (longer law path short named src small) in
        let s = after_cp-Stepped src c' x small (
          after_cp-IsCopying law path short named src c' x small fresh other made
            (move-IsCopying law path short named c d same k)) in
        record {
          sound = s.sound;
          grows = s.grows;
          failed = s.failed;
          handled = s.handled;
          stops = s.stops;
          size = s.size;
        }
    after_mkdir-Stepped src c (false, d) small fresh other same k = record {
      sound = fail-IsCopying law path short named (move-IsCopying law path short named c d same k);
      grows = λ p m. m;
      failed = λ e. absurd (no_bool e);
      handled = λ e. absurd (no_bool e);
      stops = λ _. refl;
      size = omega arith;
    }

    or_true : (a b : Bool) → (a || b) ≡ true → (a ≡ true) ⊎ (b ≡ true)
    or_true a b h = ground arith

    or_false : (a b : Bool) → (a || b) ≡ false → (a ≡ false) × (b ≡ false)
    or_false a b h = ground arith

    pub copy_path-Stepped :
        {before : fs.Disk} (src : List ℕ) (c : Copying fs)
        → length src < max_line_length
        → IsCopying law path before c
        → Stepped before src c (copy_path fs path src c)
    unfolding copy_path
    copy_path-Stepped {before} src c small k =
        if_split (Stepped before src c) (contains c.unique src || has_ext src (codes ".bin"))
          (λ skip. record {
            sound = k;
            grows = λ p m. m;
            failed = λ h. h;
            handled = λ _.
                elim (or_true (contains c.unique src) (has_ext src (codes ".bin")) skip) [
                  | inl e ↦ inr e
                  | inr e ↦ inl e
                ];
            stops = λ e. absurd (no_bool (sym e));
            size = omega arith;
          })
          (λ go.
            after_mkdir-Stepped src c (make_parent fs (target path src) c.disk) small
              (or_false _ _ go).0 (or_false _ _ go).1
              (λ q. make_parent-files q (target path src) c.disk) k)
