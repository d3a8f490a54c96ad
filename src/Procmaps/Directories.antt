-- ===== src/Procmaps/Directories.antt =====
-- The directories that `mkdir_` of src/procmaps.c makes.
use mathlib.Core.List.{nil≢cons, append-nil, append_assoc, tail-eq_of_cons-eq, head-eq_of_cons-eq}
use mathlib.Core.Path.{subst}
use coldtrace.Prelude.{
  ℕ, ◌≡◌, refl, sym, ap, ◌∙◌, inl, inr, Bool, true, false, List, [], ◌∷◌, ◌++◌, ◌==◌, ◌⊎◌,
  if◌then◌else◌, ==_iff, arith,
}
use coldtrace.Procmaps.Fs.{Fs, Lawful, is_made}
use coldtrace.Procmaps.Paths.{fit}
use coldtrace.Procmaps.Defs.{
  mkdir, make_path, make_prefixes, make_one, strip_slash, max_path_length,
}

-- The text of the array `temp` when the loop of `mkdir_` begins
abbrev pub temp : List ℕ → List ℕ
temp path = strip_slash (fit max_path_length path)

module _ {fs : Fs} (law : Lawful fs) where
  -- What calls of mkdir(2) leave: `x` is whether they went on, and the disk then.
  pub record Kept (d : fs.Disk) (x : Bool × fs.Disk) : Type 0 where
    pub paths : (q : List ℕ) → fs.has_path d q ≡ true → fs.has_path x.1 q ≡ true
    pub files : (q : List ℕ) → fs.contents x.1 q ≡ fs.contents d q

  if_make-Kept :
      (b : Bool) (p : List ℕ) (d : fs.Disk) → Kept d (if b then make_one fs p d else (true, d))
  if_make-Kept true p d = record {
    paths = λ q h. law.mkdir_keeps p q d h;
    files = λ q. law.mkdir_contents p q d;
  }
  if_make-Kept false p d = record { paths = λ q h. h; files = λ q. refl }

  -- The second part of a sequence runs only if the first went on.
  then-Kept :
      {d : fs.Disk} (x : Bool × fs.Disk) (f : fs.Disk → Bool × fs.Disk)
      → Kept d x
      → ((e : fs.Disk) → Kept e (f e))
      → Kept d (if x.0 then f x.1 else (false, x.1))
  then-Kept (true, e) f a b = record {
    paths = λ q h. (b e).paths q (a.paths q h);
    files = λ q. (b e).files q ∙ a.files q;
  }
  then-Kept (false, e) f a b = record { paths = a.paths; files = a.files }

  make_prefixes-Kept : (done rest : List ℕ) (d : fs.Disk) → Kept d (make_prefixes fs done rest d)
  make_prefixes-Kept done [] d = if_make-Kept true done d
  make_prefixes-Kept done (c ∷ cs) d =
      then-Kept (if c == 47 then make_one fs done d else (true, d))
        (make_prefixes fs (done ++ c ∷ []) cs) (if_make-Kept (c == 47) done d)
        (make_prefixes-Kept (done ++ c ∷ []) cs)

  -- What has gone on has gone on from its start.
  both :
      (x : Bool × fs.Disk) (f : fs.Disk → Bool × fs.Disk)
      → (if x.0 then f x.1 else (false, x.1)).0 ≡ true
      → (x.0 ≡ true) × ((f x.1).0 ≡ true) × ((if x.0 then f x.1 else (false, x.1)) ≡ f x.1)
  both (true, e) f h = (refl, h, refl)
  both (false, e) f h = absurd (ground arith)

  -- Behind the text `done`, all directories that end before a slash of `rest`, and the whole path
  make_prefixes-whole :
      (done rest : List ℕ) (d : fs.Disk)
      → (make_prefixes fs done rest d).0 ≡ true
      → fs.has_path (make_prefixes fs done rest d).1 (done ++ rest) ≡ true
  make_prefixes-whole done [] d h = rw (append-nil done) (law.mkdir_there done d h)
  make_prefixes-whole done (c ∷ cs) d h =
      let x = if c == 47 then make_one fs done d else (true, d) in
      let (_, goes, same) = both x (make_prefixes fs (done ++ c ∷ []) cs) h in
      let last = make_prefixes-whole (done ++ c ∷ []) cs x.1 goes in
      subst (λ p. fs.has_path (make_prefixes fs done (c ∷ cs) d).1 p ≡ true)
        (append_assoc done (c ∷ []) cs)
        (ap (λ (y : Bool × fs.Disk). fs.has_path y.1 (done ++ c ∷ [] ++ cs)) same ∙ last)

  if_make-has_path :
      (b : Bool) (p : List ℕ) (d : fs.Disk)
      → b ≡ true
      → (if b then make_one fs p d else (true, d)).0 ≡ true
      → fs.has_path (if b then make_one fs p d else (true, d)).1 p ≡ true
  if_make-has_path true p d e h = law.mkdir_there p d h
  if_make-has_path false p d e h = absurd (ground arith)

  make_prefixes-above :
      (done us vs rest : List ℕ) (d : fs.Disk)
      → rest ≡ us ++ 47 ∷ vs
      → (make_prefixes fs done rest d).0 ≡ true
      → fs.has_path (make_prefixes fs done rest d).1 (done ++ us) ≡ true
  make_prefixes-above done [] vs [] d e h = absurd (nil≢cons e)
  make_prefixes-above done (u ∷ us) vs [] d e h = absurd (nil≢cons e)
  make_prefixes-above done [] vs (c ∷ cs) d e h =
      let x = if c == 47 then make_one fs done d else (true, d) in
      let (made, _, same) = both x (make_prefixes fs (done ++ c ∷ []) cs) h in
      let slash = (==_iff c 47).1 (head-eq_of_cons-eq e) in
      let there = if_make-has_path (c == 47) done d slash made in
      ap (λ (y : Bool × fs.Disk). fs.has_path y.1 (done ++ [])) same
      ∙ rw (append-nil done) ((make_prefixes-Kept (done ++ c ∷ []) cs x.1).paths done there)
  make_prefixes-above done (u ∷ us) vs (c ∷ cs) d e h =
      let x = if c == 47 then make_one fs done d else (true, d) in
      let (_, goes, same) = both x (make_prefixes fs (done ++ c ∷ []) cs) h in
      let last = make_prefixes-above (done ++ c ∷ []) us vs cs x.1 (tail-eq_of_cons-eq e) goes in
      ap (λ (y : Bool × fs.Disk). fs.has_path y.1 (done ++ u ∷ us)) same
      ∙ ap (λ z. fs.has_path (make_prefixes fs (done ++ c ∷ []) cs x.1).1 (done ++ z ∷ us))
          (sym (head-eq_of_cons-eq e))
      ∙ ap (fs.has_path (make_prefixes fs (done ++ c ∷ []) cs x.1).1)
          (sym (append_assoc done (c ∷ []) us))
      ∙ last

  -- Some call of mkdir(2) fails.
  abbrev pub Fails : Type 0
  Fails = (p : List ℕ) × (e : fs.Disk) × (is_made (fs.mkdir p e).0 ≡ false)

  if_make-fails :
      (b : Bool) (p : List ℕ) (d : fs.Disk)
      → (if b then make_one fs p d else (true, d)).0 ≡ false
      → Fails
  if_make-fails true p d h = (p, d, h)
  if_make-fails false p d h = absurd (ground arith)

  either_fails :
      (x : Bool × fs.Disk) (f : fs.Disk → Bool × fs.Disk)
      → (if x.0 then f x.1 else (false, x.1)).0 ≡ false
      → (x.0 ≡ false) ⊎ ((f x.1).0 ≡ false)
  either_fails (true, e) f h = inr h
  either_fails (false, e) f h = inl refl

  make_prefixes-fails :
      (done rest : List ℕ) (d : fs.Disk) → (make_prefixes fs done rest d).0 ≡ false → Fails
  make_prefixes-fails done [] d h = (done, d, h)
  make_prefixes-fails done (c ∷ cs) d h =
      let x = if c == 47 then make_one fs done d else (true, d) in
      elim (either_fails x (make_prefixes fs (done ++ c ∷ []) cs) h) [
        | inl first ↦ if_make-fails (c == 47) done d first
        | inr later ↦ make_prefixes-fails (done ++ c ∷ []) cs x.1 later
      ]

  make_path-Kept : (p : List ℕ) (d : fs.Disk) → Kept d (make_path fs p d)
  make_path-Kept [] d = if_make-Kept true [] d
  make_path-Kept (c ∷ cs) d = make_prefixes-Kept (c ∷ []) cs d

  make_path-fails : (p : List ℕ) (d : fs.Disk) → (make_path fs p d).0 ≡ false → Fails
  make_path-fails [] d h = ([], d, h)
  make_path-fails (c ∷ cs) d h = make_prefixes-fails (c ∷ []) cs d h

  make_path-above :
      (p : List ℕ) (d : fs.Disk)
      → (make_path fs p d).0 ≡ true
      → (fs.has_path (make_path fs p d).1 p ≡ true)
        × ((x : ℕ) (xs ys : List ℕ)
            → p ≡ x ∷ xs ++ 47 ∷ ys
            → fs.has_path (make_path fs p d).1 (x ∷ xs) ≡ true)
  make_path-above [] d h = (law.mkdir_there [] d h, λ x xs ys e. absurd (nil≢cons e))
  make_path-above (c ∷ cs) d h = (
    make_prefixes-whole (c ∷ []) cs d h,
    λ x xs ys e.
        subst (λ z. fs.has_path (make_path fs (c ∷ cs) d).1 (z ∷ xs) ≡ true) (head-eq_of_cons-eq e)
          (make_prefixes-above (c ∷ []) xs ys cs d (tail-eq_of_cons-eq e) h),
  )

  -- If `mkdir_` returns 0, its path exists and so does every directory above it; if it returns -1, a
  -- call of mkdir(2) has failed, and not with EEXIST. Whatever it returns, what existed before still does,
  -- and no file changes. The path is the one given, cut at the size of the array and without a slash at
  -- its end.
  pub mkdir-above :
      (path : List ℕ) (d : fs.Disk)
      → let (ok, e) = mkdir fs path d in
        (ok ≡ true
          → (fs.has_path e (temp path) ≡ true)
            × ((x : ℕ) (xs ys : List ℕ)
                → temp path ≡ x ∷ xs ++ 47 ∷ ys
                → fs.has_path e (x ∷ xs) ≡ true))
        × (ok ≡ false → (p : List ℕ) × (f : fs.Disk) × (is_made (fs.mkdir p f).0 ≡ false))
        × ((q : List ℕ) → fs.has_path d q ≡ true → fs.has_path e q ≡ true)
        × ((q : List ℕ) → fs.contents e q ≡ fs.contents d q)
  unfolding mkdir
  mkdir-above path d =
      let k = make_path-Kept (temp path) d in
      (make_path-above (temp path) d, make_path-fails (temp path) d, k.paths, k.files)

  pub mkdir-files :
      (path q : List ℕ) (d : fs.Disk) → fs.contents (mkdir fs path d).1 q ≡ fs.contents d q
  unfolding mkdir
  mkdir-files path q d = (make_path-Kept (temp path) d).files q
