-- ===== src/Procmaps/Lines.antt =====
-- The loop of `copy_mapped_files_` of src/procmaps.c over the lines of the maps.
use mathlib.Core.List.Memᴰ.{Memᴰ, head, tail}
use mathlib.Core.Path.{subst}
use coldtrace.Prelude.{
  ℕ, zero, suc, ◌+◌, ◌-◌, ◌*◌, ◌<◌, ◌≤◌, ◌≡◌, refl, sym, ap, ◌∙◌, inl, inr, ◌⊎◌, Bool, true, false,
  is_some, no_bool, some_injective, Option, none, some, List, [], ◌∷◌, ◌++◌, length, codes, arith,
  if◌then◌else◌,
}
use coldtrace.Utils.Defs.{has_ext}
use coldtrace.Config.Defs.{default_path_size}
use coldtrace.Procmaps.Fs.{Fs, Lawful}
use coldtrace.Procmaps.Paths.{until, from, contains, get_line}
use coldtrace.Procmaps.Substrings.{length-until, length-get_line, length-rest_cons, get_line-append}
use coldtrace.Procmaps.Defs.{
  Copying, path_of, copy_path, copy_line, copy_lines, try_path, max_line_length,
}
use coldtrace.Procmaps.Mapped.{IsCopying}
use coldtrace.Procmaps.Steps.{copy_path-Stepped}

length-from :
    (c : ℕ) (xs : List ℕ) → elim (from c xs) [ none ↦ 0 | some text ↦ length text ] ≤ length xs
length-from c [] = omega arith
length-from c (x ∷ xs) = ground (arith, length-from c xs)

-- A path is no longer than the line that it is cut from.
length-path_of : (line src : List ℕ) → path_of line ≡ some src → length src ≤ length line
length-path_of line src e = of_from (from 47 (until 0 line)) (length-from 47 (until 0 line)) e
  where
    of_from :
        (o : Option (List ℕ))
        → elim o [ none ↦ 0 | some text ↦ length text ] ≤ length (until 0 line)
        → Path
            (Option (List ℕ))
            (elim o [ none ↦ none | some text ↦ some (until 10 text) ])
            (some src)
        → length src ≤ length line
    of_from none h e = absurd (no_bool (ap is_some e))
    of_from (some text) h e =
        subst (λ s. length s ≤ length line) (some_injective e)
          (omega (arith, length-until 10 text, length-until 0 line))

-- The lines that `fgets` gets from a text
abbrev pub lines_of : ℕ → List ℕ → List (List ℕ)
lines_of zero text = []
lines_of (suc fuel) [] = []
lines_of (suc fuel) (b ∷ bs) =
    let (line, rest) = get_line (max_line_length - 1) (b ∷ bs) in line ∷ lines_of fuel rest

abbrev pub concat : List (List ℕ) → List ℕ
concat [] = []
concat (l ∷ ls) = l ++ concat ls

-- With fuel for a line per byte, they are the whole text.
pub concat-lines_of :
    (fuel : ℕ) (text : List ℕ) → length text ≤ fuel → concat (lines_of fuel text) ≡ text
concat-lines_of zero [] h = refl
concat-lines_of zero (b ∷ bs) h = absurd (omega arith)
concat-lines_of (suc fuel) [] h = refl
concat-lines_of (suc fuel) (b ∷ bs) h =
    let (line, rest) = get_line (max_line_length - 1) (b ∷ bs) in
    ap (◌++◌ line)
      (concat-lines_of fuel rest (omega (arith, length-rest_cons (max_line_length - 2) b bs)))
    ∙ get_line-append (max_line_length - 1) (b ∷ bs)

module _ {fs : Fs} (law : Lawful fs) where
  module _ (path : List ℕ) (short : length path < default_path_size) (named : 0 < length path) where
    -- What the loop leaves behind these lines.
    pub record Looped (before : fs.Disk) (lines : List (List ℕ)) (c c' : Copying fs) : Type 0 where
      pub sound : IsCopying law path before c'
      pub grows : (p : List ℕ) → contains c.unique p ≡ true → contains c'.unique p ≡ true
      pub failed : c'.ret ≡ true → c.ret ≡ true
      pub size : length c'.unique ≤ length c.unique + max_line_length * length lines
      pub handled :
          (line src : List ℕ)
          → Memᴰ line lines
          → path_of line ≡ some src
          → c'.ret ≡ true
          → (has_ext src (codes ".bin") ≡ true) ⊎ (contains c'.unique src ≡ true)

    -- The body for one line
    pub record Tried (before : fs.Disk) (o : Option (List ℕ)) (c : Copying fs)
        (x : Bool × Copying fs) : Type 0 where
      pub sound : IsCopying law path before x.1
      pub grows : (p : List ℕ) → contains c.unique p ≡ true → contains x.1.unique p ≡ true
      pub failed : x.1.ret ≡ true → c.ret ≡ true
      pub stops : x.0 ≡ false → x.1.ret ≡ false
      pub size : length x.1.unique ≤ length c.unique + max_line_length
      pub handled :
          (src : List ℕ)
          → o ≡ some src
          → x.1.ret ≡ true
          → (has_ext src (codes ".bin") ≡ true) ⊎ (contains x.1.unique src ≡ true)

    try_path-Tried :
        {before : fs.Disk} (o : Option (List ℕ)) (c : Copying fs)
        → ((src : List ℕ) → o ≡ some src → length src < max_line_length)
        → IsCopying law path before c
        → Tried before o c (try_path fs path c o)
    try_path-Tried none c small k = record {
      sound = k;
      grows = λ p m. m;
      failed = λ h. h;
      stops = λ e. absurd (no_bool (sym e));
      size = omega arith;
      handled = λ src e. absurd (no_bool (ap is_some e));
    }
    try_path-Tried (some src) c small k =
        let s = copy_path-Stepped law path short named src c (small src refl) k in
        record {
          sound = s.sound;
          grows = s.grows;
          failed = s.failed;
          stops = s.stops;
          size = s.size;
          handled = λ src' e h.
              subst
                (λ z.
                  (has_ext z (codes ".bin") ≡ true)
                  ⊎ (contains (copy_path fs path src c).1.unique z ≡ true))
                (some_injective e) (s.handled h);
        }

    join-Looped :
        {before : fs.Disk} {line : List ℕ} {lines : List (List ℕ)} {c c'' : Copying fs}
        (x : Bool × Copying fs)
        → Tried before (path_of line) c x
        → Looped before lines x.1 c''
        → Looped before (line ∷ lines) c (if x.0 then c'' else x.1)
    join-Looped {line} (true, c') a b = record {
      sound = b.sound;
      grows = λ p m. b.grows p (a.grows p m);
      failed = λ h. a.failed (b.failed h);
      size = omega (arith, a.size, b.size);
      handled = λ l src m e h. elim m [
        | head here ↦ elim (a.handled src (sym (ap path_of here) ∙ e) (b.failed h)) [
          | inl trace ↦ inl trace
          | inr found ↦ inr (b.grows src found)
        ]
        | tail later ↦ b.handled l src later e h
      ];
    }
    join-Looped (false, c') a b = record {
      sound = a.sound;
      grows = a.grows;
      failed = a.failed;
      size = omega (arith, a.size);
      handled = λ l src m e h. absurd (no_bool (sym (a.stops refl) ∙ h));
    }

    pub copy_lines-Looped :
        {before : fs.Disk} (fuel : ℕ) (text : List ℕ) (c : Copying fs)
        → IsCopying law path before c
        → Looped before (lines_of fuel text) c (copy_lines fs fuel path text c)
    copy_lines-Looped zero text c k = record {
      sound = k;
      grows = λ p m. m;
      failed = λ h. h;
      size = omega arith;
      handled = λ l src m. elim m [ ];
    }
    copy_lines-Looped (suc fuel) [] c k = record {
      sound = k;
      grows = λ p m. m;
      failed = λ h. h;
      size = omega arith;
      handled = λ l src m. elim m [ ];
    }
    copy_lines-Looped (suc fuel) (b ∷ bs) c k =
        let (line, rest) = get_line (max_line_length - 1) (b ∷ bs) in
        let x = copy_line fs path line c in
        let a =
          try_path-Tried (path_of line) c
            (λ src e.
              omega
                (arith, length-path_of line src e, length-get_line (max_line_length - 1) (b ∷ bs)))
            k in
        join-Looped x a (copy_lines-Looped fuel rest x.1 a.sound)
