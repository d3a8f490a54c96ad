-- ===== src/Writer/Named.antt =====
-- The names of the fragment files of src/writer.c: they fit the array, and tell the files apart.
use mathlib.Core.List.{append_cancel_left}
use coldtrace.Prelude.{
  ℕ, ◌+◌, ◌-◌, ◌^◌, ◌≤◌, ◌<◌, ◌≡◌, ◌≢◌, refl, sym, ◌∙◌, Bool, true, false, some, some_injective,
  List, [], ◌∷◌, ◌++◌, length, length-append, codes, leb, ◌==◌, if_split, arith,
}
use coldtrace.Config.Defs.{Config, set_path, file_suffix, get_file_pattern, default_path_size}
use coldtrace.Writer.Names.{int_text, print_rest, sprintf, file_name, format_expansion_space}
use coldtrace.Writer.Decimals.{
  lacks, not_and, split-lacks, int_text_injective, lacks-int_text, length-int_text,
}

-- Text without a percent sign is copied.
copies :
    (xs format args text : List ℕ)
    → lacks 37 xs ≡ true
    → print_rest false format args ≡ some text
    → print_rest false (xs ++ format) args ≡ some (xs ++ text)
unfolding print_rest
copies [] format args text h e = e
copies (x ∷ xs) format args text h e =
    let plain : (x == 37) ≡ false = (not_and (x == 37) (lacks 37 xs) h).0 in
    let rest = copies xs format args text (not_and (x == 37) (lacks 37 xs) h).1 e in
    rw (plain, rest) refl

suffix_lem :
    (tid enumerator : ℕ)
    → print_rest false file_suffix (tid ∷ enumerator ∷ [])
      ≡ some
          (codes "/freezer_log_" ++ (int_text tid ++ (95 ∷ (int_text enumerator ++ codes ".bin"))))
unfolding print_rest
suffix_lem tid enumerator = refl

-- The name that the two ids give in a directory
abbrev pub fragment_name : List ℕ → (tid enumerator : ℕ) → List ℕ
fragment_name path tid enumerator =
    path
    ++ (codes "/freezer_log_" ++ (int_text tid ++ (95 ∷ (int_text enumerator ++ codes ".bin"))))

fragment_name_injective :
    (path : List ℕ) (tid enumerator tid' enumerator' : ℕ)
    → tid < 2 ^ 31
    → enumerator < 2 ^ 31
    → tid' < 2 ^ 31
    → enumerator' < 2 ^ 31
    → fragment_name path tid enumerator ≡ fragment_name path tid' enumerator'
    → (tid ≡ tid') × (enumerator ≡ enumerator')
fragment_name_injective path tid enumerator tid' enumerator' h1 h2 h3 h4 e =
    let tail = append_cancel_left (codes "/freezer_log_") _ _ (append_cancel_left path _ _ e) in
    let underscore : (d : ℕ) → d < 10 → ((48 + d) == 95) ≡ false = λ d low. ground arith in
    let dot : (d : ℕ) → d < 10 → ((48 + d) == 46) ≡ false = λ d low. ground arith in
    let first =
      split-lacks 95 (int_text tid) (int_text tid') _ _ (lacks-int_text 95 tid underscore h1)
        (lacks-int_text 95 tid' underscore h3) tail in
    let second =
      split-lacks 46 (int_text enumerator) (int_text enumerator') _ _
        (lacks-int_text 46 enumerator dot h2) (lacks-int_text 46 enumerator' dot h4) first.1 in
    (
      int_text_injective tid tid' h1 h3 first.0,
      int_text_injective enumerator enumerator' h2 h4 second.0,
    )

-- The name of a file is defined and fits the array for it, with the terminating 0.
pub record Named (config : Config) (tid enumerator : ℕ) : Type 0 where
  pub name : List ℕ
  pub printed : file_name config tid enumerator ≡ some name
  pub fits : length name + 1 ≤ length (get_file_pattern config) + format_expansion_space

-- The name that `sprintf` makes
file_name-fragment_name :
    (path : List ℕ) (c : Config) (tid enumerator : ℕ)
    → lacks 37 path ≡ true
    → (set_path path c).0 ≡ true
    → file_name (set_path path c).1 tid enumerator ≡ some (fragment_name path tid enumerator)
unfolding set_path file_name sprintf
file_name-fragment_name path c tid enumerator plain taken =
    if_split
      (λ (r : Bool × Config).
        r.0 ≡ true
        → sprintf r.1.pattern (tid ∷ enumerator ∷ []) ≡ some (fragment_name path tid enumerator))
      (leb (default_path_size - (length file_suffix + 1)) (length path)) (λ _ off. cc)
      (λ _ _. copies path file_suffix (tid ∷ enumerator ∷ []) _ plain (suffix_lem tid enumerator))
      taken

pattern_lem :
    (path : List ℕ) (c : Config)
    → (set_path path c).0 ≡ true
    → (set_path path c).1.pattern ≡ path ++ file_suffix
unfolding set_path
pattern_lem path c taken = ground arith

length-fragment_name :
    (path : List ℕ) (tid enumerator : ℕ)
    → length (fragment_name path tid enumerator) + 1
      ≤ length (path ++ file_suffix) + format_expansion_space
length-fragment_name path tid enumerator = omega (
  arith,
  length-append path file_suffix,
  length-append path
      (codes "/freezer_log_" ++ (int_text tid ++ (95 ∷ (int_text enumerator ++ codes ".bin")))),
  length-append (int_text tid) (95 ∷ (int_text enumerator ++ codes ".bin")),
  length-append (int_text enumerator) (codes ".bin"),
  length-int_text tid,
  length-int_text enumerator,
)

named :
    (path : List ℕ) (c : Config) (tid enumerator : ℕ)
    → lacks 37 path ≡ true
    → (set_path path c).0 ≡ true
    → Named (set_path path c).1 tid enumerator
named path c tid enumerator plain taken = record {
  name = fragment_name path tid enumerator;
  printed = file_name-fragment_name path c tid enumerator plain taken;
  fits = rw (pattern_lem path c taken) (length-fragment_name path tid enumerator);
}

-- Once a directory without a percent sign is taken, the names of two files, whose ids are below 2 ^ 31
-- and not the same, are both defined, fit the array for them, and differ.
pub set_path-Named :
    (path : List ℕ) (c : Config) (tid enumerator tid' enumerator' : ℕ)
    → lacks 37 path ≡ true
    → (set_path path c).0 ≡ true
    → tid < 2 ^ 31
    → enumerator < 2 ^ 31
    → tid' < 2 ^ 31
    → enumerator' < 2 ^ 31
    → ¬ ((tid ≡ tid') × (enumerator ≡ enumerator'))
    → Named (set_path path c).1 tid enumerator
      × (Named (set_path path c).1 tid' enumerator')
      × (file_name (set_path path c).1 tid enumerator
          ≢ file_name (set_path path c).1 tid' enumerator')
set_path-Named path c tid enumerator tid' enumerator' plain taken h1 h2 h3 h4 differ = (
  named path c tid enumerator plain taken,
  named path c tid' enumerator' plain taken,
  λ e. differ (
      fragment_name_injective path tid enumerator tid' enumerator' h1 h2 h3 h4 (
        some_injective (
          sym (file_name-fragment_name path c tid enumerator plain taken)
          ∙ e
          ∙ file_name-fragment_name path c tid' enumerator' plain taken))),
)
