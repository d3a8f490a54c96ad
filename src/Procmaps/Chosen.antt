-- ===== src/Procmaps/Chosen.antt =====
-- The paths that `copy_mapped_files_` of src/procmaps.c has copied, against its array `unique`.
use mathlib.Core.List.{tail-eq_of_cons-eq}
use mathlib.Core.List.Memᴰ.{Memᴰ, head, tail}
use mathlib.Core.Path.{subst}
use coldtrace.Prelude.{
  ℕ, ◌-◌, ◌*◌, ◌<◌, ◌≤◌, ◌≡◌, sym, ap, ◌∙◌, true, false, List, [], ◌∷◌, ◌++◌, length, length-append,
  codes, arith,
}
use coldtrace.Utils.Defs.{has_ext}
use coldtrace.Config.Defs.{default_path_size}
use coldtrace.Procmaps.Paths.{contains}
use coldtrace.Procmaps.Substrings.{contains-before, contains-behind, contains-same, take-short}
use coldtrace.Procmaps.Defs.{max_line_length, max_path_length, target}

-- What `unique` holds after these copies, the last one first
abbrev pub joined : List (List ℕ) → List ℕ
joined [] = []
joined (p ∷ ps) = joined ps ++ 58 ∷ p

-- No path is a part of what was copied before it, or has the extension of a trace, or is longer than
-- a line.
pub data Chosen : List (List ℕ) → Type 0 where
  none_yet : Chosen []
  one_more :
      {p : List ℕ} {ps : List (List ℕ)}
      → contains (joined ps) p ≡ false
      → has_ext p (codes ".bin") ≡ false
      → length p < max_line_length
      → Chosen ps
      → Chosen (p ∷ ps)

pub contains-joined : {p : List ℕ} {ps : List (List ℕ)} → Memᴰ p ps → contains (joined ps) p ≡ true
contains-joined {p = p} {ps = q ∷ ps} (head e) =
    contains-behind (joined ps) (58 ∷ q) p
      (contains-behind (58 ∷ []) q p (ap (contains q) e ∙ contains-same q))
contains-joined {p = p} {ps = q ∷ ps} (tail m) =
    contains-before (joined ps) (58 ∷ q) p (contains-joined m)
contains-joined {ps = []} m = elim m [ ]

pub length-Chosen :
    {p : List ℕ} {ps : List (List ℕ)} → Chosen ps → Memᴰ p ps → length p < max_line_length
length-Chosen (one_more _ _ small _) (head e) =
    subst (λ q. length q < max_line_length) (sym e) small
length-Chosen (one_more _ _ _ c) (tail m) = length-Chosen c m
length-Chosen none_yet m = elim m [ ]

-- What `unique` takes: at most 256 bytes for each path
pub length-joined :
    {ps : List (List ℕ)} → Chosen ps → length (joined ps) ≤ max_line_length * length ps
length-joined none_yet = omega arith
length-joined {ps = p ∷ ps} (one_more _ _ small c) =
    omega (arith, length-append (joined ps) (58 ∷ p), length-joined c)

-- `snprintf` does not cut the path of a copy.
pub target_lem :
    (path src : List ℕ)
    → length path < default_path_size
    → length src < max_line_length
    → target path src ≡ path ++ src
target_lem path src short small =
    take-short (max_path_length - 1) (path ++ src) (omega (arith, length-append path src))

pub append_cancel : (xs : List ℕ) {ys zs : List ℕ} → xs ++ ys ≡ xs ++ zs → ys ≡ zs
append_cancel [] e = e
append_cancel (x ∷ xs) e = append_cancel xs (tail-eq_of_cons-eq e)
