-- ===== src/Utils/Tests.antt =====
-- Cleaning a concrete directory.
use coldtrace.Prelude.{ℕ, ◌≡◌, Bool, true, List, [], ◌∷◌, codes}
use coldtrace.Utils.Defs.{DirEntry, clean}
use coldtrace.Utils.Clean.{others, all_removable, clean-others}

abbrev old_trace : DirEntry
old_trace = record { name = codes "freezer_log_1_0.bin"; regular = true }

abbrev notes : DirEntry
notes = record { name = codes "notes.txt"; regular = true }

abbrev always : List ℕ → Bool
always name = true

clean-others_example :
    let (ok, rest) = clean always (notes ∷ old_trace ∷ []) in
    (ok ≡ all_removable always (notes ∷ old_trace ∷ []))
    × (ok ≡ true → rest ≡ others (notes ∷ old_trace ∷ []))
    × (others rest ≡ others (notes ∷ old_trace ∷ []))
clean-others_example = clean-others always (notes ∷ old_trace ∷ [])
