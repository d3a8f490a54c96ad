-- ===== src/Procmaps/Copy.antt =====
-- What `cp_` of src/procmaps.c copies.
use mathlib.Core.List.{append-nil, append_assoc}
use coldtrace.Prelude.{
  ℕ, zero, suc, ◌≤◌, ◌≡◌, ◌≢◌, refl, sym, ap, ◌∙◌, Bool, true, false, Option, none, some, List, [],
  ◌∷◌, ◌++◌, length, take, drop, take-append-drop, length-drop, is_some, arith,
}
use coldtrace.Procmaps.Fs.{Fs, Lawful}
use coldtrace.Procmaps.Defs.{copy_loop, copy_stream, copy_open, cp, max_buffer_size}

module _ {fs : Fs} (law : Lawful fs) where
  -- Chunk by chunk, the loop appends all bytes, with fuel for a round per byte.
  copy_loop-append :
      (fuel : ℕ) (dst bytes old : List ℕ) (d : fs.Disk)
      → length bytes ≤ fuel
      → fs.contents d dst ≡ some old
      → fs.contents (copy_loop fs fuel dst bytes d) dst ≡ some (old ++ bytes)
  copy_loop-append zero dst [] old d fits h = rw (append-nil old, h) refl
  copy_loop-append zero dst (b ∷ bs) old d fits h = absurd (omega arith)
  copy_loop-append (suc fuel) dst [] old d fits h = rw (append-nil old, h) refl
  copy_loop-append (suc fuel) dst (b ∷ bs) old d fits h =
      let text = b ∷ bs in
      let chunk = take max_buffer_size text in
      let rest = drop max_buffer_size text in
      copy_loop-append fuel dst rest (old ++ chunk) (fs.append dst chunk d)
        (omega (arith, length-drop max_buffer_size text)) (law.append_same dst chunk old d h)
      ∙ ap some
          (append_assoc old chunk rest ∙ ap (◌++◌ old) (take-append-drop max_buffer_size text))

  copy_loop-other :
      (fuel : ℕ) (dst bytes q : List ℕ) (d : fs.Disk)
      → q ≢ dst
      → fs.contents (copy_loop fs fuel dst bytes d) q ≡ fs.contents d q
  copy_loop-other zero dst bytes q d ne = refl
  copy_loop-other (suc fuel) dst [] q d ne = refl
  copy_loop-other (suc fuel) dst (b ∷ bs) q d ne =
      copy_loop-other fuel dst (drop max_buffer_size (b ∷ bs)) q _ ne
      ∙ law.append_other dst (take max_buffer_size (b ∷ bs)) q d ne

  -- What `cp_` leaves: `x` is whether it returns 0, and the disk then.
  pub record Copied (src dst : List ℕ) (d : fs.Disk) (x : Bool × fs.Disk) : Type 0 where
    pub copied : x.0 ≡ true → fs.contents x.1 dst ≡ fs.contents d src
    pub kept : x.0 ≡ false → x.1 ≡ d
    pub others : (q : List ℕ) → q ≢ dst → fs.contents x.1 q ≡ fs.contents d q
    pub succeeds :
        is_some (fs.contents d src) ≡ true → is_some (fs.create dst d) ≡ true → x.0 ≡ true

  copy_stream-append :
      (dst : List ℕ) (d : fs.Disk) (o : Option (List ℕ))
      → fs.contents d dst ≡ some []
      → is_some o ≡ true
      → fs.contents (copy_stream fs dst o d) dst ≡ o
  copy_stream-append dst d none h there = absurd (ground arith)
  copy_stream-append dst d (some bytes) h there =
      copy_loop-append (length bytes) dst bytes [] d (omega arith) h

  copy_stream-other :
      (dst q : List ℕ) (d : fs.Disk) (o : Option (List ℕ))
      → q ≢ dst
      → fs.contents (copy_stream fs dst o d) q ≡ fs.contents d q
  copy_stream-other dst q d none ne = refl
  copy_stream-other dst q d (some bytes) ne = copy_loop-other (length bytes) dst bytes q d ne

  copy_open-Copied :
      (src dst : List ℕ) (d : fs.Disk) (o : Option (List ℕ)) (r : Option fs.Disk)
      → src ≢ dst
      → fs.contents d src ≡ o
      → fs.create dst d ≡ r
      → Copied src dst d (copy_open fs src dst d o r)
  copy_open-Copied src dst d none r ne there opened = record {
    copied = λ e. absurd (ground arith);
    kept = λ e. refl;
    others = λ q _. refl;
    succeeds = λ e _. sym (ap is_some there) ∙ e;
  }
  copy_open-Copied src dst d (some bytes) none ne there opened = record {
    copied = λ e. absurd (ground arith);
    kept = λ e. refl;
    others = λ q _. refl;
    succeeds = λ _ e. sym (ap is_some opened) ∙ e;
  }
  copy_open-Copied src dst d (some bytes) (some f) ne there opened =
      let same = law.create_other dst d f opened src ne in
      record {
        copied = λ _.
            copy_stream-append dst f (fs.contents f src) (law.create_empty dst d f opened)
              (ap is_some (same ∙ there))
            ∙ same;
        kept = λ e. absurd (ground arith);
        others = λ q other.
            copy_stream-other dst q f (fs.contents f src) other
            ∙ law.create_other dst d f opened q other;
        succeeds = λ _ _. refl;
      }

  -- If `cp_` returns 0, the target holds all bytes of the source, and every other file is as before; if
  -- it returns -1, the disk is as before. It returns 0 if both files open. The source is another file
  -- than the target, and the disk has room and keeps different paths apart.
  pub cp-Copied : (src dst : List ℕ) (d : fs.Disk) → src ≢ dst → Copied src dst d (cp fs src dst d)
  unfolding cp
  cp-Copied src dst d ne = copy_open-Copied src dst d _ _ ne refl refl
