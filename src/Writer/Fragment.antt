-- ===== src/Writer/Fragment.antt =====
-- The file of a fragment: what `flush_` of src/writer.c leaves in it, and that a reader of the
-- format (scripts/trace_dump.py) gets the entries of the buffer back.
use coldtrace.Prelude.{
  ℕ, zero, suc, ◌+◌, ◌*◌, ◌/◌, ◌%◌, ◌^◌, ◌<◌, ◌≡◌, refl, ap, ◌∙◌, Bool, true, false, Option, none,
  some, List, [], ◌∷◌, ◌++◌, is_some, if◌then◌else◌, ltb, ◌==◌, length, take, drop, if_split, arith,
  inl, inr, ◌⊎◌,
}
use coldtrace.Sys.{Sys, Fair, World, tick, put_file, le_bytes, read_bytes, content}
use coldtrace.Writer.Defs.{
  Io, fail, flush, flush_file, flush_compressed, flush_written, words, entry_bytes, raw_size,
  fragment_bytes, frag_hdr_size, header_size,
}
use coldtrace.Writer.Invariant.{fail-keeps, fail-off}
use coldtrace.Writer.WriteAll.{write_all-append}

-- `int.from_bytes(…, "little")`
abbrev le_value : List ℕ → ℕ
le_value [] = 0
le_value (b ∷ bs) = b + 256 * le_value bs

-- `_load_fragment` on the bytes of a file: the version word and the entries, where the file has a
-- header, the block has the size that it announces, and it decompresses.
pub decode : (List ℕ → Option (List ℕ)) → List ℕ → Option (ℕ × List ℕ)
decode decompress file =
    let raw = le_value (take 4 (drop header_size file)) in
    let version = le_value (take header_size file) in
    if ltb (length file) frag_hdr_size
    then none
    else if raw == 0
    then some (version, [])
    else elim (decompress (drop frag_hdr_size file)) [
      | none ↦ none
      | some entries ↦ if length entries == raw then some (version, entries) else none
    ]

length-le_bytes : (n w : ℕ) → length (le_bytes n w) ≡ n
length-le_bytes zero w = refl
length-le_bytes (suc n) w = ap suc (length-le_bytes n (w / 256))

le_value_four : (w : ℕ) → le_value (le_bytes 4 w) ≡ w % 2 ^ 32
le_value_four w = omega arith

le_value_eight : (w : ℕ) → le_value (le_bytes 8 w) ≡ w % 2 ^ 64
le_value_eight w = omega arith

length-read_bytes : (m : ℕ → ℕ) (a n : ℕ) → length (read_bytes m a n) ≡ n
length-read_bytes m a zero = refl
length-read_bytes m a (suc n) = ap suc (length-read_bytes m (suc a) n)

-- What a reader finds in the bytes of a fragment whose raw size fits the uint32_t.
decode-fragment_bytes :
    (sys : Sys) (decompress : List ℕ → Option (List ℕ)) (raw : ℕ) (comp entries : List ℕ)
    → raw < 2 ^ 32
    → decompress comp ≡ some entries
    → length entries ≡ raw
    → decode decompress (fragment_bytes sys raw comp) ≡ some (sys.version % 2 ^ 64, entries)
unfolding decode
decode-fragment_bytes sys decompress raw comp [] small e l =
    ground (arith, le_value_eight sys.version, le_value_four (raw % 2 ^ 32))
decode-fragment_bytes sys decompress raw comp (b ∷ bs) small e l =
    ground (arith, le_value_eight sys.version, le_value_four (raw % 2 ^ 32))

-- How a flush to a file ends: the file is complete and the writer goes on, or the writer has
-- failed, holds nothing, and of the file nothing is left that was not there before.
data Ended (sys : Sys) (io io' : Io) : Type 0 where
  complete :
      (comp : List ℕ)
      → sys.compress (entry_bytes io.impl) (sys.compress_bound io.impl.size) ≡ some comp
      → io'.impl ≡ io.impl
      → content io'.world io.impl.tid io.impl.enumerator
        ≡ fragment_bytes sys (raw_size io.impl) comp
      → Ended sys io io'
  gave_up :
      io'.impl.failed ≡ true
      → is_some io'.impl.buffer ≡ false
      → (io'.world.files io.impl.tid io.impl.enumerator ≡ none)
        ⊎ (io'.world.files io.impl.tid io.impl.enumerator
            ≡ io.world.files io.impl.tid io.impl.enumerator)
      → Ended sys io io'

-- A failure in a world where the file is gone, or as it was.
fail-Ended :
    (sys : Sys) (io io' : Io)
    → (io'.world.files io.impl.tid io.impl.enumerator ≡ none)
      ⊎ (io'.world.files io.impl.tid io.impl.enumerator
          ≡ io.world.files io.impl.tid io.impl.enumerator)
    → Ended sys io (fail io')
fail-Ended sys io io' left = gave_up (fail-off io').0 (fail-off io').1 (rw (fail-keeps io').0 left)

module _ {sys : Sys} (fair : Fair sys) (io : Io) where
  abbrev comp_of : Option (List ℕ)
  comp_of = sys.compress (entry_bytes io.impl) (sys.compress_bound io.impl.size)

  flush_written-Ended :
      (comp : List ℕ) (r : Bool × World)
      → comp_of ≡ some comp
      → (r.0 ≡ true
          → content r.1 io.impl.tid io.impl.enumerator ≡ fragment_bytes sys (raw_size io.impl) comp)
      → Ended sys io (flush_written io r)
  flush_written-Ended comp (true, w) c h = complete comp c refl (h refl)
  flush_written-Ended comp (false, w) c h = fail-Ended sys io _ (inl (ground arith))

  flush_compressed-Ended :
      (o : Option (List ℕ)) → comp_of ≡ o → Ended sys io (flush_compressed sys io o)
  unfolding flush_compressed flush_file
  flush_compressed-Ended none c = fail-Ended sys io io (inr refl)
  flush_compressed-Ended (some comp) c =
      let bytes = fragment_bytes sys (raw_size io.impl) comp in
      let opened = put_file (tick io.world) io.impl.tid io.impl.enumerator (some []) in
      let (_, _, _, holds) = write_all-append fair io.impl.tid io.impl.enumerator bytes opened in
      let empty : content opened io.impl.tid io.impl.enumerator ≡ [] = ground arith in
      if_split (Ended sys io) (sys.open_ok io.world.ticks)
        (λ _. flush_written-Ended comp _ c (λ d. holds d ∙ ap (λ old. old ++ bytes) empty))
        (λ _. fail-Ended sys io _ (inr refl))

  flush-Ended : io.impl.mmapped ≡ true → Ended sys io (flush sys io)
  unfolding flush
  flush-Ended m =
      if_split (Ended sys io) io.impl.mmapped (λ _. flush_compressed-Ended comp_of refl)
        (λ n. absurd (ground arith))

  -- With a system that keeps the rules of write(2) and an LZ4 that decompresses what it compressed,
  -- a flush to a file ends in one of two ways. Either the writer goes on unchanged and a reader of
  -- the file gets the version header and exactly the bytes of the entries in the buffer; or the
  -- writer has failed without a buffer, and the file is gone or as it was.
  pub flush-decode :
      (decompress : List ℕ → Option (List ℕ))
      → ((src out : List ℕ) (capacity : ℕ)
          → sys.compress src capacity ≡ some out
          → decompress out ≡ some src)
      → io.impl.mmapped ≡ true
      → raw_size io.impl < 2 ^ 32
      → let io' = flush sys io in
        let file = λ (w : World). w.files io.impl.tid io.impl.enumerator in
        ((io'.impl ≡ io.impl)
          × (decode decompress (content io'.world io.impl.tid io.impl.enumerator)
              ≡ some (sys.version % 2 ^ 64, entry_bytes io.impl)))
        ⊎ ((io'.impl.failed ≡ true)
            × (is_some io'.impl.buffer ≡ false)
            × ((file io'.world ≡ none) ⊎ (file io'.world ≡ file io.world)))
  flush-decode decompress lz4 m small = elim (flush-Ended m) [
    | complete comp c same bytes ↦ inl (
      same,
      ap (decode decompress) bytes
          ∙ decode-fragment_bytes sys decompress (raw_size io.impl) comp _ small (lz4 _ comp _ c)
              (length-read_bytes (words io.impl.buffer) header_size _),
    )
    | gave_up f gone left ↦ inr (f, gone, left)
  ]
