-- ===== src/Writer/Tests.antt =====
-- Runs of the writer on concrete states.
use coldtrace.Prelude.{
  ℕ, not, ◌&&◌, ◌≡◌, ◌⊎◌, codes, refl, sym, true, false, none, some, [], ◌∷◌, ◌++◌, arith, is_some,
  take, ◌≢◌,
}
use coldtrace.Sys.{World, content, put_file}
use coldtrace.Example.{half_full-IsValid, slow, slow-Fair, world, idle, half_full}
use coldtrace.Writer.Files.{write_all, write_loop, write_rounds, first_fragment}
use coldtrace.Writer.Defs.{Io, flush, entry_bytes}
use coldtrace.Writer.Ops.{writer_reserve, writer_init, writer_fini}
use coldtrace.Config.Defs.{defaults, set_path, file_suffix}
use coldtrace.Writer.Names.{file_name, sprintf, print_rest}
use coldtrace.Writer.Named.{Named, set_path-Named}
use coldtrace.Writer.WriteAll.{write_all-append}
use coldtrace.Writer.FirstFragment.{first_fragment-created}
use coldtrace.Writer.Fragment.{flush-decode, decode}
use coldtrace.Writer.Invariant.{IsValid, IsReleased}
use coldtrace.Writer.Reserve.{
  IsSmall, Reserved, Positioned, writer_reserve-Reserved, writer_reserve-Positioned,
}
use coldtrace.Writer.Lifetime.{writer_init-IsBegun, writer_fini-IsReleased}

idle-IsReleased : IsReleased idle
idle-IsReleased = record {
  maps = refl;
  pools = refl;
  blocks = refl;
  buffer = refl;
  comp_buf = refl;
}

idle-IsValid : IsValid idle
idle-IsValid = record { maps = refl; pools = refl; blocks = refl; paired = refl; opened = λ e. cc }

half_full-IsSmall : IsSmall half_full 48
half_full-IsSmall = record { trace_size = omega arith; entry = omega arith; offset = omega arith }

writer_reserve-Reserved_example : Reserved half_full 48 (writer_reserve slow half_full 48)
writer_reserve-Reserved_example =
    writer_reserve-Reserved slow half_full 48 half_full-IsSmall half_full-IsValid

writer_reserve-Positioned_example : Positioned half_full 48 (writer_reserve slow half_full 48)
writer_reserve-Positioned_example = writer_reserve-Positioned slow half_full 48 half_full-IsValid

write_all-append_example :
    let (done, w') = write_all slow 5 0 (7 ∷ 8 ∷ []) world in
    (n : ℕ) × (write_loop slow (write_rounds slow 2) 5 0 (7 ∷ 8 ∷ []) world ≡ some (done, w'))
    × (content w' 5 0 ≡ content world 5 0 ++ take n (7 ∷ 8 ∷ []))
    × (done ≡ true → content w' 5 0 ≡ content world 5 0 ++ (7 ∷ 8 ∷ []))
write_all-append_example = write_all-append slow-Fair 5 0 (7 ∷ 8 ∷ []) world

-- Fragment 0 of thread 5 is on disk already.
abbrev used : World
used = put_file world 5 0 (some [])

first_fragment-created_example :
    let (made, (e, w')) = first_fragment slow 5 0 used in
    (made ≡ true)
    × (e ≡ 1)
    × (w'.files 5 e ≡ some [])
    × ((t n : ℕ) → (t ≢ 5) ⊎ (n ≢ e) → w'.files t n ≡ used.files t n)
first_fragment-created_example =
    first_fragment-created slow 5 1 0 used (omega arith) (λ n le. refl) (λ n lt. ground arith) refl

flush-decode_example :
    let io' = flush slow half_full in
    let file = λ (w : World). w.files 5 0 in
    ((io'.impl ≡ half_full.impl)
      × (decode some (content io'.world 5 0) ≡ some (77, entry_bytes half_full.impl)))
    ⊎ ((io'.impl.failed ≡ true)
        × (is_some io'.impl.buffer ≡ false)
        × ((file io'.world ≡ none) ⊎ (file io'.world ≡ file half_full.world)))
flush-decode_example =
    flush-decode slow-Fair half_full some (λ src out capacity e. sym e) refl (omega arith)

-- A writer that has failed
abbrev broken : Io
broken = record idle { impl = record (idle.impl) { failed = true; offset = 40; enumerator = 3 } }

broken-IsReleased : IsReleased broken
broken-IsReleased = record {
  maps = refl;
  pools = refl;
  blocks = refl;
  buffer = refl;
  comp_buf = refl;
}

writer_init-IsBegun_example :
    let impl = writer_init (some 6) broken.impl in
    IsValid (record broken { impl = impl })
    × (impl.buffer ≡ none)
    × ((impl.initd && not impl.failed) ≡ true)
    × ((tid : ℕ)
        → some 6 ≡ some tid
        → (impl.tid ≡ tid) × (impl.enumerator ≡ 0) × (impl.offset ≡ 0) × (impl.size ≡ 0))
writer_init-IsBegun_example = writer_init-IsBegun broken (some 6) broken-IsReleased

writer_fini-IsReleased_example :
    IsReleased (writer_fini slow half_full) × ((writer_fini slow half_full).impl.initd ≡ false)
writer_fini-IsReleased_example = writer_fini-IsReleased slow half_full half_full-IsValid refl

taken : (set_path (codes "/tmp") defaults).0 ≡ true
unfolding set_path
taken = refl

set_path-Named_example :
    Named (set_path (codes "/tmp") defaults).1 1 12
    × (Named (set_path (codes "/tmp") defaults).1 11 2)
    × (file_name (set_path (codes "/tmp") defaults).1 1 12
        ≢ file_name (set_path (codes "/tmp") defaults).1 11 2)
set_path-Named_example =
    set_path-Named (codes "/tmp") defaults 1 12 11 2 refl taken (omega arith) (omega arith)
      (omega arith) (omega arith) (λ same. omega (arith, same.0))

-- A name of two ids
file_name_test :
    file_name (record defaults { pattern = codes "/tmp" ++ file_suffix }) 7 120
    ≡ some (codes "/tmp/freezer_log_7_120.bin")
unfolding file_name sprintf print_rest
file_name_test = refl
