-- ===== src/Procmaps/Tests.antt =====
-- Copies on a small disk.
use coldtrace.Prelude.{
  same_text, ℕ, ◌*◌, ◌<◌, ◌≡◌, refl, true, false, none, some, List, [], ◌∷◌, ◌++◌, length, codes,
  no_bool, ap, if◌then◌else◌, arith,
}
use coldtrace.Utils.Defs.{has_ext}
use coldtrace.Config.Defs.{Config, defaults}
use coldtrace.Procmaps.Fs.{is_made}
use coldtrace.Procmaps.Defs.{
  mkdir, cp, copy_path, copy_mapped_files, max_path_length, max_unique_paths, copy_proc_maps,
}
use coldtrace.Procmaps.Events.{Maps, maps_init, copy_maps_and_mapped_files}
use coldtrace.Procmaps.Memory.{MemoryDisk, memory, memory-Lawful}
use coldtrace.Procmaps.Copy.{Copied, cp-Copied}
use coldtrace.Procmaps.Directories.{temp, mkdir-above}
use coldtrace.Procmaps.Files.{MappedCopies, copy_mapped_files-MappedCopies, unique-fits}
use coldtrace.Procmaps.Dump.{copy_maps-MappedCopies}
use coldtrace.Procmaps.Once.{
  Event, thread_started, process_ended, handle_all, passing, Outcome, handle_all-Outcome,
}

abbrev library : List ℕ
library = codes "/usr/lib/a"

abbrev trace_path : List ℕ
trace_path = codes "/t"

-- The second path is a part of the first.
abbrev maps_text : List ℕ
maps_text = codes "0-1 /usr/lib/a" ++ 10 ∷ codes "1-2 /lib/a" ++ 10 ∷ codes "2-3 [heap]" ++ 10 ∷ []

abbrev small_disk : MemoryDisk
small_disk = record {
  files = λ p.
      if same_text p library
      then some (1 ∷ 2 ∷ [])
      else if same_text p (codes "/lib/a")
      then some (3 ∷ [])
      else if same_text p (codes "/t/maps")
      then some maps_text
      else none;
  dirs = λ p. false;
}

-- The copy of the second file is missing.
skips_part : (copy_mapped_files memory trace_path small_disk).unique ≡ codes ":/usr/lib/a"
unfolding copy_mapped_files copy_path cp mkdir has_ext
skips_part = refl

cp-Copied_example :
    Copied memory-Lawful library
      (codes "/t/a")
      small_disk
      (cp memory library (codes "/t/a") small_disk)
cp-Copied_example =
    cp-Copied memory-Lawful library (codes "/t/a") small_disk
      (λ e. no_bool (ap (λ p. same_text p (codes "/t/a")) e))

copy_mapped_files-MappedCopies_example :
    MappedCopies memory trace_path maps_text small_disk
      (copy_mapped_files memory trace_path small_disk)
copy_mapped_files-MappedCopies_example =
    copy_mapped_files-MappedCopies memory-Lawful trace_path maps_text small_disk (omega arith)
      (omega arith) refl

unique-fits_example :
    length (copy_mapped_files memory trace_path small_disk).unique
    < max_path_length * max_unique_paths
unique-fits_example =
    unique-fits memory-Lawful trace_path maps_text small_disk (omega arith) (omega arith) refl
      (omega arith)

mkdir-above_example :
    let (ok, e) = mkdir memory (codes "/t/u/") small_disk in
    (ok ≡ true
      → (memory.has_path e (temp (codes "/t/u/")) ≡ true)
        × ((x : ℕ) (xs ys : List ℕ)
            → temp (codes "/t/u/") ≡ x ∷ xs ++ 47 ∷ ys
            → memory.has_path e (x ∷ xs) ≡ true))
    × (ok ≡ false → (p : List ℕ) × (f : MemoryDisk) × (is_made (memory.mkdir p f).0 ≡ false))
    × ((q : List ℕ) → memory.has_path small_disk q ≡ true → memory.has_path e q ≡ true)
    × ((q : List ℕ) → memory.contents e q ≡ memory.contents small_disk q)
mkdir-above_example = mkdir-above memory-Lawful (codes "/t/u/") small_disk

abbrev traced : Config
traced = record defaults { path = trace_path }

abbrev threads : List (Event memory)
threads = thread_started 1 ∷ thread_started 2 ∷ thread_started 3 ∷ process_ended ∷ []

handle_all-Outcome_example :
    let m : Maps memory = record { maps_copied = false; disk = small_disk } in
    (handle_all memory 42 traced 1 threads (maps_init true m)
      ≡ record { maps_copied = true; disk = passing memory 42 traced 1 threads small_disk })
    × (maps_init false m ≡ m)
    × Outcome memory 42 traced 1 small_disk threads
handle_all-Outcome_example = handle_all-Outcome memory 42 traced 1 threads small_disk

-- The same disk before the maps are copied
abbrev fresh_disk : MemoryDisk
fresh_disk = record {
  files = λ p.
      if same_text p library
      then some (1 ∷ 2 ∷ [])
      else if same_text p (codes "/proc/42/maps")
      then some maps_text
      else none;
  dirs = λ p. false;
}

copy_maps-MappedCopies_example :
    let m : Maps memory = record { maps_copied = false; disk = fresh_disk } in
    let c =
      copy_mapped_files memory trace_path (copy_proc_maps memory 42 trace_path fresh_disk).1 in
    MappedCopies memory trace_path maps_text fresh_disk c
    × (copy_maps_and_mapped_files memory 42 traced m ≡ record { maps_copied = true; disk = c.disk })
unfolding copy_proc_maps mkdir cp
copy_maps-MappedCopies_example =
    copy_maps-MappedCopies memory-Lawful 42 traced maps_text
      (record { maps_copied = false; disk = fresh_disk }) (omega arith) (omega arith)
      (λ e. no_bool (ap (λ p. same_text p (codes "/t/maps")) e)) refl refl
