-- ===== src/Procmaps/Once.antt =====
-- When the handlers of src/procmaps.c copy: once, at the first event that asks for it.
use coldtrace.Prelude.{
  ℕ, ◌≡◌, refl, sym, ap, ◌∙◌, inl, inr, Bool, true, false, not, ◌&&◌, List, [], ◌∷◌, ◌++◌, ◌==◌,
  Bool-cases, if_split, is_empty, arith,
}
use coldtrace.Config.Defs.{Config, get_path}
use coldtrace.Procmaps.Fs.{Fs}
use coldtrace.Procmaps.Events.{Maps, maps_init, copy_maps_and_mapped_files, self_init, self_fini}

-- What happens to the state: a thread starts, the process ends, or the traced program and the tracer
-- change the disk.
pub data Event (fs : Fs) : Type 0 where
  thread_started : (tid : ℕ) → Event fs
  process_ended : Event fs
  elsewhere : (fs.Disk → fs.Disk) → Event fs

-- The start of a thread other than the main one, and the end of the process
abbrev pub asks : {fs : Fs} → ℕ → Event fs → Bool
asks main_thread (thread_started tid) = not (tid == main_thread)
asks main_thread process_ended = true
asks main_thread (elsewhere f) = false

module _ (fs : Fs) (pid : ℕ) (config : Config) (main_thread : ℕ) where
  abbrev pub handle : Event fs → Maps fs → Maps fs
  handle (thread_started tid) m = self_init fs pid config main_thread tid m
  handle process_ended m = self_fini fs pid config m
  handle (elsewhere f) m = record m { disk = f m.disk }

  abbrev pub handle_all : List (Event fs) → Maps fs → Maps fs
  handle_all [] m = m
  handle_all (e ∷ es) m = handle_all es (handle e m)

  -- The disk without the handlers
  abbrev pub passing : List (Event fs) → fs.Disk → fs.Disk
  passing [] d = d
  passing (elsewhere f ∷ es) d = passing es (f d)
  passing (thread_started _ ∷ es) d = passing es d
  passing (process_ended ∷ es) d = passing es d

  abbrev pub none_asks : List (Event fs) → Bool
  none_asks [] = true
  none_asks (e ∷ es) = not (asks main_thread e) && none_asks es

  -- Once the flag is set, the handlers leave the disk alone.
  copied_all :
      (es : List (Event fs)) (d : fs.Disk)
      → handle_all es (record { maps_copied = true; disk = d })
        ≡ record { maps_copied = true; disk = passing es d }
  unfolding self_init self_fini
  copied_all [] d = refl
  copied_all (thread_started tid ∷ es) d = copied_all es d
  copied_all (process_ended ∷ es) d = copied_all es d
  copied_all (elsewhere f ∷ es) d = copied_all es (f d)

  copying_all :
      (es : List (Event fs)) (m : Maps fs)
      → handle_all es (copy_maps_and_mapped_files fs pid config m) ≡ record {
        maps_copied = true;
        disk = passing es (copy_maps_and_mapped_files fs pid config m).disk;
      }
  unfolding copy_maps_and_mapped_files
  copying_all es m =
      if_split
        (λ (n : Maps fs). handle_all es n ≡ record { maps_copied = true; disk = passing es n.disk })
        (is_empty (get_path config)) (λ _. copied_all es _) (λ _. copied_all es _)

  -- Before an event asks for it, they do too.
  not_yet :
      (es : List (Event fs)) (d : fs.Disk)
      → none_asks es ≡ true
      → handle_all es (record { maps_copied = false; disk = d })
        ≡ record { maps_copied = false; disk = passing es d }
  unfolding self_init self_fini
  not_yet [] d h = refl
  not_yet (thread_started tid ∷ es) d h = elim (Bool-cases (tid == main_thread)) [
    | inl main ↦ rw main (not_yet es d (ground (arith, h)))
    | inr other ↦ absurd (ground arith)
  ]
  not_yet (process_ended ∷ es) d h = absurd (ground arith)
  not_yet (elsewhere f ∷ es) d h = not_yet es (f d) h

  -- Either no event asks for a copy and the handlers change nothing, or the first event that asks makes
  -- the one copy, of the disk as it then is.
  pub data Outcome (d : fs.Disk) : List (Event fs) → Type 0 where
    never :
        {es : List (Event fs)}
        → none_asks es ≡ true
        → handle_all es (record { maps_copied = false; disk = d })
          ≡ record { maps_copied = false; disk = passing es d }
        → Outcome d es
    once :
        (before behind : List (Event fs)) (e : Event fs)
        → none_asks before ≡ true
        → asks main_thread e ≡ true
        → handle_all (before ++ e ∷ behind) (record { maps_copied = false; disk = d }) ≡ record {
          maps_copied = true;
          disk =
              passing behind
                (copy_maps_and_mapped_files fs pid config
                  (record { maps_copied = false; disk = passing before d })).disk;
        }
        → Outcome d (before ++ e ∷ behind)

  -- An event that does not ask changes the disk by `f`.
  behind-Outcome :
      {d : fs.Disk} {es : List (Event fs)} (e : Event fs) (d' : fs.Disk)
      → asks main_thread e ≡ false
      → ((es : List (Event fs)) → passing (e ∷ es) d ≡ passing es d')
      → handle e (record { maps_copied = false; disk = d })
        ≡ record { maps_copied = false; disk = d' }
      → Outcome d' es
      → Outcome d (e ∷ es)
  behind-Outcome e d' quiet pass same (never {es} h run) = never (rw quiet h) (
      ap (handle_all es) same
      ∙ run
      ∙ ap (λ x. record { maps_copied = false; disk = x }) (sym (pass es)))
  behind-Outcome e d' quiet pass same (once before behind x h a run) =
      once (e ∷ before) behind x (rw quiet h) a (
        ap (handle_all (before ++ x ∷ behind)) same
        ∙ run
        ∙ ap
            (λ y. record {
              maps_copied = true;
              disk =
                  passing behind
                    (copy_maps_and_mapped_files fs pid config
                      (record { maps_copied = false; disk = y })).disk;
            })
            (sym (pass before)))

  asking-Outcome :
      (e : Event fs) (es : List (Event fs)) (d : fs.Disk)
      → asks main_thread e ≡ true
      → handle e (record { maps_copied = false; disk = d })
        ≡ copy_maps_and_mapped_files fs pid config (record { maps_copied = false; disk = d })
      → Outcome d (e ∷ es)
  asking-Outcome e es d a same =
      once [] es e refl a
        (ap (handle_all es) same ∙ copying_all es (record { maps_copied = false; disk = d }))

  once_or_never : (es : List (Event fs)) (d : fs.Disk) → Outcome d es
  unfolding self_init self_fini
  once_or_never [] d = never refl refl
  once_or_never (elsewhere f ∷ es) d =
      behind-Outcome (elsewhere f) (f d) refl (λ es. refl) refl (once_or_never es (f d))
  once_or_never (process_ended ∷ es) d = asking-Outcome process_ended es d refl refl
  once_or_never (thread_started tid ∷ es) d = elim (Bool-cases (tid == main_thread)) [
    | inl main ↦
        behind-Outcome (thread_started tid) d (rw main refl) (λ es. refl) (rw main refl)
          (once_or_never es d)
    | inr other ↦ asking-Outcome (thread_started tid) es d (rw other refl) (rw other refl)
  ]

  -- With COLDTRACE_DISABLE_COPY set, the handlers change nothing. Otherwise, over any events and whatever
  -- else changes the disk in between, the first start of a thread other than the main one or the end of
  -- the process makes the copy, and it is the only one; before such an event, the handlers change nothing.
  pub handle_all-Outcome :
      (es : List (Event fs)) (d : fs.Disk)
      → let m : Maps fs = record { maps_copied = false; disk = d } in
        (handle_all es (maps_init true m) ≡ record { maps_copied = true; disk = passing es d })
        × (maps_init false m ≡ m)
        × Outcome d es
  handle_all-Outcome es d = (copied_all es d, refl, once_or_never es d)
