-- ===== src/Procmaps/Events.antt =====
-- The flag of src/procmaps.c and the handlers that copy at most once.
use coldtrace.Prelude.{ℕ, Bool, true, ◌||◌, ◌==◌, if◌then◌else◌, is_empty}
use coldtrace.Config.Defs.{Config, get_path}
use coldtrace.Procmaps.Fs.{Fs}
use coldtrace.Procmaps.Defs.{copy_proc_maps, copy_mapped_files}

-- `maps_copied_` beside the disk. The lock of the two handlers is held from their first to their last
-- statement, so a handler is one step.
pub record Maps (fs : Fs) : Type 0 where
  pub maps_copied : Bool
  pub disk : fs.Disk

-- `DICE_MODULE_INIT`: whether COLDTRACE_DISABLE_COPY is set
abbrev pub maps_init : {fs : Fs} → (disable_copy : Bool) → Maps fs → Maps fs
maps_init disable_copy m = if disable_copy then record m { maps_copied = true } else m

module _ (fs : Fs) (pid : ℕ) (config : Config) where
  -- `copy_maps_and_mapped_files_`
  unfoldable pub copy_maps_and_mapped_files : Maps fs → Maps fs
  copy_maps_and_mapped_files m =
      let path = get_path config in
      let (_, d) = copy_proc_maps fs pid path m.disk in
      let c = copy_mapped_files fs path d in
      if is_empty path
      then record m { maps_copied = true }
      else record { maps_copied = true; disk = c.disk }

  -- `EVENT_SELF_INIT` of a thread
  unfoldable pub self_init : (main_thread tid : ℕ) → Maps fs → Maps fs
  self_init main_thread tid m =
      if m.maps_copied || (tid == main_thread) then m else copy_maps_and_mapped_files m

  -- `EVENT_SELF_FINI`
  unfoldable pub self_fini : Maps fs → Maps fs
  self_fini m = if m.maps_copied then m else copy_maps_and_mapped_files m
