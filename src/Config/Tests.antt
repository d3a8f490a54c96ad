-- ===== src/Config/Tests.antt =====
-- The initialiser and the directory helpers on a concrete environment and directory.
use coldtrace.Prelude.{◌+◌, ◌≤◌, ◌≡◌, ◌↔◌, refl, true, false, none, some, [], ◌∷◌, codes, length}
use coldtrace.Config.Defs.{defaults, set_path, default_path_size}
use coldtrace.Config.Init.{Env, init, says_yes, strtoul}
use coldtrace.Config.Enabled.{usable, init-enabled, set_path-fits}
use coldtrace.Utils.Defs.{Dirs, DirEntry}

abbrev old_trace : DirEntry
old_trace = record { name = codes "freezer_log_1_0.bin"; regular = true }

abbrev notes : DirEntry
notes = record { name = codes "notes.txt"; regular = true }

abbrev dirs : Dirs
dirs = record {
  stat = λ p. some true;
  mkdir_ok = λ p. false;
  entries = λ p. some (notes ∷ old_trace ∷ []);
  remove_ok = λ n. true;
}

abbrev env : Env
env = record {
  max_files = some (codes "12");
  no_writes = none;
  size = some (codes " 4096");
  path = some (codes "/tmp/t");
  no_cleanup = none;
}

twelve : strtoul (codes " +12a") ≡ 12
unfolding strtoul
twelve = refl

init-enabled_example : ((init dirs env defaults).disable_writes ≡ false) ↔ (
    (defaults.disable_writes ≡ false)
    × (says_yes env.no_writes ≡ false)
    × (usable dirs env.path env.no_cleanup ≡ true))
init-enabled_example = init-enabled dirs env defaults

set_path-fits_example :
    let (taken, c') = set_path (codes "/tmp/t") defaults in
    (taken ≡ true → (length c'.pattern + 1 ≤ default_path_size) × (c'.path ≡ codes "/tmp/t"))
    × (taken ≡ false → c' ≡ defaults)
set_path-fits_example = set_path-fits (codes "/tmp/t") defaults
