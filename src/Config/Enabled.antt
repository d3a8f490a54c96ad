-- ===== src/Config/Enabled.antt =====
-- When the initialiser of src/config.c leaves writing enabled, and what then holds of the path.
use coldtrace.Prelude.{
  ℕ, ◌+◌, ◌-◌, ◌≤◌, ◌≡◌, ◌↔◌, refl, Bool, true, false, ◌&&◌, ◌||◌, Option, none, some, List, ltb,
  if◌then◌else◌, arith, length, length-append, is_some,
}
use coldtrace.Config.Defs.{
  Config, set_path, disable_writes, set_trace_size, set_max, default_path_size, file_suffix,
}
use coldtrace.Config.Init.{Env, init, init_path, init_max, init_size, says_yes}
use coldtrace.Utils.Defs.{Dirs, ensure_dir_empty, ensure_dir_exists}

-- Whether a path is usable for traces
abbrev pub usable : Dirs → (path no_cleanup : Option (List ℕ)) → Bool
usable dirs none no_cleanup = false
usable dirs (some var) no_cleanup =
    ltb (length var) (default_path_size - (length file_suffix + 1))
    && (ensure_dir_exists dirs var && (is_some no_cleanup || (ensure_dir_empty dirs var).0))

init_path_lem :
    (dirs : Dirs) (path no_cleanup : Option (List ℕ)) (c : Config)
    → ((init_path dirs path no_cleanup c).disable_writes ≡ false)
      ↔ ((c.disable_writes ≡ false) × (usable dirs path no_cleanup ≡ true))
unfolding set_path disable_writes
init_path_lem dirs none no_cleanup c = (λ h. cc, λ h. cc)
init_path_lem dirs (some var) none c = ground arith
init_path_lem dirs (some var) (some x) c = ground arith

init_max_keeps :
    (var : Option (List ℕ)) (c : Config) → (init_max var c).disable_writes ≡ c.disable_writes
unfolding set_max
init_max_keeps none c = refl
init_max_keeps (some v) c = refl

init_size_keeps :
    (var : Option (List ℕ)) (c : Config) → (init_size var c).disable_writes ≡ c.disable_writes
unfolding set_trace_size
init_size_keeps none c = refl
init_size_keeps (some v) c = refl

init_yes :
    (b : Bool) (c : Config)
    → (if b then disable_writes c else c).disable_writes ≡ (b || c.disable_writes)
unfolding disable_writes
init_yes true c = refl
init_yes false c = refl

-- After the initialiser, writing is enabled exactly if it was before, COLDTRACE_DISABLE_WRITES does
-- not say yes or true, and COLDTRACE_PATH is set, is short enough, and is a directory that exists or
-- can be made and that, unless the cleanup is disabled, can be cleaned.
pub init-enabled :
    (dirs : Dirs) (env : Env) (c : Config)
    → ((init dirs env c).disable_writes ≡ false) ↔ (
        (c.disable_writes ≡ false)
        × (says_yes env.no_writes ≡ false)
        × (usable dirs env.path env.no_cleanup ≡ true))
unfolding init set_max set_trace_size disable_writes
init-enabled dirs env c =
    let c1 = init_max env.max_files c in
    let c2 = if says_yes env.no_writes then disable_writes c1 else c1 in
    let c3 = init_size env.size c2 in
    let first : c1.disable_writes ≡ c.disable_writes = init_max_keeps env.max_files c in
    let last : c3.disable_writes ≡ c2.disable_writes = init_size_keeps env.size c2 in
    let second : c2.disable_writes ≡ (says_yes env.no_writes || c1.disable_writes) =
      init_yes (says_yes env.no_writes) c1 in
    let path = init_path_lem dirs env.path env.no_cleanup c3 in
    ground (arith, first, second, last, path)

-- A path that is taken leaves room in the array for the suffix and the terminating 0; one that is
-- refused changes nothing.
pub set_path-fits :
    (path : List ℕ) (c : Config)
    → let (taken, c') = set_path path c in
      (taken ≡ true → (length c'.pattern + 1 ≤ default_path_size) × (c'.path ≡ path))
      × (taken ≡ false → c' ≡ c)
unfolding set_path
set_path-fits path c = ground (arith, length-append path file_suffix)
