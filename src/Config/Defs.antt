-- ===== src/Config/Defs.antt =====
-- The global variables of src/config.c and the functions that set them.
use coldtrace.Prelude.{
  ℕ, ◌+◌, ◌-◌, ◌^◌, Bool, true, false, List, [], ◌++◌, leb, if◌then◌else◌, length, codes,
}

-- `path_` and `pattern_` are the bytes before the terminating 0.
pub record Config : Type 0 where
  pub max_file_count : ℕ
  pub trace_size : ℕ
  pub disable_writes : Bool
  pub path : List ℕ
  pub pattern : List ℕ

-- `DEFAULT_PATH_SIZE`, the size of both arrays
abbrev pub default_path_size : ℕ
default_path_size = 128

-- `COLDTRACE_FILE_SUFFIX`
abbrev pub file_suffix : List ℕ
file_suffix = codes "/freezer_log_%d_%d.bin"

-- The initial values; `max_file_count_` is -1 as a uint32_t.
abbrev pub defaults : Config
defaults = record {
  max_file_count = 2 ^ 32 - 1;
  trace_size = 2097152;
  disable_writes = false;
  path = [];
  pattern = [];
}

-- `coldtrace_set_path`: `sizeof` counts the suffix's terminating 0, `strlen` does not.
unfoldable pub set_path : List ℕ → Config → Bool × Config
set_path path c =
    if leb (default_path_size - (length file_suffix + 1)) (length path)
    then (false, c)
    else (true, record c { path = path; pattern = path ++ file_suffix })

-- `coldtrace_disable_writes`
unfoldable pub disable_writes : Config → Config
disable_writes c = record c { disable_writes = true }

-- `coldtrace_set_trace_size`
unfoldable pub set_trace_size : ℕ → Config → Config
set_trace_size size c = record c { trace_size = size }

-- `coldtrace_set_max`
unfoldable pub set_max : ℕ → Config → Config
set_max max_file_count c = record c { max_file_count = max_file_count }

-- `coldtrace_get_path`, `coldtrace_get_file_pattern`, `coldtrace_writes_disabled`,
-- `coldtrace_get_trace_size`, `coldtrace_get_max`
abbrev pub get_path : Config → List ℕ
get_path c = c.path

abbrev pub get_file_pattern : Config → List ℕ
get_file_pattern c = c.pattern

abbrev pub writes_disabled : Config → Bool
writes_disabled c = c.disable_writes

abbrev pub get_trace_size : Config → ℕ
get_trace_size c = c.trace_size

abbrev pub get_max : Config → ℕ
get_max c = c.max_file_count
