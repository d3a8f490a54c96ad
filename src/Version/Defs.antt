-- ===== src/Version/Defs.antt =====
-- `struct version_header` of include/coldtrace/version.h.in and `version_header_equal` of src/version.c.
-- The build generates the values of the current header, which is therefore an argument.
use coldtrace.Prelude.{ℕ, ◌+◌, ◌*◌, ◌/◌, ◌%◌, ◌^◌, ◌<◌, Bool, ◌&&◌, ◌==◌}

pub record VersionHeader : Type 0 where
  pub git_hash : ℕ
  pub padding : ℕ
  pub major : ℕ
  pub minor : ℕ
  pub patch : ℕ

-- The fields as a uint32_t and four uint8_t
pub record Fits (h : VersionHeader) : Type 0 where
  pub git_hash : h.git_hash < 2 ^ 32
  pub padding : h.padding < 2 ^ 8
  pub major : h.major < 2 ^ 8
  pub minor : h.minor < 2 ^ 8
  pub patch : h.patch < 2 ^ 8

-- `version_header_equal`
unfoldable pub version_header_equal : (current file_header : VersionHeader) → Bool
version_header_equal current file_header =
    file_header.git_hash == current.git_hash
    && file_header.padding == current.padding
    && file_header.major == current.major
    && file_header.minor == current.minor
    && file_header.patch == current.patch

-- The struct as the word that it occupies in memory, the first field in the low bytes, and a word read
-- as the struct
unfoldable pub version_word : VersionHeader → ℕ
version_word h =
    h.git_hash + (h.padding + (h.major + (h.minor + h.patch * 2 ^ 8) * 2 ^ 8) * 2 ^ 8) * 2 ^ 32

unfoldable pub header_of : ℕ → VersionHeader
header_of w = record {
  git_hash = w % 2 ^ 32;
  padding = w / 2 ^ 32 % 2 ^ 8;
  major = w / 2 ^ 40 % 2 ^ 8;
  minor = w / 2 ^ 48 % 2 ^ 8;
  patch = w / 2 ^ 56 % 2 ^ 8;
}
