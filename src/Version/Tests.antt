-- ===== src/Version/Tests.antt =====
-- A version header.
use coldtrace.Prelude.{◌≡◌, ◌↔◌, refl, true, arith}
use coldtrace.Sys.{Sys}
use coldtrace.Writer.Defs.{words, begin_fragment}
use coldtrace.Example.{slow, half_full}
use coldtrace.Version.Defs.{VersionHeader, Fits, version_header_equal, version_word, header_of}
use coldtrace.Version.Check.{version_header_equal-begin_fragment}

abbrev release_header : VersionHeader
release_header = record { git_hash = 77; padding = 5; major = 1; minor = 2; patch = 3 }

abbrev released : Sys
released = record slow { version = version_word release_header }

release-Fits : Fits release_header
release-Fits = record {
  git_hash = omega arith;
  padding = omega arith;
  major = omega arith;
  minor = omega arith;
  patch = omega arith;
}

version_header_equal-begin_fragment_example :
    (version_header_equal release_header (header_of 77) ≡ true)
    ↔ (77 ≡ words (begin_fragment released half_full).impl.buffer 0)
version_header_equal-begin_fragment_example =
    version_header_equal-begin_fragment released release_header half_full 77 release-Fits refl
      (omega arith)
