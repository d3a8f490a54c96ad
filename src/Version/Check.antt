-- ===== src/Version/Check.antt =====
-- When `version_header_equal` of src/version.c accepts the header of a fragment.
use coldtrace.Prelude.{
  ℕ, ◌^◌, ◌<◌, ◌≡◌, ◌↔◌, refl, sym, ap, ◌∙◌, Bool, true, ◌&&◌, ◌==◌, ==_iff, arith,
}
use coldtrace.Sys.{Sys}
use coldtrace.Writer.Defs.{Io, words, begin_fragment}
use coldtrace.Version.Defs.{VersionHeader, Fits, version_header_equal, version_word, header_of}

pub version_word-Fits : (h : VersionHeader) → Fits h → version_word h < 2 ^ 64
unfolding version_word
version_word-Fits h f = omega (arith, f.git_hash, f.padding, f.major, f.minor, f.patch)

same_fields :
    {a b : VersionHeader}
    → a.git_hash ≡ b.git_hash
    → a.padding ≡ b.padding
    → a.major ≡ b.major
    → a.minor ≡ b.minor
    → a.patch ≡ b.patch
    → a ≡ b
same_fields g p x y z i = record {
  git_hash = g i;
  padding = p i;
  major = x i;
  minor = y i;
  patch = z i;
}

-- A header that is stored as a word is read back as it was.
pub header_of-version_word : (h : VersionHeader) → Fits h → header_of (version_word h) ≡ h
unfolding header_of version_word
header_of-version_word h f =
    same_fields (omega (arith, f.git_hash)) (omega (arith, f.git_hash, f.padding))
      (omega (arith, f.git_hash, f.padding, f.major))
      (omega (arith, f.git_hash, f.padding, f.major, f.minor))
      (omega (arith, f.git_hash, f.padding, f.major, f.minor, f.patch))

-- The word of what a word is read as
pub version_word-header_of : (w : ℕ) → w < 2 ^ 64 → version_word (header_of w) ≡ w
unfolding header_of version_word
version_word-header_of w lt = omega arith

all_five :
    (a b c d e : Bool)
    → (a && b && c && d && e) ≡ true
    → (a ≡ true) × (b ≡ true) × (c ≡ true) × (d ≡ true) × (e ≡ true)
all_five a b c d e h = ground arith

==_same : (a : ℕ) → (a == a) ≡ true
==_same a = ground arith

equal_fields : (c h : VersionHeader) → (version_header_equal c h ≡ true) ↔ (h ≡ c)
unfolding version_header_equal
equal_fields c h = (
  λ e.
      let (g, p, x, y, z) = all_five _ _ _ _ _ e in
      same_fields ((==_iff _ _).0 g) ((==_iff _ _).0 p) ((==_iff _ _).0 x) ((==_iff _ _).0 y)
        ((==_iff _ _).0 z),
  λ e. ap (version_header_equal c) e ∙ reflexive c,
)
  where
    reflexive : (c : VersionHeader) → version_header_equal c c ≡ true
    reflexive c =
        rw
          (==_same c.git_hash, ==_same c.padding, ==_same c.major, ==_same c.minor, ==_same c.patch)
          refl

-- `version_header_equal` accepts exactly the word that a fragment begins with: of the first word of a
-- buffer, read as the struct, it is true if and only if the word is the one that `begin_fragment_`
-- stores. The fields of the current header fit their types, and the word is a word.
pub version_header_equal-begin_fragment :
    (sys : Sys) (current : VersionHeader) (io : Io) (w : ℕ)
    → Fits current
    → sys.version ≡ version_word current
    → w < 2 ^ 64
    → (version_header_equal current (header_of w) ≡ true)
      ↔ (w ≡ words (begin_fragment sys io).impl.buffer 0)
unfolding begin_fragment
version_header_equal-begin_fragment sys current io w f built lt =
    let stored : words (begin_fragment sys io).impl.buffer 0 ≡ version_word current = built in
    let same = equal_fields current (header_of w) in
    (
      λ e. sym (version_word-header_of w lt) ∙ ap version_word (same.0 e) ∙ sym stored,
      λ e. same.1 (ap header_of (e ∙ stored) ∙ header_of-version_word current f),
    )
