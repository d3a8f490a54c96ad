-- ===== src/Procmaps/Fs.antt =====
-- The files and directories that src/procmaps.c reads and makes, as an interface: what its calls of
-- fopen(3), fread(3), fwrite(3) and mkdir(2) do to a disk, and the laws that the proofs rely on.
use coldtrace.Prelude.{ℕ, ◌≡◌, ◌≢◌, Bool, true, false, Option, some, List, [], ◌++◌}

-- What mkdir(2) reports.
pub data Made : Type 0 where
  created eexist failed : Made

-- `mkdir(temp, S_IRWXU) && errno != EEXIST`, negated
abbrev pub is_made : Made → Bool
is_made created = true
is_made eexist = true
is_made failed = false

pub record Fs : Type 1 where
  pub Disk : Type 0
  -- fopen(3) for reading: the bytes that fread(3) or fgets(3) then deliver before the end
  pub contents : Disk → List ℕ → Option (List ℕ)
  -- fopen(3) with "wb"; `none` if it fails
  pub create : List ℕ → Disk → Option Disk
  -- fwrite(3) to a file that is open for writing
  pub append : List ℕ → List ℕ → Disk → Disk
  pub mkdir : List ℕ → Disk → Made × Disk
  -- Whether a path names something
  pub has_path : Disk → List ℕ → Bool

-- A disk with room, on which different paths name different files.
pub record Lawful (fs : Fs) : Type 0 where
  pub create_empty :
      (p : List ℕ) (d e : fs.Disk) → fs.create p d ≡ some e → fs.contents e p ≡ some []
  pub create_other :
      (p : List ℕ) (d e : fs.Disk)
      → fs.create p d ≡ some e
      → (q : List ℕ) → q ≢ p
      → fs.contents e q ≡ fs.contents d q
  pub append_same :
      (p bytes old : List ℕ) (d : fs.Disk)
      → fs.contents d p ≡ some old
      → fs.contents (fs.append p bytes d) p ≡ some (old ++ bytes)
  pub append_other :
      (p bytes q : List ℕ) (d : fs.Disk)
      → q ≢ p
      → fs.contents (fs.append p bytes d) q ≡ fs.contents d q
  pub mkdir_there :
      (p : List ℕ) (d : fs.Disk)
      → is_made (fs.mkdir p d).0 ≡ true
      → fs.has_path (fs.mkdir p d).1 p ≡ true
  pub mkdir_keeps :
      (p q : List ℕ) (d : fs.Disk) → fs.has_path d q ≡ true → fs.has_path (fs.mkdir p d).1 q ≡ true
  pub mkdir_contents :
      (p q : List ℕ) (d : fs.Disk) → fs.contents (fs.mkdir p d).1 q ≡ fs.contents d q
