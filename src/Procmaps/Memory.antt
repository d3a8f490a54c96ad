-- ===== src/Procmaps/Memory.antt =====
-- A disk in memory, which fills the interface of Fs.
use coldtrace.Prelude.{
  ℕ, ◌≡◌, ◌≢◌, refl, sym, ap, ◌∙◌, Bool, true, false, ◌||◌, Option, none, some, List, [], ◌++◌,
  if◌then◌else◌, is_some, no_bool, some_injective, same_text, same_text_refl, same_text-ne, arith,
}
use coldtrace.Procmaps.Fs.{Fs, Lawful, Made, created, eexist}

-- The files by path, and the directories
pub record MemoryDisk : Type 0 where
  pub files : List ℕ → Option (List ℕ)
  pub dirs : List ℕ → Bool

abbrev put : (List ℕ → Option (List ℕ)) → (p bytes : List ℕ) → List ℕ → Option (List ℕ)
put files p bytes q = if same_text q p then some bytes else files q

put-same : (files : List ℕ → Option (List ℕ)) (p bytes : List ℕ) → put files p bytes p ≡ some bytes
put-same files p bytes = rw (same_text_refl p) refl

put-other :
    (files : List ℕ → Option (List ℕ)) (p bytes q : List ℕ) → q ≢ p → put files p bytes q ≡ files q
put-other files p bytes q ne = rw (same_text-ne q p ne) refl

abbrev extend : Option (List ℕ) → (p bytes : List ℕ) → MemoryDisk → MemoryDisk
extend none p bytes d = d
extend (some old) p bytes d = record d { files = put d.files p (old ++ bytes) }

abbrev exists_in : MemoryDisk → List ℕ → Bool
exists_in d p = d.dirs p || is_some (d.files p)

abbrev make : Bool → List ℕ → MemoryDisk → Made × MemoryDisk
make true p d = (eexist, d)
make false p d = (created, record d { dirs = λ q. same_text q p || d.dirs q })

abbrev pub memory : Fs
memory = record {
  Disk = MemoryDisk;
  contents = λ d p. d.files p;
  create = λ p d. some (record d { files = put d.files p [] });
  append = λ p bytes d. extend (d.files p) p bytes d;
  mkdir = λ p d. make (exists_in d p) p d;
  has_path = exists_in;
}

make-there :
    (b : Bool) (p : List ℕ) (d : MemoryDisk) → exists_in d p ≡ b → exists_in (make b p d).1 p ≡ true
make-there true p d h = h
make-there false p d h = rw (same_text_refl p) refl

make-keeps :
    (b : Bool) (p q : List ℕ) (d : MemoryDisk)
    → exists_in d q ≡ true
    → exists_in (make b p d).1 q ≡ true
make-keeps true p q d h = h
make-keeps false p q d h = ground arith

make-contents : (b : Bool) (p q : List ℕ) (d : MemoryDisk) → (make b p d).1.files q ≡ d.files q
make-contents true p q d = refl
make-contents false p q d = refl

extend-same :
    (o : Option (List ℕ)) (p bytes old : List ℕ) (d : MemoryDisk)
    → o ≡ some old
    → (extend o p bytes d).files p ≡ some (old ++ bytes)
extend-same none p bytes old d h = absurd (no_bool (ap is_some h))
extend-same (some x) p bytes old d h =
    put-same d.files p (x ++ bytes) ∙ ap (λ l. some (l ++ bytes)) (some_injective h)

extend-other :
    (o : Option (List ℕ)) (p bytes q : List ℕ) (d : MemoryDisk)
    → q ≢ p
    → (extend o p bytes d).files q ≡ d.files q
extend-other none p bytes q d ne = refl
extend-other (some x) p bytes q d ne = put-other d.files p (x ++ bytes) q ne

pub memory-Lawful : Lawful memory
memory-Lawful = record {
  create_empty = λ p d e h.
      ap (λ (f : MemoryDisk). f.files p) (sym (some_injective h)) ∙ put-same d.files p [];
  create_other = λ p d e h q ne.
      ap (λ (f : MemoryDisk). f.files q) (sym (some_injective h)) ∙ put-other d.files p [] q ne;
  append_same = λ p bytes old d h. extend-same (d.files p) p bytes old d h;
  append_other = λ p bytes q d ne. extend-other (d.files p) p bytes q d ne;
  mkdir_there = λ p d h. make-there (exists_in d p) p d refl;
  mkdir_keeps = λ p q d h. make-keeps (exists_in d p) p q d h;
  mkdir_contents = λ p q d. make-contents (exists_in d p) p q d;
}
