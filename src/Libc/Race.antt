-- ===== src/Libc/Race.antt =====
-- The wrappers of include/coldtrace/libc.h under any number of threads that look a symbol up at the same
-- time.
use coldtrace.Prelude.{
  ℕ, ◌≡◌, ◌⊎◌, refl, sym, ap, ◌∙◌, inl, inr, true, List, [], ◌∷◌, ◌==◌, if◌then◌else◌, if_split,
  ==_iff, arith,
}
use mathlib.Core.Path.{subst}
use coldtrace.Libc.Defs.{
  Symbol, rank, Request, Cache, Pc, idle, missed, resolved, found, read_cached, resolve,
  write_cached, sym_malloc, sym_calloc, sym_realloc, sym_free, sym_memcpy, sym_memmove, sym_memset,
  sym_mmap, sym_munmap,
}

-- A call of the function at an address
pub record Call : Type 0 where
  pub request : Request
  pub address : ℕ

pub record Scene : Type 0 where
  pub cached : Cache
  pub pc : ℕ → Pc
  pub calls : List Call

abbrev pub set_pc : (ℕ → Pc) → ℕ → Pc → ℕ → Pc
set_pc pcs tid pc t = if t == tid then pc else pcs t

-- One step of a thread through the macro
pub data Step (real_sym : Symbol → ℕ) (s : Scene) : Scene → Type 0 where
  enter :
      (tid : ℕ) (request : Request)
      → s.pc tid ≡ idle
      → Step real_sym s (record s { pc = set_pc s.pc tid (read_cached s.cached request) })
  look_up :
      (tid : ℕ) (request : Request)
      → s.pc tid ≡ missed request
      → Step real_sym s (record s { pc = set_pc s.pc tid (resolve real_sym request) })
  publish :
      (tid : ℕ) (request : Request) (p : ℕ)
      → s.pc tid ≡ resolved request p
      → Step real_sym s (record s {
        cached = write_cached request.symbol p s.cached;
        pc = set_pc s.pc tid (found request p);
      })
  call :
      (tid : ℕ) (request : Request) (p : ℕ)
      → s.pc tid ≡ found request p
      → Step real_sym s (record s {
        pc = set_pc s.pc tid idle;
        calls = record { request = request; address = p } ∷ s.calls;
      })

pub data Interleaves (real_sym : Symbol → ℕ) (s : Scene) : Scene → Type 0 where
  here : Interleaves real_sym s s
  next : {t u : Scene} → Interleaves real_sym s t → Step real_sym t u → Interleaves real_sym s u

-- The symbol of a number
abbrev of_rank : ℕ → Symbol
of_rank n =
    if n == 0
    then sym_malloc
    else if n == 1
    then sym_calloc
    else if n == 2
    then sym_realloc
    else if n == 3
    then sym_free
    else if n == 4
    then sym_memcpy
    else if n == 5
    then sym_memmove
    else if n == 6
    then sym_memset
    else if n == 7
    then sym_mmap
    else sym_munmap

of_rank-rank : (k : Symbol) → of_rank (rank k) ≡ k
of_rank-rank sym_malloc = refl
of_rank-rank sym_calloc = refl
of_rank-rank sym_realloc = refl
of_rank-rank sym_free = refl
of_rank-rank sym_memcpy = refl
of_rank-rank sym_memmove = refl
of_rank-rank sym_memset = refl
of_rank-rank sym_mmap = refl
of_rank-rank sym_munmap = refl

same_symbol : (a b : Symbol) → (rank a == rank b) ≡ true → a ≡ b
same_symbol a b h =
    sym (of_rank-rank a) ∙ ap of_rank ((==_iff (rank a) (rank b)).0 h) ∙ of_rank-rank b

module _ (real_sym : Symbol → ℕ) where
  abbrev pub Right : Pc → Type 0
  Right idle = Unit
  Right (missed request) = Unit
  Right (resolved request p) = p ≡ real_sym request.symbol
  Right (found request p) = p ≡ real_sym request.symbol

  pub data AllReal : List Call → Type 0 where
    no_call : AllReal []
    one_more :
        {calls : List Call} (request : Request) (address : ℕ)
        → address ≡ real_sym request.symbol
        → AllReal calls
        → AllReal (record { request = request; address = address } ∷ calls)

  -- A cache is empty or holds the address of its own symbol, a thread that has an address has the right
  -- one, and so had every call.
  pub record IsReal (s : Scene) : Type 0 where
    pub cached : (k : Symbol) → (s.cached k ≡ 0) ⊎ (s.cached k ≡ real_sym k)
    pub right : (tid : ℕ) → Right (s.pc tid)
    pub calls : AllReal s.calls

  set_pc-Right :
      (pcs : ℕ → Pc) (tid : ℕ) (pc : Pc)
      → Right pc
      → ((t : ℕ) → Right (pcs t))
      → (t : ℕ) → Right (set_pc pcs tid pc t)
  set_pc-Right pcs tid pc r rs t = if_split (λ x. Right x) (t == tid) (λ _. r) (λ _. rs t)

  read-Right :
      (cached : Cache) (request : Request)
      → ((k : Symbol) → (cached k ≡ 0) ⊎ (cached k ≡ real_sym k))
      → Right (read_cached cached request)
  unfolding read_cached
  read-Right cached request h =
      if_split (λ x. Right x) (cached request.symbol == 0) (λ _. tt)
        (λ some_p. elim (h request.symbol) [ inl empty ↦ absurd (ground arith) | inr real ↦ real ])

  Step-IsReal : {s t : Scene} → Step real_sym s t → IsReal s → IsReal t
  unfolding resolve write_cached
  Step-IsReal {s} (enter tid request e) r = record {
    cached = r.cached;
    right = set_pc-Right s.pc tid _ (read-Right s.cached request r.cached) r.right;
    calls = r.calls;
  }
  Step-IsReal {s} (look_up tid request e) r = record {
    cached = r.cached;
    right = set_pc-Right s.pc tid (resolved request (real_sym request.symbol)) refl r.right;
    calls = r.calls;
  }
  Step-IsReal {s} (publish tid request p e) r =
      let real : p ≡ real_sym request.symbol = subst (λ x. Right x) e (r.right tid) in
      record {
        cached = λ k.
            if_split (λ v. (v ≡ 0) ⊎ (v ≡ real_sym k)) (rank k == rank request.symbol)
              (λ same. inr (real ∙ ap real_sym (sym (same_symbol k request.symbol same))))
              (λ _. r.cached k);
        right = set_pc-Right s.pc tid (found request p) real r.right;
        calls = r.calls;
      }
  Step-IsReal {s} (call tid request p e) r = record {
    cached = r.cached;
    right = set_pc-Right s.pc tid idle tt r.right;
    calls = one_more request p (subst (λ x. Right x) e (r.right tid)) r.calls;
  }

  -- However any number of threads run through the wrappers, looking symbols up and filling the caches at
  -- the same time, every call goes to the function that `real_sym` gives for the symbol of the wrapper
  -- that was called, and a cache is empty or holds that address. `real_sym` gives one address for a name.
  pub Interleaves-IsReal : {s t : Scene} → IsReal s → Interleaves real_sym s t → IsReal t
  Interleaves-IsReal r here = r
  Interleaves-IsReal r (next run step) = Step-IsReal step (Interleaves-IsReal r run)
