-- ===== src/Aliases/Apart.antt =====
-- What including include/coldtrace/aliases.h defines, and that no two names get the same event.
use coldtrace.Prelude.{
  ℕ, ◌≡◌, ◌≢◌, refl, sym, ap, ◌∙◌, inl, inr, Bool, true, false, not, ◌&&◌, Option, none, some,
  some_injective, List, [], ◌∷◌, is_some, if◌then◌else◌, Bool-cases, Option-cases, if_split,
  same_text, same_text_refl, of_same_text, no_bool, arith,
}
use coldtrace.Aliases.Defs.{
  Macros, define, define_unless, define_aliases, aliases, aliases_guard, include_aliases,
}

-- The first text of a name in a table
abbrev pub look_up : List (List ℕ × List ℕ) → Macros
look_up [] n = none
look_up ((name, text) ∷ rest) n = if same_text n name then some text else look_up rest n

abbrev pub or_else {ℓ} : {A : Type ℓ} → Option A → Option A → Option A
or_else none o = o
or_else (some a) _ = some a

or_else-none {ℓ} : {A : Type ℓ} (o : Option A) → or_else o none ≡ o
or_else-none none = refl
or_else-none (some _) = refl

or_else-if {ℓ} :
    {A : Type ℓ} (b : Bool) (o rest : Option A) (text : A)
    → or_else (or_else o (if b then some text else none)) rest
      ≡ or_else o (if b then some text else rest)
or_else-if true none rest text = refl
or_else-if true (some _) rest text = refl
or_else-if false none rest text = refl
or_else-if false (some _) rest text = refl

pub define_unless_lem :
    (name text : List ℕ) (m : Macros) (n : List ℕ)
    → define_unless name text m n ≡ or_else (m n) (if same_text n name then some text else none)
define_unless_lem name text m n = elim (Bool-cases (same_text n name)) [
  | inl same ↦
      (let there : m name ≡ m n = ap m (sym (of_same_text n name same)) in
        elim (Option-cases (m n)) [
          | inl e ↦ rw (there, e, same) refl
          | inr (_, e) ↦ rw (there, e) e
        ])
  | inr other ↦
      if_split
        (λ (m' : Macros). m' n ≡ or_else (m n) (if same_text n name then some text else none))
        (is_some (m name)) (λ _. rw other (sym (or_else-none (m n))))
        (λ _. rw other (sym (or_else-none (m n))))
]

define_aliases_lem :
    (table : List (List ℕ × List ℕ)) (m : Macros) (n : List ℕ)
    → define_aliases table m n ≡ or_else (m n) (look_up table n)
define_aliases_lem [] m n = sym (or_else-none (m n))
define_aliases_lem ((name, text) ∷ rest) m n =
    define_aliases_lem rest (define_unless name text m) n
    ∙ ap (λ o. or_else o (look_up rest n)) (define_unless_lem name text m n)
    ∙ or_else-if (same_text n name) (m n) (look_up rest n) text

-- No name of a table stands for a text.
abbrev lacks_text : List ℕ → List (List ℕ × List ℕ) → Bool
lacks_text t [] = true
lacks_text t ((_, text) ∷ rest) = not (same_text text t) && lacks_text t rest

abbrev is_apart : List (List ℕ × List ℕ) → Bool
is_apart [] = true
is_apart ((_, text) ∷ rest) = lacks_text text rest && is_apart rest

aliases-apart : is_apart aliases ≡ true
unfolding aliases
aliases-apart = refl

and_both : (a b : Bool) → (a && b) ≡ true → (a ≡ true) × (b ≡ true)
and_both a b h = ground arith

and_split : (a b : Bool) → (not a && b) ≡ true → (a ≡ false) × (b ≡ true)
and_split a b h = ground arith

-- The two ways in which a name is found
taken :
    (name text : List ℕ) (rest : List (List ℕ × List ℕ)) (n t : List ℕ)
    → same_text n name ≡ true
    → look_up ((name, text) ∷ rest) n ≡ some t
    → text ≡ t
taken name text rest n t h e =
    some_injective (sym (ap (λ b. if b then some text else look_up rest n) h) ∙ e)

passed :
    (name text : List ℕ) (rest : List (List ℕ × List ℕ)) (n t : List ℕ)
    → same_text n name ≡ false
    → look_up ((name, text) ∷ rest) n ≡ some t
    → look_up rest n ≡ some t
passed name text rest n t h e = sym (ap (λ b. if b then some text else look_up rest n) h) ∙ e

lacks_text_lem :
    (t : List ℕ) (table : List (List ℕ × List ℕ)) (n : List ℕ)
    → lacks_text t table ≡ true
    → look_up table n ≢ some t
lacks_text_lem t [] n h e = no_bool (ap is_some e)
lacks_text_lem t ((name, text) ∷ rest) n h e =
    let (other, lacking) = and_split (same_text text t) (lacks_text t rest) h in
    elim (Bool-cases (same_text n name)) [
      | inl same ↦
          no_bool (
            sym other
            ∙ ap (λ u. same_text u t) (taken name text rest n t same e)
            ∙ same_text_refl t)
      | inr differ ↦ lacks_text_lem t rest n lacking (passed name text rest n t differ e)
    ]

-- In a table of different texts, two names with the same text are the same.
look_up_injective :
    (table : List (List ℕ × List ℕ)) (a b t : List ℕ)
    → is_apart table ≡ true
    → look_up table a ≡ some t
    → look_up table b ≡ some t
    → a ≡ b
look_up_injective [] a b t h e f = absurd (no_bool (ap is_some e))
look_up_injective ((name, text) ∷ rest) a b t h e f =
    let (lacking, apart) = and_both (lacks_text text rest) (is_apart rest) h in
    let alone : (n : List ℕ) → text ≡ t → look_up rest n ≢ some t =
      λ n u g. lacks_text_lem text rest n lacking (g ∙ ap some (sym u)) in
    elim (Bool-cases (same_text a name)) [
      | inl same ↦
          let u = taken name text rest a t same e in
          elim (Bool-cases (same_text b name)) [
            | inl same' ↦ of_same_text a name same ∙ sym (of_same_text b name same')
            | inr differ ↦ absurd (alone b u (passed name text rest b t differ f))
          ]
      | inr differ ↦
          let g = passed name text rest a t differ e in
          elim (Bool-cases (same_text b name)) [
            | inl same ↦ absurd (alone a (taken name text rest b t same f) g)
            | inr differ' ↦
                look_up_injective rest a b t apart g (passed name text rest b t differ' f)
          ]
    ]

-- What the header makes of a name
include_aliases_lem :
    (dice : Macros → Macros) (m : Macros) (n : List ℕ)
    → m aliases_guard ≡ none
    → include_aliases dice m n ≡ or_else (dice (define aliases_guard [] m) n) (look_up aliases n)
unfolding include_aliases
include_aliases_lem dice m n h =
    rw h (define_aliases_lem aliases (dice (define aliases_guard [] m)) n)

-- The headers of Dice keep the macros that are defined before them.
abbrev pub Extends : (Macros → Macros) → Type 0
Extends dice = (m : Macros) (n text : List ℕ) → m n ≡ some text → dice m n ≡ some text

guarded :
    (dice : Macros → Macros) (m : Macros)
    → Extends dice
    → m aliases_guard ≡ none
    → include_aliases dice m aliases_guard ≡ some []
guarded dice m extends h =
    include_aliases_lem dice m aliases_guard h
    ∙ ap (λ o. or_else o (look_up aliases aliases_guard))
        (extends (define aliases_guard [] m) aliases_guard []
          (ap (λ b. if b then some [] else m aliases_guard) (same_text_refl aliases_guard)))

again :
    (dice : Macros → Macros) (m : Macros) (text : List ℕ)
    → m aliases_guard ≡ some text
    → include_aliases dice m ≡ m
unfolding include_aliases
again dice m text h = rw h refl

-- Where the header is included for the first time, and the headers of Dice keep the macros before them:
-- a name of the table that Dice does not define is replaced by the name that the table has for it, and
-- no other name that Dice does not define is replaced by the same one. A name that Dice defines keeps
-- its text, and to include the header again changes nothing.
pub include_aliases-apart :
    (dice : Macros → Macros) (m : Macros) (a b own t text : List ℕ)
    → Extends dice
    → m aliases_guard ≡ none
    → dice (define aliases_guard [] m) a ≡ none
    → dice (define aliases_guard [] m) b ≡ none
    → dice (define aliases_guard [] m) own ≡ some text
    → look_up aliases a ≡ some t
    → a ≢ b
    → (include_aliases dice m a ≡ some t)
      × (include_aliases dice m b ≡ look_up aliases b)
      × (include_aliases dice m b ≢ some t)
      × (include_aliases dice m own ≡ some text)
      × (include_aliases dice (include_aliases dice m) ≡ include_aliases dice m)
include_aliases-apart dice m a b own t text extends h none_a none_b some_own e differ =
    let at : (n : List ℕ) (o : Option (List ℕ))
        → dice (define aliases_guard [] m) n ≡ o
        → include_aliases dice m n ≡ or_else o (look_up aliases n) =
      λ n o g. include_aliases_lem dice m n h ∙ ap (λ o'. or_else o' (look_up aliases n)) g in
    let at_b = at b none none_b in
    (
      at a none none_a ∙ e,
      at_b,
      λ f. differ (look_up_injective aliases a b t aliases-apart e (sym at_b ∙ f)),
      at own (some text) some_own,
      again dice (include_aliases dice m) [] (guarded dice m extends h),
    )
