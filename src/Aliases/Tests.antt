-- ===== src/Aliases/Tests.antt =====
-- The header behind headers of Dice that define two of its names themselves.
use coldtrace.Prelude.{
  ℕ, ◌≡◌, ◌≢◌, refl, ap, ◌∙◌, none, some, List, if◌then◌else◌, codes, same_text, no_bool,
}
use coldtrace.Aliases.Defs.{Macros, define_unless, aliases, include_aliases}
use coldtrace.Aliases.Apart.{look_up, or_else, define_unless_lem, Extends, include_aliases-apart}

abbrev dice_headers : Macros → Macros
dice_headers m =
    define_unless (codes "EVENT_THREAD_JOIN") (codes "7")
      (define_unless (codes "EVENT_PTHREAD_EXIT") (codes "5") m)

abbrev no_macros : Macros
no_macros n = none

keeps :
    (name text : List ℕ) (m : Macros) (n old : List ℕ)
    → m n ≡ some old
    → define_unless name text m n ≡ some old
keeps name text m n old h =
    define_unless_lem name text m n
    ∙ ap (λ o. or_else o (if same_text n name then some text else none)) h

dice_headers-Extends : Extends dice_headers
dice_headers-Extends m n text h =
    keeps (codes "EVENT_THREAD_JOIN") (codes "7")
      (define_unless (codes "EVENT_PTHREAD_EXIT") (codes "5") m) n text
      (keeps (codes "EVENT_PTHREAD_EXIT") (codes "5") m n text h)

exit_alias : look_up aliases (codes "EVENT_THREAD_EXIT") ≡ some (codes "EVENT_PTHREAD_EXIT")
unfolding aliases
exit_alias = refl

include_aliases-apart_example :
    (include_aliases dice_headers no_macros (codes "EVENT_THREAD_EXIT")
      ≡ some (codes "EVENT_PTHREAD_EXIT"))
    × (include_aliases dice_headers no_macros (codes "EVENT_SPIN_LOCK")
        ≡ look_up aliases (codes "EVENT_SPIN_LOCK"))
    × (include_aliases dice_headers no_macros (codes "EVENT_SPIN_LOCK")
        ≢ some (codes "EVENT_PTHREAD_EXIT"))
    × (include_aliases dice_headers no_macros (codes "EVENT_THREAD_JOIN") ≡ some (codes "7"))
    × (include_aliases dice_headers (include_aliases dice_headers no_macros)
        ≡ include_aliases dice_headers no_macros)
include_aliases-apart_example =
    include_aliases-apart dice_headers no_macros (codes "EVENT_THREAD_EXIT")
      (codes "EVENT_SPIN_LOCK") (codes "EVENT_THREAD_JOIN") (codes "EVENT_PTHREAD_EXIT") (codes "7")
      dice_headers-Extends refl refl refl refl exit_alias
      (λ e. no_bool (ap (λ n. same_text n (codes "EVENT_SPIN_LOCK")) e))
