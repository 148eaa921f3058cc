-- ===== src/Parsers/Sequence/Choice.antt =====
-- What choice.c does, told by the runs of the alternatives.
use hammer.Prelude.{ℕ, ◌≡◌, refl, sym, subst, Option, none, some, List, [], ◌∷◌}
use hammer.BitReader.{InputStream}
use hammer.State.{
  at, ParseState, Outcome, M, continue_with, pure, get_stream, put_stream, done, fault, halted,
  out_of_fuel,
}
use hammer.Parsers.Sequence.{choice_loop, parse_choice}

-- A run that is not a failure to match.
pub data IsSettled : Outcome (Option ℕ) → Type 0 where
  matched : {r : ℕ} {s : ParseState} → IsSettled (done (some r) s)
  was_fault : IsSettled fault
  was_halted : IsSettled halted
  was_unfinished : IsSettled out_of_fuel

module _ (run : ℕ → M (Option ℕ)) where
  -- Ordered choice at the place `backup`: the first alternative that settles decides, each is tried
  -- there, and none is tried after it.
  pub data Chooses (backup : InputStream) : List ℕ → ParseState → Outcome (Option ℕ) → Type 0 where
    none_left : {s : ParseState} → Chooses backup [] s (done none s)
    decides :
        {p : ℕ} {ps : List ℕ} {s : ParseState}
        → IsSettled (run p (at s backup))
        → Chooses backup (p ∷ ps) s (run p (at s backup))
    fails :
        {p : ℕ} {ps : List ℕ} {s s' : ParseState} {o : Outcome (Option ℕ)}
        → run p (at s backup) ≡ done none s'
        → Chooses backup ps s' o
        → Chooses backup (p ∷ ps) s o

module _ {run : ℕ → M (Option ℕ)} where
  -- One round of the loop, for each way in which its run can end.
  decided :
      (backup : InputStream) (p : ℕ) (ps : List ℕ) (s : ParseState) (o : Outcome (Option ℕ))
      → run p (at s backup) ≡ o
      → ((s' : ParseState) → Chooses run backup ps s' (choice_loop run backup ps s'))
      → Chooses run backup
          (p ∷ ps)
          s
          (continue_with o (elim [ none ↦ choice_loop run backup ps | some r ↦ pure (some r) ]))
  decided backup p ps s (done none s') e k = fails e (k s')
  decided backup p ps s (done (some r) s') e k =
      subst (Chooses run backup (p ∷ ps) s) e (decides (subst IsSettled (sym e) matched))
  decided backup p ps s fault e k =
      subst (Chooses run backup (p ∷ ps) s) e (decides (subst IsSettled (sym e) was_fault))
  decided backup p ps s halted e k =
      subst (Chooses run backup (p ∷ ps) s) e (decides (subst IsSettled (sym e) was_halted))
  decided backup p ps s out_of_fuel e k =
      subst (Chooses run backup (p ∷ ps) s) e (decides (subst IsSettled (sym e) was_unfinished))

  choice_loop-Chooses :
      (backup : InputStream) (ps : List ℕ) (s : ParseState)
      → Chooses run backup ps s (choice_loop run backup ps s)
  unfolding choice_loop put_stream
  choice_loop-Chooses backup [] s = none_left
  choice_loop-Chooses backup (p ∷ ps) s =
      decided backup p ps s (run p (at s backup)) refl (choice_loop-Chooses backup ps)

  -- A choice ends as ordered choice says, every alternative tried where the choice began.
  pub parse_choice-Chooses :
      (ps : List ℕ) (s : ParseState) → Chooses run s.input_stream ps s (parse_choice run ps s)
  unfolding parse_choice get_stream
  parse_choice-Chooses [] s = none_left
  parse_choice-Chooses (p ∷ ps) s =
      decided s.input_stream p ps s (run p s) refl (choice_loop-Chooses s.input_stream ps)
