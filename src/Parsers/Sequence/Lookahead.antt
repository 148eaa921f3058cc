-- ===== src/Parsers/Sequence/Lookahead.antt =====
-- What optional.c, and.c and not.c do, told by the run of the parser inside.
use hammer.Prelude.{ℕ, ◌≡◌, refl, Option, none, some, length}
use hammer.Syntax.{absent}
use hammer.State.{at, with_result, ParseState, M, get_stream, put_stream, make_result, done}
use hammer.Parsers.Sequence.{parse_optional, parse_and, parse_not}

module _ (run : ℕ → M (Option ℕ)) where
  -- Where `p` ends, h_and succeeds with a new result without a token exactly if `p` succeeds, and in
  -- either case the stream is back at the place where it began.
  pub parse_and-eq :
      {p : ℕ} {s s' : ParseState} {r : Option ℕ}
      → run p s ≡ done r s'
      → parse_and run p s ≡ elim r [
        | none ↦ done none (at s' s.input_stream)
        | some r0 ↦ done (some (length s'.results)) (with_result (at s' s.input_stream) none)
      ]
  unfolding parse_and get_stream put_stream make_result
  parse_and-eq {r = none} e = rw (e, parse_and) refl
  parse_and-eq {r = some r0} e = rw (e, parse_and) refl

  -- Where `p` ends, h_not succeeds with an empty result at the place where it began exactly if `p`
  -- fails; if `p` matches it fails, and the stream stays where `p` left it.
  pub parse_not-eq :
      {p : ℕ} {s s' : ParseState} {r : Option ℕ}
      → run p s ≡ done r s'
      → parse_not run p s ≡ elim r [
        | none ↦ done (some (length s'.results)) (with_result (at s' s.input_stream) none)
        | some r0 ↦ done none s'
      ]
  unfolding parse_not get_stream put_stream make_result
  parse_not-eq {r = none} e = rw (e, parse_not) refl
  parse_not-eq {r = some r0} e = rw (e, parse_not) refl

  -- Where `p` ends, h_optional succeeds: with the result of `p` if there is one, and otherwise with a
  -- new result whose ast is a token of the type TT_NONE, at the place where it began.
  pub parse_optional-eq :
      {p : ℕ} {s s' : ParseState} {r : Option ℕ}
      → run p s ≡ done r s'
      → parse_optional run p s ≡ elim r [
        | none ↦ done (some (length s'.results)) (with_result (at s' s.input_stream) (some absent))
        | some r0 ↦ done (some r0) s'
      ]
  unfolding parse_optional get_stream put_stream make_result
  parse_optional-eq {r = none} e = rw (e, parse_optional) refl
  parse_optional-eq {r = some r0} e = rw (e, parse_optional) refl
