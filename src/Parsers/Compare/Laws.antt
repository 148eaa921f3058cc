-- ===== src/Parsers/Compare/Laws.antt =====
-- What butnot.c, difference.c and xor.c answer, told by the two runs from one place.
use hammer.Prelude.{
  le_or_lt, inl, inr, ℕ, ◌≡◌, refl, ◌∙◌, ap, Bool, true, false, Option, none, some, leb, ltb,
  le→leb, lt→leb_false, lt→ltb, le→ltb_false, get_elem?, if◌then◌else◌,
}
use hammer.BitReader.{InputStream}
use hammer.Syntax.{ParseResult}
use hammer.State.{ParseState, Outcome, M, at, pure, get_stream, put_stream, load_result-eq, done}
use hammer.Parsers.Compare.{parse_unless, parse_butnot, parse_difference, parse_xor}

module _ (run : ℕ → M (Option ℕ)) where
  -- Both parsers match from the place `s`, with the results `x1` and `x2`: `s1` is the state after the
  -- first and `s2` the one after the second.
  pub record BothMatch (p1 p2 r1 : ℕ) (x1 x2 : ParseResult) (s s1 s2 : ParseState) : Type 0 where
    pub r2 : ℕ
    pub first : run p1 s ≡ done (some r1) s1
    pub second : run p2 (at s1 s.input_stream) ≡ done (some r2) s2
    pub first_result : get_elem? s2.results r1 ≡ some x1
    pub second_result : get_elem? s2.results r2 ≡ some x2

module _ {run : ℕ → M (Option ℕ)} where
  parse_unless-both :
      {p1 p2 r1 : ℕ} {x1 x2 : ParseResult} {s s1 s2 : ParseState} (loses : ℕ → ℕ → Bool)
      → BothMatch run p1 p2 r1 x1 x2 s s1 s2
      → parse_unless run loses p1 p2 s
        ≡ done (if loses x1.bit_length x2.bit_length then none else some r1) (at s2 s1.input_stream)
  unfolding parse_unless get_stream put_stream
  parse_unless-both {r1 = r1} {x1} {x2} {s1 = s1} {s2 = s2} loses b =
      rw (b.first, parse_unless)
        (rw (b.second) (
          rw (load_result-eq (at s2 s1.input_stream) r1 b.first_result) (
            rw (load_result-eq (at s2 s1.input_stream) b.r2 b.second_result)
              (choose (loses x1.bit_length x2.bit_length)))))
    where
      choose :
          (b : Bool)
          → (if b then pure none else pure (some r1)) (at s2 s1.input_stream)
            ≡ done (if b then none else some r1) (at s2 s1.input_stream)
      choose true = refl
      choose false = refl

module _ (run : ℕ → M (Option ℕ)) where
  -- How the two runs from the place `s` can end. The second parser does not run if the first fails.
  pub data TwoRuns (p1 p2 : ℕ) (s : ParseState) : Type 0 where
    first_fails : (s1 : ParseState) → run p1 s ≡ done none s1 → TwoRuns p1 p2 s
    second_fails :
        (r1 : ℕ) (s1 s2 : ParseState)
        → run p1 s ≡ done (some r1) s1
        → run p2 (at s1 s.input_stream) ≡ done none s2
        → TwoRuns p1 p2 s
    both_match :
        {r1 : ℕ} (x1 x2 : ParseResult) {s1 s2 : ParseState}
        → BothMatch run p1 p2 r1 x1 x2 s s1 s2
        → TwoRuns p1 p2 s

  -- The answer if the first parser `wins` by the lengths of both results.
  unfoldable pub answer :
      (ℕ → ℕ → Bool) → {p1 p2 : ℕ} {s : ParseState} → TwoRuns p1 p2 s → Outcome (Option ℕ)
  answer wins (first_fails s1 e) = done none s1
  answer wins (second_fails r1 s1 s2 e f) = done (some r1) (at s2 s1.input_stream)
  answer wins (both_match {r1} x1 x2 {s1} {s2} b) =
      done (if wins x1.bit_length x2.bit_length then some r1 else none) (at s2 s1.input_stream)

  loses_or_wins :
      (loses wins : ℕ → ℕ → Bool) (p1 p2 : ℕ) (s : ParseState)
      → ((m n r : ℕ) → (if loses m n then none else some r) ≡ (if wins m n then some r else none))
      → (w : TwoRuns p1 p2 s) → parse_unless run loses p1 p2 s ≡ answer wins w
  unfolding parse_unless get_stream put_stream answer
  loses_or_wins loses wins p1 p2 s t (first_fails s1 e) = rw (e, parse_unless) refl
  loses_or_wins loses wins p1 p2 s t (second_fails r1 s1 s2 e f) = rw (e, parse_unless) (rw f refl)
  loses_or_wins loses wins p1 p2 s t (both_match {r1} x1 x2 {s1} {s2} b) =
      parse_unless-both loses b
      ∙ ap (λ r. done r (at s2 s1.input_stream)) (t x1.bit_length x2.bit_length r1)

  not_longer : (m n r : ℕ) → (if leb m n then none else some r) ≡ (if ltb n m then some r else none)
  not_longer m n r = elim (le_or_lt m n) [
    | inl p ↦ rw (le→leb m n p, le→ltb_false n m p) refl
    | inr p ↦ rw (lt→leb_false m n p, lt→ltb n m p) refl
  ]

  shorter : (m n r : ℕ) → (if ltb m n then none else some r) ≡ (if leb n m then some r else none)
  shorter m n r = elim (le_or_lt n m) [
    | inl p ↦ rw (le→leb n m p, le→ltb_false m n p) refl
    | inr p ↦ rw (lt→leb_false n m p, lt→ltb m n p) refl
  ]

  -- However the runs of both parsers end, h_butnot and h_difference fail if the first fails, and give
  -- the result and the stream of the first if only the second fails. If both match they go on from
  -- the stream of the first, h_butnot with its result exactly if the bit_length of that is greater,
  -- h_difference exactly if it is not less: at equal bit_lengths one fails and the other succeeds.
  pub parse_butnot-parse_difference :
      {p1 p2 : ℕ} {s : ParseState} (w : TwoRuns p1 p2 s)
      → (parse_butnot run p1 p2 s ≡ answer (λ m n. ltb n m) w)
        × (parse_difference run p1 p2 s ≡ answer (λ m n. leb n m) w)
  unfolding parse_butnot parse_difference
  parse_butnot-parse_difference {p1} {p2} {s} w = (
    loses_or_wins leb (λ m n. ltb n m) p1 p2 s not_longer w,
    loses_or_wins ltb (λ m n. leb n m) p1 p2 s shorter w,
  )

-- Exclusive or of two results, the second read at the state `s2` and the first ended at `i`.
pub exclusive : Option ℕ → Option ℕ → InputStream → ParseState → Outcome (Option ℕ)
exclusive none r2 i s2 = done r2 s2
exclusive (some r1) none i s2 = done (some r1) (at s2 i)
exclusive (some r1) (some r2) i s2 = done none s2

module _ (run : ℕ → M (Option ℕ)) where
  -- A xor gives the result and the stream of the parser that matches if it is the only one of the two,
  -- and fails otherwise; both are tried at the place where it began.
  pub parse_xor-exclusive :
      {p1 p2 : ℕ} {r1 r2 : Option ℕ} {s s1 s2 : ParseState}
      → run p1 s ≡ done r1 s1
      → run p2 (at s1 s.input_stream) ≡ done r2 s2
      → parse_xor run p1 p2 s ≡ exclusive r1 r2 s1.input_stream s2
  unfolding parse_xor get_stream put_stream exclusive
  parse_xor-exclusive {r1 = none} e f = rw (e, parse_xor) (rw f refl)
  parse_xor-exclusive {r1 = some x1} {r2 = none} e f = rw (e, parse_xor) (rw f refl)
  parse_xor-exclusive {r1 = some x1} {r2 = some x2} e f = rw (e, parse_xor) (rw f refl)
