-- ===== src/Parsers/Compare.antt =====
-- butnot.c, difference.c and xor.c: two parsers at one place.
pub mod Sound
pub mod Laws
use hammer.Prelude.{ℕ, Bool, true, false, Option, none, some, leb, ltb, if◌then◌else◌}
use hammer.State.{
  M, ◌>>=◌, ◌>>◌, pure, get_stream, put_stream, load_result, done, fault, out_of_fuel,
}

module _ (run : ℕ → M (Option ℕ)) where
  -- Both parsers from one place, and the stream after the first: `loses` tells from the lengths of
  -- both texts whether the first fails. token_length is the result's bit_length.
  pub parse_unless : (ℕ → ℕ → Bool) → ℕ → ℕ → M (Option ℕ)
  parse_unless loses p1 p2 = do
    start_state ← get_stream
    res1 ← run p1
    elim res1 [
      | none ↦ pure none
      | some r1 ↦ get_stream >>= λ after_p1_state.
          put_stream start_state
          >> (run p2 >>= λ res2. put_stream after_p1_state >> elim res2 [
            | none ↦ pure (some r1)
            | some r2 ↦ load_result r1 >>= λ x1. load_result r2 >>= λ x2.
                (if loses x1.bit_length x2.bit_length then pure none else pure (some r1))
          ])
    ]

  pub parse_butnot : ℕ → ℕ → M (Option ℕ)
  parse_butnot p1 p2 = parse_unless leb p1 p2

  pub parse_difference : ℕ → ℕ → M (Option ℕ)
  parse_difference p1 p2 = parse_unless ltb p1 p2

  pub parse_xor : ℕ → ℕ → M (Option ℕ)
  parse_xor p1 p2 = do
    start_state ← get_stream
    r1 ← run p1
    after_p1_state ← get_stream
    put_stream start_state
    r2 ← run p2
    elim r1 [
      | none ↦ pure r2
      | some x1 ↦ elim r2 [
        | none ↦ put_stream after_p1_state >> pure (some x1)
        | some x2 ↦ pure none
      ]
    ]
