-- ===== src/Parsers/Sequence.antt =====
-- sequence.c, ignoreseq.c, choice.c, optional.c, ignore.c, and.c, not.c, indirect.c, endianness.c.
pub mod Sound
pub mod Laws
pub mod Choice
pub mod Lookahead
pub mod Endian
use hammer.Prelude.{
  ℕ, zero, suc, ◌+◌, Bool, true, false, ◌||◌, Option, none, some, List, [], ◌∷◌, xor, leb, ◌==◌,
  if◌then◌else◌,
}
use hammer.BitReader.{Endianness, InputStream}
use hammer.Syntax.{Token, Tokens, nil, snoc, sequence, absent}
use hammer.State.{
  M, ◌>>=◌, ◌>>◌, pure, stuck, get_stream, put_stream, make_result, load_result, done, fault,
  out_of_fuel,
}

-- if (ast) h_carray_append(seq, ast)
pub append_ast : Tokens → Option Token → Tokens
append_ast seq none = seq
append_ast seq (some t) = snoc seq t

module _ (run : ℕ → M (Option ℕ)) where
  -- The loop of parse_sequence; `none` when a parser fails.
  pub sequence_loop : List ℕ → Tokens → M (Option Tokens)
  sequence_loop [] seq = pure (some seq)
  sequence_loop (p ∷ ps) seq = do
    tmp ← run p
    elim tmp [
      | none ↦ pure none
      | some r ↦ load_result r >>= λ x. sequence_loop ps (append_ast seq x.ast)
    ]

  pub parse_sequence : List ℕ → M (Option ℕ)
  parse_sequence ps = do
    found ← sequence_loop ps nil
    elim found [
      | none ↦ pure none
      | some seq ↦ make_result (some (sequence seq)) >>= λ r. pure (some r)
    ]

  -- The loop of parse_ignoreseq at index `i`, with the result kept so far.
  pub ignoreseq_loop : ℕ → ℕ → List ℕ → Option ℕ → M (Option ℕ)
  ignoreseq_loop which i [] res = pure res
  ignoreseq_loop which i (p ∷ ps) res = do
    tmp ← run p
    elim tmp [
      | none ↦ pure none
      | some r ↦ ignoreseq_loop which (i + 1) ps (if i == which then some r else res)
    ]

  pub parse_ignoreseq : List ℕ → ℕ → M (Option ℕ)
  parse_ignoreseq ps which = ignoreseq_loop which 0 ps none

  -- The loop of parse_choice after its first round: each parser starts at `backup`.
  pub choice_loop : InputStream → List ℕ → M (Option ℕ)
  choice_loop backup [] = pure none
  choice_loop backup (p ∷ ps) = do
    put_stream backup
    tmp ← run p
    elim tmp [ none ↦ choice_loop backup ps | some r ↦ pure (some r) ]

  pub parse_choice : List ℕ → M (Option ℕ)
  parse_choice [] = pure none
  parse_choice (p ∷ ps) = do
    backup ← get_stream
    tmp ← run p
    elim tmp [ none ↦ choice_loop backup ps | some r ↦ pure (some r) ]

  pub parse_optional : ℕ → M (Option ℕ)
  parse_optional p = do
    bak ← get_stream
    res0 ← run p
    elim res0 [
      | some r ↦ pure (some r)
      | none ↦ put_stream bak >> (make_result (some absent) >>= λ r. pure (some r))
    ]

  pub parse_ignore : ℕ → M (Option ℕ)
  parse_ignore p = do
    res0 ← run p
    elim res0 [ none ↦ pure none | some r0 ↦ make_result none >>= λ r. pure (some r) ]

  pub parse_and : ℕ → M (Option ℕ)
  parse_and p = do
    bak ← get_stream
    res ← run p
    put_stream bak
    elim res [ none ↦ pure none | some r0 ↦ make_result none >>= λ r. pure (some r) ]

  pub parse_not : ℕ → M (Option ℕ)
  parse_not p = do
    bak ← get_stream
    res ← run p
    elim res [
      | some r ↦ pure none
      | none ↦ put_stream bak >> (make_result none >>= λ r. pure (some r))
    ]

  -- An indirect parser that was never bound is a NULL pointer.
  pub parse_indirect : Option ℕ → M (Option ℕ)
  parse_indirect none = stuck
  parse_indirect (some p) = run p

-- switch_bit_order, with its assertion.
pub switch_bit_order : M (Unit {0})
switch_bit_order = do
  i ← get_stream
  (if leb i.bit_offset 8
      then put_stream (record i { bit_offset = i.margin; margin = i.bit_offset })
      else stuck)

-- input_stream.endianness ^= diff
pub flip_endianness : Endianness → M (Unit {0})
flip_endianness diff = do
  i ← get_stream
  put_stream (record i {
    endianness = record {
      byte_big = xor i.endianness.byte_big diff.byte_big;
      bit_big = xor i.endianness.bit_big diff.bit_big;
    };
  })

pub when : Bool → M (Unit {0}) → M (Unit {0})
when true m = m
when false m = pure tt

pub parse_endianness : (ℕ → M (Option ℕ)) → Endianness → ℕ → M (Option ℕ)
parse_endianness run e p = do
  i ← get_stream
  let diff : Endianness = record {
    byte_big = xor i.endianness.byte_big e.byte_big;
    bit_big = xor i.endianness.bit_big e.bit_big;
  }
  (if diff.byte_big || diff.bit_big
      then (do
        when diff.bit_big switch_bit_order
        flip_endianness diff
        res ← run p
        flip_endianness diff
        when diff.bit_big switch_bit_order
        pure res)
      else run p)
