-- ===== src/Parsers/Tests.antt =====
-- The theorems on the combinators applied to runs at concrete inputs.
use hammer.Prelude.{
  xor, Bool, ltb, ℕ, ◌+◌, ◌==◌, if◌then◌else◌, ◌≡◌, refl, arith, true, false, Option, none, some,
  [], ◌∷◌,
}
use hammer.BitReader.{InputStream}
use hammer.Syntax.{absent, uint, sequence}
use hammer.State.{ParseState, M, done, at, with_result}
use hammer.Parsers.Sequence.{
  parse_choice, parse_sequence, parse_ignoreseq, parse_and, parse_not, parse_optional,
}
use hammer.Parsers.Sequence.Choice.{Chooses, parse_choice-Chooses}
use hammer.Parsers.Sequence.Laws.{
  Runs, all_run, runs, Follows, all_follow, follows, tokens_of, parse_ignoreseq-Runs,
  parse_ignoreseq-fails, parse_sequence-Follows, parse_sequence-fails,
}
use hammer.Parsers.Sequence.Lookahead.{parse_and-eq, parse_not-eq, parse_optional-eq}
use hammer.BitReader.{Endianness}
use hammer.Parsers.Sequence.{parse_endianness}
use hammer.Parsers.Sequence.Endian.{turned, parse_endianness-turned}
use hammer.Syntax.{Repeat}
use hammer.Parsers.Many.{parse_many}
use hammer.Parsers.Many.Laws.{
  Rounds, no_round, round, at_first, separator, Stops, no_more_separators, parse_many-Rounds,
  parse_many-too_few, parse_many-all,
}
use hammer.State.{continue_with, table_get}
use hammer.Parsers.Values.{parse_put, parse_get}
use hammer.Parsers.Values.Laws.{with_symbol, parse_put-parse_get}
use hammer.Parsers.Compare.{parse_butnot, parse_difference, parse_xor}
use hammer.Parsers.Compare.Laws.{
  BothMatch, both_match, answer, exclusive, parse_butnot-parse_difference, parse_xor-exclusive,
}

abbrev stream : ℕ → InputStream
stream index = record {
  input = 1 ∷ 2 ∷ 3 ∷ 4 ∷ [];
  pos = 0;
  index = index;
  length = 4;
  bit_offset = 0;
  margin = 0;
  endianness = record { byte_big = true; bit_big = true };
  overrun = false;
  last_chunk = true;
}

abbrev state : ℕ → ParseState
state index = record {
  input_stream = stream index;
  results =
      record { ast = none; bit_length = 0 }
      ∷ record { ast = some (uint 1); bit_length = 8 }
      ∷ record { ast = some (uint 2); bit_length = 16 }
      ∷ [];
  values = [];
  left_recs = [];
  heads = [];
  cache = [];
  lr_stack = [];
  recursion_heads = [];
  symbol_table = [];
}

-- The parser `p` takes `p` bytes and returns the result `p`; the parser 9 fails after two bytes.
abbrev take_bytes : ℕ → M (Option ℕ)
take_bytes p s =
    if p == 9
    then done none (at s (stream 2))
    else done (some p) (at s (stream (s.input_stream.index + p)))

two_bytes : Runs take_bytes (1 ∷ 2 ∷ []) (state 0) (1 ∷ 2 ∷ []) (state 3)
two_bytes =
    runs {p = 1} {r = 1} {s = state 0} {s' = state 1} refl
      (runs {p = 2} {r = 2} {s = state 1} {s' = state 3} refl all_run)

three_bytes :
    Follows take_bytes
      (1 ∷ 0 ∷ 2 ∷ [])
      (state 0)
      (some (uint 1) ∷ none ∷ some (uint 2) ∷ [])
      (state 3)
three_bytes = follows {p = 1} {r = 1} {s = state 0} {s' = state 1} refl refl (
    follows {p = 0} {r = 0} {s = state 1} {s' = state 1} refl refl
      (follows {p = 2} {r = 2} {s = state 1} {s' = state 3} refl refl all_follow))

parse_choice-Chooses_example :
    Chooses take_bytes
      (stream 1)
      (9 ∷ 2 ∷ 1 ∷ [])
      (state 1)
      (parse_choice take_bytes (9 ∷ 2 ∷ 1 ∷ []) (state 1))
parse_choice-Chooses_example = parse_choice-Chooses {run = take_bytes} (9 ∷ 2 ∷ 1 ∷ []) (state 1)

parse_sequence-Follows_example :
    parse_sequence take_bytes (1 ∷ 0 ∷ 2 ∷ []) (state 0)
    ≡ done (some 3) (
        with_result
          (state 3)
          (some (sequence (tokens_of (some (uint 1) ∷ none ∷ some (uint 2) ∷ [])))))
parse_sequence-Follows_example = parse_sequence-Follows three_bytes

parse_sequence-fails_example :
    parse_sequence take_bytes (1 ∷ 0 ∷ 2 ∷ 9 ∷ 1 ∷ []) (state 0) ≡ done none (state 2)
parse_sequence-fails_example =
    parse_sequence-fails {p = 9} {s'' = state 2} (1 ∷ []) three_bytes refl

parse_ignoreseq-Runs_example :
    parse_ignoreseq take_bytes (1 ∷ 2 ∷ []) 1 (state 0) ≡ done (some 2) (state 3)
parse_ignoreseq-Runs_example = parse_ignoreseq-Runs 1 two_bytes

parse_ignoreseq-fails_example :
    parse_ignoreseq take_bytes (1 ∷ 2 ∷ 9 ∷ 1 ∷ []) 1 (state 0) ≡ done none (state 2)
parse_ignoreseq-fails_example =
    parse_ignoreseq-fails {p = 9} {s'' = state 2} (1 ∷ []) 1 two_bytes refl

parse_and-eq_example : parse_and take_bytes 2 (state 1) ≡ done (some 3) (with_result (state 1) none)
parse_and-eq_example =
    parse_and-eq take_bytes {p = 2} {s = state 1} {s' = state 3} {r = some 2} refl

parse_not-eq_example : parse_not take_bytes 9 (state 1) ≡ done (some 3) (with_result (state 1) none)
parse_not-eq_example = parse_not-eq take_bytes {p = 9} {s = state 1} {s' = state 2} {r = none} refl

parse_optional-eq_example :
    parse_optional take_bytes 9 (state 1) ≡ done (some 3) (with_result (state 1) (some absent))
parse_optional-eq_example =
    parse_optional-eq take_bytes {p = 9} {s = state 1} {s' = state 2} {r = none} refl

equal :
    BothMatch take_bytes 1 1 1
      (record { ast = some (uint 1); bit_length = 8 })
      (record { ast = some (uint 1); bit_length = 8 })
      (state 0)
      (state 1)
      (state 1)
equal = record { r2 = 1; first = refl; second = refl; first_result = refl; second_result = refl }

parse_butnot-parse_difference_example :
    (parse_butnot take_bytes 1 1 (state 0) ≡ done none (state 1))
    × (parse_difference take_bytes 1 1 (state 0) ≡ done (some 1) (state 1))
unfolding answer
parse_butnot-parse_difference_example = parse_butnot-parse_difference take_bytes (
    both_match (record { ast = some (uint 1); bit_length = 8 })
      (record { ast = some (uint 1); bit_length = 8 }) equal)

parse_xor-exclusive_example :
    parse_xor take_bytes 2 9 (state 0) ≡ exclusive (some 2) none (stream 2) (state 2)
parse_xor-exclusive_example =
    parse_xor-exclusive take_bytes {p1 = 2} {p2 = 9} {r1 = some 2} {r2 = none} {s = state 0}
      {s1 = state 2} {s2 = state 2} refl refl

-- Every parser takes one byte, until three are taken.
abbrev take_three : ℕ → M (Option ℕ)
take_three p s =
    if ltb s.input_stream.index 3
    then done (some 1) (at s (stream (s.input_stream.index + 1)))
    else done none (at s (stream 4))

abbrev repeated : ℕ → Bool → Repeat
repeated count min_p = record { p = 7; sep = some 8; count = count; min_p = min_p }

one-Rounds :
    (count : ℕ) (min_p : Bool)
    → Rounds take_three (repeated count min_p) 0 (state 0) (some (uint 1) ∷ []) 1 (state 1)
one-Rounds count min_p =
    round {r = 1} {s1 = state 0} {s2 = state 1} (at_first refl) refl refl no_round

two-Rounds :
    (count : ℕ) (min_p : Bool)
    → Rounds take_three
        (repeated count min_p)
        0
        (state 0)
        (some (uint 1) ∷ some (uint 1) ∷ [])
        2
        (state 3)
two-Rounds count min_p = round {r = 1} {s1 = state 0} {s2 = state 1} (at_first refl) refl refl (
    round {r = 1} {s1 = state 2} {s2 = state 3}
      (separator {sep = 8} {r = 1} refl (omega arith) refl) refl refl no_round)

no_more : (count : ℕ) → Stops take_three (repeated count true) 2 (state 3) (state 4)
no_more count = no_more_separators {sep = 8} refl (omega arith) refl

parse_many-Rounds_example :
    parse_many take_three 5 (repeated 1 true) (state 0)
    ≡ done
        (some 3)
        (with_result (state 3) (some (sequence (tokens_of (some (uint 1) ∷ some (uint 1) ∷ [])))))
parse_many-Rounds_example =
    parse_many-Rounds 5 refl (two-Rounds 1 true) (no_more 1) (omega arith) (omega arith)

parse_many-too_few_example :
    parse_many take_three 5 (repeated 3 true) (state 0) ≡ done none (state 3)
parse_many-too_few_example =
    parse_many-too_few 5 refl (two-Rounds 3 true) (no_more 3) (omega arith) (omega arith)

parse_many-all_example :
    parse_many take_three 5 (repeated 1 false) (state 0)
    ≡ done (some 3) (with_result (state 1) (some (sequence (tokens_of (some (uint 1) ∷ [])))))
parse_many-all_example = parse_many-all 5 refl (one-Rounds 1 false) (omega arith)

abbrev little : Endianness
little = record { byte_big = false; bit_big = false }

-- A parser that takes three bits of the current byte.
abbrev take_bits : ℕ → M (Option ℕ)
take_bits p s =
    done (some 1) (at s (record s.input_stream { bit_offset = s.input_stream.bit_offset + 3 }))

parse_endianness-turned_example :
    parse_endianness take_bits little 0 (state 1)
    ≡ done (some 1) (
        at (state 1) (
          turned (stream 1).endianness (record (stream 1) { bit_offset = 3; endianness = little })))
unfolding xor
parse_endianness-turned_example =
    parse_endianness-turned take_bits {p = 0} {r = some 1} little (state 1)
      (at (state 1) (record (stream 1) { bit_offset = 3; endianness = little })) (omega arith)
      (omega arith) refl refl

parse_put-parse_get_example :
    continue_with
      (parse_put take_bytes (some 2) (some 5) (state 0))
      (λ res. parse_get none (some 5))
    ≡ done (some 2) (with_symbol (state 2) 5 2)
unfolding table_get
parse_put-parse_get_example =
    parse_put-parse_get take_bytes {p = 2} {r = 2} {s = state 0} {s' = state 2} 5 refl refl refl
