-- ===== src/Constructors/Tests.antt =====
-- The parsers of h_left, h_right and h_middle run on a concrete state.
use hammer.Prelude.{ℕ, ◌≡◌, refl, true, false, Option, some, []}
use hammer.State.{ParseState, M, done}
use hammer.Packrat.Dispatch.{parse_vtable}
use hammer.Constructors.{h_left, h_right, h_middle}
use hammer.Constructors.Skipping.{h_middle-h_left-h_right}

abbrev state : ParseState
state = record {
  input_stream = record {
    input = [];
    pos = 0;
    index = 0;
    length = 0;
    bit_offset = 0;
    margin = 0;
    endianness = record { byte_big = true; bit_big = true };
    overrun = false;
    last_chunk = true;
  };
  results = [];
  values = [];
  left_recs = [];
  heads = [];
  cache = [];
  lr_stack = [];
  recursion_heads = [];
  symbol_table = [];
}

-- A parser that succeeds with its own address for a result.
abbrev itself : ℕ → M (Option ℕ)
itself p s = done (some p) s

h_middle-h_left-h_right_example :
    (parse_vtable itself 1 (h_left 4 5) state ≡ done (some 4) state)
    × (parse_vtable itself 1 (h_right 4 5) state ≡ done (some 5) state)
    × (parse_vtable itself 1 (h_middle 4 5 6) state ≡ done (some 5) state)
h_middle-h_left-h_right_example =
    h_middle-h_left-h_right itself 1 4 5 6 {r1 = 4} {r2 = 5} {r3 = 6} {s = state} {s1 = state}
      {s2 = state} {s3 = state} refl refl refl
