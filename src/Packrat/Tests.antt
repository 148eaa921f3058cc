-- ===== src/Packrat/Tests.antt =====
-- A left-recursive grammar of src/t_parser.c, and the theorems on the packrat parser applied to it.
use hammer.Prelude.{
  ℕ, ◌≡◌, ◌≢◌, refl, subst, arith, true, false, none, some, List, [], ◌∷◌, ◌++◌, get_elem?, length,
}
use hammer.BitReader.{InputStream}
use hammer.Syntax.{Parser, Heap}
use hammer.State.{ParseState, done, fault, right, table_get, continue_with, ◌>>=◌, ◌>>◌, put_stream}
use hammer.BitReader.Pending.{IsValid}
use hammer.Syntax.{higher}
use hammer.State.Keeps.{All, All-get, Whenever}
use hammer.Packrat.{perform_lowlevel_parse, h_packrat_parse, h_do_parse, cached_result, cache_put}
use hammer.Packrat.Dispatch.Sound.{Fits}
use hammer.Packrat.Sound.{h_packrat_parse-never_faults}
use hammer.Packrat.Overrun.{IsWithin, perform_lowlevel_parse-IsWithin}
use hammer.Packrat.Memo.{cached_result-visit}

abbrev heap_of : List Parser → Heap
heap_of ps p = get_elem? ps p

abbrev start : List ℕ → InputStream
start input = record {
  input = input;
  pos = 0;
  index = 0;
  length = length input;
  bit_offset = 0;
  margin = 0;
  endianness = record { byte_big = true; bit_big = true };
  overrun = false;
  last_chunk = true;
}

-- test_leftrec: lr ::= lr 'a' | epsilon
abbrev grammar : List Parser
grammar =
    Parser.choice (1 ∷ 3 ∷ []) ∷ Parser.sequence (0 ∷ 2 ∷ []) ∷ Parser.ch 0x61 ∷ Parser.epsilon ∷ []

abbrev leftrec : Heap
leftrec = heap_of grammar

abbrev aaa : InputStream
aaa = start (0x61 ∷ 0x61 ∷ 0x61 ∷ [])

aaa-IsValid : IsValid aaa
aaa-IsValid = omega arith

get_elem-Fits :
    (ps : List Parser) → All Fits ps → (p : ℕ) (v : Parser) → get_elem? ps p ≡ some v → Fits v
get_elem-Fits ps h p v e = subst (Whenever Fits) e (All-get Fits ps p h)

leftrec-Fits : (p : ℕ) (v : Parser) → leftrec p ≡ some v → Fits v
unfolding Fits
leftrec-Fits p v e = get_elem-Fits grammar (tt, (tt, (tt, (tt, tt)))) p v e

h_packrat_parse-never_faults_example : h_packrat_parse leftrec 30 0 aaa ≢ fault
h_packrat_parse-never_faults_example =
    h_packrat_parse-never_faults leftrec-Fits 30 0 aaa aaa-IsValid

abbrev at_start : ParseState
at_start = record {
  input_stream = aaa;
  results = record { ast = none; bit_length = 8 } ∷ [];
  values = record { value = right (some 0); input_stream = record aaa { index = 1 } } ∷ [];
  left_recs = [];
  heads = [];
  cache = (record { input_pos = aaa; parser = 0 }, 0) ∷ [];
  lr_stack = [];
  recursion_heads = [];
  symbol_table = [];
}

cached_result-visit_example :
    continue_with
      ((cached_result none >>= λ c. cache_put (record { input_pos = aaa; parser = 1 }) c) at_start)
      (λ u. put_stream aaa >> h_do_parse leftrec 5 1)
    ≡ done none (record at_start {
      values = at_start.values ++ record { value = right none; input_stream = aaa } ∷ [];
      cache = (record { input_pos = aaa; parser = 1 }, 1) ∷ at_start.cache;
    })
unfolding higher table_get
cached_result-visit_example =
    cached_result-visit leftrec 4 (record { input_pos = aaa; parser = 1 }) none at_start refl refl
      refl

perform_lowlevel_parse-IsWithin_example :
    IsWithin (perform_lowlevel_parse leftrec (h_do_parse leftrec 9) 9 1 at_start)
perform_lowlevel_parse-IsWithin_example =
    perform_lowlevel_parse-IsWithin leftrec (h_do_parse leftrec 9) 9 1 at_start
