-- ===== src/State.antt =====
-- The state of a parse, HParseState of src/internal.h, and the monad that the parse functions run in.
--
-- Objects that are shared and changed in place are kept in stores, and a pointer to one is its
-- position there: results, cache values, left recursions, recursion heads. The hash tables are
-- association lists, the newest entry first.
pub mod Keeps
use hammer.Prelude.{
  ℕ, zero, suc, ◌+◌, ◌-◌, Bool, true, false, ◌&&◌, Option, none, some, List, [], ◌∷◌, ◌++◌, length,
  get_elem?, set, ◌==◌, if◌then◌else◌, ◌≡◌, ap,
}
use hammer.BitReader.{Endianness, InputStream, h_read_bits}
use hammer.Syntax.{Token, ParseResult}

-- HLeftRec
pub record LeftRec : Type 0 where
  pub seed : Option ℕ
  pub rule : ℕ
  pub head : Option ℕ

-- HRecursionHead; `eval_set` is NULL until the recursion grows.
pub record RecursionHead : Type 0 where
  pub head_parser : ℕ
  pub involved_set : List ℕ
  pub eval_set : Option (List ℕ)

-- The union of HParserCacheValue with its tag.
pub data CacheUnion : Type 0 where
  left : ℕ → CacheUnion
  right : Option ℕ → CacheUnion

-- HParserCacheValue
pub record CacheValue : Type 0 where
  pub value : CacheUnion
  pub input_stream : InputStream

-- HParserCacheKey
pub record CacheKey : Type 0 where
  pub input_pos : InputStream
  pub parser : ℕ

-- HParseState and the objects that it points to. `results` starts with the static result of
-- unimplemented.c; `values`, `left_recs` and `heads` hold what was allocated.
pub record ParseState : Type 0 where
  pub input_stream : InputStream
  pub results : List ParseResult
  pub values : List CacheValue
  pub left_recs : List LeftRec
  pub heads : List RecursionHead
  pub cache : List (CacheKey × ℕ)
  pub lr_stack : List ℕ
  pub recursion_heads : List (InputStream × ℕ)
  pub symbol_table : List (ℕ × ℕ)

-- `fault` is a read that `h_read_bits` leaves undefined, such as a byte outside the input or a shift
-- by 64, or a call of isspace with a negative number. `halted` is a failed assertion, an exit by h_platform_errx, or the use of a NULL or dangling pointer.
-- `out_of_fuel` stands for a run that the model's fuel does not reach the end of.
pub data Outcome {ℓ} (A : Type ℓ) : Type ℓ where
  done : A → ParseState → Outcome A
  fault : Outcome A
  halted : Outcome A
  out_of_fuel : Outcome A

abbrev pub M {ℓ} : Type ℓ → Type ℓ
M A = ParseState → Outcome A

-- What follows an outcome: a run goes on only where it is done.
abbrev pub continue_with {ℓ κ} : {A : Type ℓ} {B : Type κ} → Outcome A → (A → M B) → Outcome B
continue_with (done a s) f = f a s
continue_with fault f = fault
continue_with halted f = halted
continue_with out_of_fuel f = out_of_fuel

infixl 5 ◌>>=◌ ◌>>◌
abbrev pub ◌>>=◌ {ℓ κ} : {A : Type ℓ} {B : Type κ} → M A → (A → M B) → M B
m >>= f = λ s. continue_with (m s) f

abbrev pub ◌>>◌ {ℓ κ} : {A : Type ℓ} {B : Type κ} → M A → M B → M B
m >> k = m >>= λ _. k

abbrev pub pure {ℓ} : {A : Type ℓ} → A → M A
pure a s = done a s

abbrev pub stuck {ℓ} : {A : Type ℓ} → M A
stuck s = halted

-- state->input_stream as a value, and an assignment to it.
unfoldable pub get_stream : M InputStream
get_stream s = done s.input_stream s

unfoldable pub put_stream : InputStream → M (Unit {0})
put_stream i s = done tt (record s { input_stream = i })

-- h_read_bits(&state->input_stream, count, signed_p)
unfoldable pub read_bits : ℕ → Bool → M ℕ
read_bits count signed s = elim (h_read_bits s.input_stream count signed) [
  | none ↦ fault
  | some (v, i) ↦ done v (record s { input_stream = i })
]

-- A new HParseResult with this ast and bit_length 0: make_result of parser_internal.h.
unfoldable pub make_result : Option Token → M ℕ
make_result ast s =
    done (length s.results)
      (record s { results = s.results ++ record { ast = ast; bit_length = 0 } ∷ [] })

-- A load through a pointer whose object is `o`.
abbrev pub load_outcome {ℓ} : {A : Type ℓ} → ParseState → Option A → Outcome A
load_outcome s none = halted
load_outcome s (some x) = done x s

unfoldable pub load_result : ℕ → M ParseResult
load_result r s = load_outcome s (get_elem? s.results r)

pub load_result-eq :
    (s : ParseState) (r : ℕ) {x : ParseResult}
    → get_elem? s.results r ≡ some x
    → load_result r s ≡ done x s
unfolding load_result
load_result-eq s r e = ap (λ (o : Option ParseResult). load_outcome s o) e

unfoldable pub store_result : ℕ → ParseResult → M (Unit {0})
store_result r x s = done tt (record s { results = set s.results r x })

-- The equalities of the two hash tables, memcmp of streams and of keys. All streams of a parse
-- point to one chunk, so `input` and `length` are equal throughout.
abbrev pub bool_eq : Bool → Bool → Bool
bool_eq true b = b
bool_eq false true = false
bool_eq false false = true

unfoldable pub pos_equal : InputStream → InputStream → Bool
pos_equal a b =
    a.pos == b.pos
    && a.index == b.index
    && a.bit_offset == b.bit_offset
    && a.margin == b.margin
    && bool_eq a.endianness.byte_big b.endianness.byte_big
    && bool_eq a.endianness.bit_big b.endianness.bit_big
    && bool_eq a.overrun b.overrun
    && bool_eq a.last_chunk b.last_chunk

unfoldable pub cache_key_equal : CacheKey → CacheKey → Bool
cache_key_equal a b = pos_equal a.input_pos b.input_pos && a.parser == b.parser

-- h_hashtable_get over an association list.
unfoldable pub table_get {ℓ κ} :
    {K : Type ℓ} {V : Type κ} → (K → K → Bool) → K → List (K × V) → Option V
table_get eq k [] = none
table_get eq k ((j, v) ∷ t) = if eq k j then some v else table_get eq k t

-- h_hashtable_del
unfoldable pub table_del {ℓ κ} :
    {K : Type ℓ} {V : Type κ} → (K → K → Bool) → K → List (K × V) → List (K × V)
table_del eq k [] = []
table_del eq k ((j, v) ∷ t) = if eq k j then table_del eq k t else (j, v) ∷ table_del eq k t

-- The state with its stream set back, and with one more result.
abbrev pub at : ParseState → InputStream → ParseState
at s i = record s { input_stream = i }

abbrev pub with_result : ParseState → Option Token → ParseState
with_result s ast = record s { results = s.results ++ record { ast = ast; bit_length = 0 } ∷ [] }
