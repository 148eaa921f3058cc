-- ===== src/Syntax.antt =====
-- The data of src/hammer.h and src/internal.h that parsers work on: tokens, results, and parsers.
--
-- A parser is an address, and a `Heap` gives the object there: the vtable is the constructor, and
-- the env is its fields. So two parsers are one exactly when their addresses are, as in the cache's
-- keys, and a grammar may be cyclic. A pointer that the source compares with NULL is an `Option`.
use hammer.Prelude.{ℕ, Bool, true, false, Option, List}
use hammer.BitReader.{Endianness}
use hammer.Charset.{Charset}

-- HParsedToken: the token_type and the member of the union that goes with it. `index`, `bit_length`
-- and `bit_offset` are left out: arena memory is zero-filled, no parser of the packrat backend sets
-- them, and `perform_lowlevel_parse` writes a token's bit_length only where it is not 0.
-- `Tokens` is HCountedArray; `gap` is an element that is NULL.
mutual
  pub data Token : Type 0 where
    absent : Token
    bytes : List ℕ → Token
    sint : ℕ → Token
    uint : ℕ → Token
    sequence : Tokens → Token
    err : Token
    user : ℕ → ℕ → Token

  pub data Tokens : Type 0 where
    nil : Tokens
    elem : Token → Tokens → Tokens
    gap : Tokens → Tokens

-- h_carray_append
unfoldable pub snoc : Tokens → Token → Tokens
snoc nil t = elem t nil
snoc (elem x xs) t = elem x (snoc xs t)
snoc (gap xs) t = gap (snoc xs t)

-- HParseResult, without the arena that all results of a parse share.
pub record ParseResult : Type 0 where
  pub ast : Option Token
  pub bit_length : ℕ

-- HRepeat of many.c
pub record Repeat : Type 0 where
  pub p : ℕ
  pub sep : Option ℕ
  pub count : ℕ
  pub min_p : Bool

-- One constructor for each HParserVtable, with the env that its parse function reads. User code
-- (actions, predicates, continuations) enters as functions of what it is handed.
pub data Parser : Type 0 where
  nothing epsilon end unimplemented : Parser
  ch : ℕ → Parser
  charset : Charset → Parser
  token : List ℕ → Parser
  bits : ℕ → Bool → Parser
  int_range : ℕ → ℕ → ℕ → Parser
  whitespace ignore optional and not : ℕ → Parser
  sequence choice permutation : List ℕ → Parser
  many : Repeat → Parser
  length_value butnot difference xor : ℕ → ℕ → Parser
  ignoreseq : List ℕ → ℕ → Parser
  attr_bool : ℕ → (ParseResult → Bool) → Parser
  action : Option ℕ → Option (ParseResult → Option Token) → Parser
  put_value get_value : Option ℕ → Option ℕ → Parser
  bind : ℕ → (Option Token → Option ℕ) → Parser
  indirect : Option ℕ → Parser
  endianness : Endianness → ℕ → Parser

abbrev pub Heap : Type 0
Heap = ℕ → Option Parser

-- The field `higher` of each vtable; length_value leaves it out, which makes it false.
unfoldable pub higher : Parser → Bool
higher nothing = false
higher epsilon = false
higher end = false
higher (ch c) = false
higher (charset cs) = false
higher (token str) = false
higher (bits n s) = false
higher (int_range p lower upper) = false
higher (whitespace p) = false
higher (length_value p q) = false
higher _ = true
