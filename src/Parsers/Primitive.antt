-- ===== src/Parsers/Primitive.antt =====
-- The parsers that read the input themselves: nothing.c, epsilon.c, end.c, ch.c, charset.c, token.c,
-- bits.c, whitespace.c, and unimplemented.c.
pub mod Sound
use hammer.Prelude.{
  ℕ, zero, suc, ◌+◌, ◌-◌, ◌%◌, Bool, true, false, ◌&&◌, ◌||◌, Option, none, some, List, [], ◌∷◌,
  leb, ◌==◌, if◌then◌else◌,
}
use hammer.BitReader.{InputStream}
use hammer.Charset.{Charset, charset_isset}
use hammer.Syntax.{uint, sint, bytes}
use hammer.State.{
  M, ◌>>=◌, ◌>>◌, pure, get_stream, put_stream, read_bits, make_result, done, fault, out_of_fuel,
}

pub parse_nothing : M (Option ℕ)
parse_nothing = pure none

pub parse_epsilon : M (Option ℕ)
parse_epsilon = do r ← make_result none; pure (some r)

pub parse_end : M (Option ℕ)
parse_end = do
  i ← get_stream
  (if i.index == i.length then (make_result none >>= λ r. pure (some r)) else pure none)

-- The static result of unimplemented.c has the address 0.
pub parse_unimplemented : M (Option ℕ)
parse_unimplemented = pure (some 0)

pub parse_ch : ℕ → M (Option ℕ)
parse_ch c = do
  v ← read_bits 8 false
  (if c == v % 256 then (make_result (some (uint (v % 256))) >>= λ r. pure (some r)) else pure none)

pub parse_charset : Charset → M (Option ℕ)
parse_charset cs = do
  v ← read_bits 8 false
  (if charset_isset cs (v % 256)
      then (make_result (some (uint (v % 256))) >>= λ r. pure (some r))
      else pure none)

pub parse_bits : ℕ → Bool → M (Option ℕ)
parse_bits length signed = do
  v ← read_bits length signed
  r ← make_result (some (if signed then sint v else uint v))
  pure (some r)

-- The loop of parse_token: whether the characters that are left match.
pub match_token : List ℕ → M Bool
match_token [] = pure true
match_token (c ∷ str) = do
  v ← read_bits 8 false
  (if c == v % 256 then match_token str else pure false)

pub parse_token : List ℕ → M (Option ℕ)
parse_token str = do
  matched ← match_token str
  (if matched then (make_result (some (bytes str)) >>= λ r. pure (some r)) else pure none)

-- isspace in the C locale, where a `char` is signed: it is defined for the characters from 0 to 127
-- and for -1, which is EOF and no space, and for no other negative number.
pub isspace : ℕ → Option Bool
isspace c = if leb c 127 || c == 255 then some (c == 32 || leb 9 c && leb c 13) else none

abbrev pub undefined {ℓ} : {A : Type ℓ} → M A
undefined s = fault

-- The do-while loop of parse_whitespace, which leaves the stream before the first other character.
pub skip_whitespace : ℕ → M (Unit {0})
skip_whitespace zero = λ s. out_of_fuel
skip_whitespace (suc fuel) = do
  bak ← get_stream
  c ← read_bits 8 false
  after ← get_stream
  (if after.overrun then put_stream bak else elim (isspace (c % 256)) [
    | none ↦ undefined
    | some space ↦ (if space then skip_whitespace fuel else put_stream bak)
  ])

-- Each round but the last takes a byte, so one round more than there are bytes is enough.
pub parse_whitespace : (ℕ → M (Option ℕ)) → ℕ → M (Option ℕ)
parse_whitespace run p = do i ← get_stream; skip_whitespace (i.length - i.index + 1); run p
