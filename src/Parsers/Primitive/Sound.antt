-- ===== src/Parsers/Primitive/Sound.antt =====
-- The parsers that read the input themselves keep a sound state sound, but for h_whitespace, which
-- calls isspace with a negative number where a byte is 128 or more.
use hammer.Prelude.{ℕ, ◌%◌, ◌<◌, arith, Bool, false, none, some, List, [], ◌∷◌, if◌then◌else◌}
use hammer.Charset.{Charset}
use hammer.Syntax.{uint, sint, bytes}
use hammer.State.{read_bits}
use hammer.State.Keeps.{
  Keeps, Any, Parses, Keeps-bind, Keeps-pure, Keeps-if, get_stream-Keeps, read_bits-Keeps,
  returned-Keeps,
}
use hammer.Parsers.Primitive.{
  parse_nothing, parse_epsilon, parse_end, parse_unimplemented, parse_ch, parse_charset, parse_bits,
  match_token, parse_token,
}

module _ {input : List ℕ} where
  pub parse_nothing-Keeps : Parses input parse_nothing
  unfolding parse_nothing
  parse_nothing-Keeps = Keeps-pure tt

  pub parse_epsilon-Keeps : Parses input parse_epsilon
  unfolding parse_epsilon
  parse_epsilon-Keeps = returned-Keeps none

  pub parse_end-Keeps : Parses input parse_end
  unfolding parse_end
  parse_end-Keeps =
      Keeps-bind get_stream-Keeps (λ i _. Keeps-if _ (returned-Keeps none) (Keeps-pure tt))

  pub parse_unimplemented-Keeps : Parses input parse_unimplemented
  unfolding parse_unimplemented
  parse_unimplemented-Keeps = Keeps-pure tt

  -- Every character that is read is read as an unsigned byte.
  byte-Keeps : Keeps input Any (read_bits 8 false)
  byte-Keeps = read_bits-Keeps 8 false (omega arith) (omega arith)

  pub parse_ch-Keeps : (c : ℕ) → Parses input (parse_ch c)
  unfolding parse_ch
  parse_ch-Keeps c =
      Keeps-bind byte-Keeps
        (λ v _. Keeps-if _ (returned-Keeps (some (uint (v % 256)))) (Keeps-pure tt))

  pub parse_charset-Keeps : (cs : Charset) → Parses input (parse_charset cs)
  unfolding parse_charset
  parse_charset-Keeps cs =
      Keeps-bind byte-Keeps
        (λ v _. Keeps-if _ (returned-Keeps (some (uint (v % 256)))) (Keeps-pure tt))

  pub parse_bits-Keeps :
      (length : ℕ) (signed : Bool)
      → 0 < length
      → length < 64
      → Parses input (parse_bits length signed)
  unfolding parse_bits
  parse_bits-Keeps length signed pos h =
      Keeps-bind (read_bits-Keeps length signed pos h)
        (λ v _. returned-Keeps (some (if signed then sint v else uint v)))

  match_token-Keeps : (str : List ℕ) → Keeps input Any (match_token str)
  unfolding match_token
  match_token-Keeps [] = Keeps-pure tt
  match_token-Keeps (c ∷ str) =
      Keeps-bind byte-Keeps (λ v _. Keeps-if _ (match_token-Keeps str) (Keeps-pure tt))

  pub parse_token-Keeps : (str : List ℕ) → Parses input (parse_token str)
  unfolding parse_token
  parse_token-Keeps str =
      Keeps-bind (match_token-Keeps str)
        (λ m _. Keeps-if m (returned-Keeps (some (bytes str))) (Keeps-pure tt))
