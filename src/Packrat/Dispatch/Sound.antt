-- ===== src/Packrat/Dispatch/Sound.antt =====
-- The parse function of each vtable keeps a sound state sound.
use hammer.Prelude.{ℕ, ◌<◌, arith, Option, List}
use hammer.Syntax.{Parser}
use hammer.State.{M}
use hammer.State.Keeps.{Parses}
use hammer.Parsers.Primitive.Sound.{
  parse_nothing-Keeps, parse_epsilon-Keeps, parse_end-Keeps, parse_unimplemented-Keeps,
  parse_ch-Keeps, parse_charset-Keeps, parse_bits-Keeps, parse_token-Keeps,
}
use hammer.Parsers.Sequence.Sound.{
  parse_sequence-Keeps, parse_ignoreseq-Keeps, parse_choice-Keeps, parse_optional-Keeps,
  parse_ignore-Keeps, parse_and-Keeps, parse_not-Keeps, parse_indirect-Keeps,
  parse_endianness-Keeps,
}
use hammer.Parsers.Many.Sound.{parse_many-Keeps, parse_length_value-Keeps}
use hammer.Parsers.Permutation.Sound.{parse_permutation-Keeps}
use hammer.Parsers.Compare.Sound.{parse_butnot-Keeps, parse_difference-Keeps, parse_xor-Keeps}
use hammer.Parsers.Values.Sound.{
  parse_int_range-Keeps, parse_attr_bool-Keeps, parse_action-Keeps, parse_put-Keeps,
  parse_get-Keeps, parse_bind-Keeps,
}
use hammer.Packrat.Dispatch.{parse_vtable}

-- The objects all whose reads are defined: fields of 1 to 63 bits, and no h_whitespace.
unfoldable pub Fits : Parser → Type 0
Fits (Parser.bits length signed) = (0 < length) × (length < 64)
Fits (Parser.whitespace p) = 0 < 0
Fits _ = Unit

pub parse_vtable-Keeps :
    {input : List ℕ} {run : ℕ → M (Option ℕ)}
    → ((p : ℕ) → Parses input (run p))
    → (fuel : ℕ) (v : Parser) → Fits v
    → Parses input (parse_vtable run fuel v)
unfolding parse_vtable Fits
parse_vtable-Keeps h fuel Parser.nothing f = parse_nothing-Keeps
parse_vtable-Keeps h fuel Parser.epsilon f = parse_epsilon-Keeps
parse_vtable-Keeps h fuel Parser.end f = parse_end-Keeps
parse_vtable-Keeps h fuel Parser.unimplemented f = parse_unimplemented-Keeps
parse_vtable-Keeps h fuel (Parser.ch c) f = parse_ch-Keeps c
parse_vtable-Keeps h fuel (Parser.charset cs) f = parse_charset-Keeps cs
parse_vtable-Keeps h fuel (Parser.token str) f = parse_token-Keeps str
parse_vtable-Keeps h fuel (Parser.bits length signed) f = parse_bits-Keeps length signed f.0 f.1
parse_vtable-Keeps h fuel (Parser.int_range p lower upper) f = parse_int_range-Keeps h p lower upper
parse_vtable-Keeps h fuel (Parser.whitespace p) f = absurd (omega (arith, f))
parse_vtable-Keeps h fuel (Parser.ignore p) f = parse_ignore-Keeps h p
parse_vtable-Keeps h fuel (Parser.optional p) f = parse_optional-Keeps h p
parse_vtable-Keeps h fuel (Parser.and p) f = parse_and-Keeps h p
parse_vtable-Keeps h fuel (Parser.not p) f = parse_not-Keeps h p
parse_vtable-Keeps h fuel (Parser.sequence ps) f = parse_sequence-Keeps h ps
parse_vtable-Keeps h fuel (Parser.choice ps) f = parse_choice-Keeps h ps
parse_vtable-Keeps h fuel (Parser.permutation ps) f = parse_permutation-Keeps h ps
parse_vtable-Keeps h fuel (Parser.many env) f = parse_many-Keeps h fuel env
parse_vtable-Keeps h fuel (Parser.length_value p q) f = parse_length_value-Keeps h fuel p q
parse_vtable-Keeps h fuel (Parser.butnot p q) f = parse_butnot-Keeps h p q
parse_vtable-Keeps h fuel (Parser.difference p q) f = parse_difference-Keeps h p q
parse_vtable-Keeps h fuel (Parser.xor p q) f = parse_xor-Keeps h p q
parse_vtable-Keeps h fuel (Parser.ignoreseq ps which) f = parse_ignoreseq-Keeps h ps which
parse_vtable-Keeps h fuel (Parser.attr_bool p pred) f = parse_attr_bool-Keeps h p pred
parse_vtable-Keeps h fuel (Parser.action p a) f = parse_action-Keeps h p a
parse_vtable-Keeps h fuel (Parser.put_value p key) f = parse_put-Keeps h p key
parse_vtable-Keeps h fuel (Parser.get_value p key) f = parse_get-Keeps p key
parse_vtable-Keeps h fuel (Parser.bind p k) f = parse_bind-Keeps h p k
parse_vtable-Keeps h fuel (Parser.indirect p) f = parse_indirect-Keeps h p
parse_vtable-Keeps h fuel (Parser.endianness e p) f = parse_endianness-Keeps h e p
