-- ===== src/Packrat/Dispatch.antt =====
-- parser->vtable->parse(parser->env, state): the parse function of each vtable.
pub mod Sound
use hammer.Prelude.{ℕ, Option}
use hammer.Syntax.{Parser}
use hammer.State.{M}
use hammer.Parsers.Primitive.{
  parse_nothing, parse_epsilon, parse_end, parse_unimplemented, parse_ch, parse_charset, parse_bits,
  parse_token, parse_whitespace,
}
use hammer.Parsers.Sequence.{
  parse_sequence, parse_ignoreseq, parse_choice, parse_optional, parse_ignore, parse_and, parse_not,
  parse_indirect, parse_endianness,
}
use hammer.Parsers.Many.{parse_many, parse_length_value}
use hammer.Parsers.Permutation.{parse_permutation}
use hammer.Parsers.Compare.{parse_butnot, parse_difference, parse_xor}
use hammer.Parsers.Values.{
  parse_int_range, parse_attr_bool, parse_action, parse_put, parse_get, parse_bind,
}

unfoldable pub parse_vtable : (ℕ → M (Option ℕ)) → ℕ → Parser → M (Option ℕ)
parse_vtable run fuel Parser.nothing = parse_nothing
parse_vtable run fuel Parser.epsilon = parse_epsilon
parse_vtable run fuel Parser.end = parse_end
parse_vtable run fuel Parser.unimplemented = parse_unimplemented
parse_vtable run fuel (Parser.ch c) = parse_ch c
parse_vtable run fuel (Parser.charset cs) = parse_charset cs
parse_vtable run fuel (Parser.token str) = parse_token str
parse_vtable run fuel (Parser.bits length signed) = parse_bits length signed
parse_vtable run fuel (Parser.int_range p lower upper) = parse_int_range run p lower upper
parse_vtable run fuel (Parser.whitespace p) = parse_whitespace run p
parse_vtable run fuel (Parser.ignore p) = parse_ignore run p
parse_vtable run fuel (Parser.optional p) = parse_optional run p
parse_vtable run fuel (Parser.and p) = parse_and run p
parse_vtable run fuel (Parser.not p) = parse_not run p
parse_vtable run fuel (Parser.sequence ps) = parse_sequence run ps
parse_vtable run fuel (Parser.choice ps) = parse_choice run ps
parse_vtable run fuel (Parser.permutation ps) = parse_permutation run ps
parse_vtable run fuel (Parser.many env) = parse_many run fuel env
parse_vtable run fuel (Parser.length_value p q) = parse_length_value run fuel p q
parse_vtable run fuel (Parser.butnot p q) = parse_butnot run p q
parse_vtable run fuel (Parser.difference p q) = parse_difference run p q
parse_vtable run fuel (Parser.xor p q) = parse_xor run p q
parse_vtable run fuel (Parser.ignoreseq ps which) = parse_ignoreseq run ps which
parse_vtable run fuel (Parser.attr_bool p pred) = parse_attr_bool run p pred
parse_vtable run fuel (Parser.action p a) = parse_action run p a
parse_vtable run fuel (Parser.put_value p key) = parse_put run p key
parse_vtable run fuel (Parser.get_value p key) = parse_get p key
parse_vtable run fuel (Parser.bind p k) = parse_bind run p k
parse_vtable run fuel (Parser.indirect p) = parse_indirect run p
parse_vtable run fuel (Parser.endianness e p) = parse_endianness run e p
