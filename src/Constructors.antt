-- ===== src/Constructors.antt =====
-- The functions of src/parsers/ that make parser objects. Each gives the object that it allocates,
-- its vtable and env; the variants with and without an allocator make the same object. The objects
-- that were made are a list, and a parser is its position there.
pub mod Skipping
mod Tests
use hammer.Prelude.{
  ℕ, zero, suc, ◌%◌, ◌-◌, Bool, true, false, Option, none, some, List, [], ◌∷◌, ◌++◌, length,
  get_elem?, set, take, if◌then◌else◌,
}
use hammer.BitReader.{Endianness}
use hammer.Charset.{Charset, ch_range, in_or_not}
use hammer.Syntax.{Token, ParseResult, Parser, Heap}

-- h_new_parser: the address of the new object, and the objects with it.
pub h_new_parser : Parser → List Parser → ℕ × List Parser
h_new_parser v ps = (length ps, ps ++ v ∷ [])

pub heap_of : List Parser → Heap
heap_of ps p = get_elem? ps p

-- The length goes into a uint8_t field.
pub h_token : List ℕ → Parser
h_token str = Parser.token (take (length str % 256) str)

pub h_bits : ℕ → Bool → Parser
h_bits len sign = Parser.bits (len % 256) sign

pub h_ch : ℕ → Parser
h_ch c = Parser.ch c

pub h_ch_range : ℕ → ℕ → Parser
h_ch_range lower upper = Parser.charset (ch_range lower upper)

pub h_in : List ℕ → Parser
h_in options = Parser.charset (in_or_not options true)

pub h_not_in : List ℕ → Parser
h_not_in options = Parser.charset (in_or_not options false)

pub h_int_range : ℕ → ℕ → ℕ → Parser
h_int_range p lower upper = Parser.int_range p lower upper

pub h_whitespace : ℕ → Parser
h_whitespace p = Parser.whitespace p

pub h_ignore : ℕ → Parser
h_ignore p = Parser.ignore p

pub h_optional : ℕ → Parser
h_optional p = Parser.optional p

pub h_and : ℕ → Parser
h_and p = Parser.and p

pub h_not : ℕ → Parser
h_not p = Parser.not p

pub h_end_p : Parser
h_end_p = Parser.end

pub h_nothing_p : Parser
h_nothing_p = Parser.nothing

pub h_epsilon_p : Parser
h_epsilon_p = Parser.epsilon

pub h_unimplemented : Parser
h_unimplemented = Parser.unimplemented

-- The arguments up to the first NULL.
pub until_null : List (Option ℕ) → List ℕ
until_null [] = []
until_null (none ∷ args) = []
until_null (some p ∷ args) = p ∷ until_null args

-- h_sequence__mv and its like: the first argument is taken without a look at it.
pub h_sequence : ℕ → List (Option ℕ) → Parser
h_sequence p ap = Parser.sequence (p ∷ until_null ap)

pub h_choice : ℕ → List (Option ℕ) → Parser
h_choice p ap = Parser.choice (p ∷ until_null ap)

pub h_permutation : ℕ → List (Option ℕ) → Parser
h_permutation p ap = Parser.permutation (p ∷ until_null ap)

-- h_sequence__ma and its like, from an array that ends with NULL.
pub h_sequence__a : List (Option ℕ) → Parser
h_sequence__a args = Parser.sequence (until_null args)

pub h_choice__a : List (Option ℕ) → Parser
h_choice__a args = Parser.choice (until_null args)

pub h_permutation__a : List (Option ℕ) → Parser
h_permutation__a args = Parser.permutation (until_null args)

pub h_left : ℕ → ℕ → Parser
h_left p q = Parser.ignoreseq (p ∷ q ∷ []) 0

pub h_right : ℕ → ℕ → Parser
h_right p q = Parser.ignoreseq (p ∷ q ∷ []) 1

pub h_middle : ℕ → ℕ → ℕ → Parser
h_middle p x q = Parser.ignoreseq (p ∷ x ∷ q ∷ []) 1

pub h_many : ℕ → Parser
h_many p = Parser.many (record { p = p; sep = none; count = 0; min_p = true })

pub h_many1 : ℕ → Parser
h_many1 p = Parser.many (record { p = p; sep = none; count = 1; min_p = true })

pub h_repeat_n : ℕ → ℕ → Parser
h_repeat_n p n = Parser.many (record { p = p; sep = none; count = n; min_p = false })

pub h_sep_by : ℕ → Option ℕ → Parser
h_sep_by p sep = Parser.many (record { p = p; sep = sep; count = 0; min_p = true })

pub h_sep_by1 : ℕ → Option ℕ → Parser
h_sep_by1 p sep = Parser.many (record { p = p; sep = sep; count = 1; min_p = true })

pub h_length_value : ℕ → ℕ → Parser
h_length_value length value = Parser.length_value length value

pub h_butnot : ℕ → ℕ → Parser
h_butnot p1 p2 = Parser.butnot p1 p2

pub h_difference : ℕ → ℕ → Parser
h_difference p1 p2 = Parser.difference p1 p2

pub h_xor : ℕ → ℕ → Parser
h_xor p1 p2 = Parser.xor p1 p2

pub h_attr_bool : ℕ → (ParseResult → Bool) → Parser
h_attr_bool p pred = Parser.attr_bool p pred

pub h_action : Option ℕ → Option (ParseResult → Option Token) → Parser
h_action p a = Parser.action p a

pub h_put_value : Option ℕ → Option ℕ → Parser
h_put_value p name = Parser.put_value p name

pub h_get_value : Option ℕ → Parser
h_get_value name = Parser.get_value none name

pub h_bind : ℕ → (Option Token → Option ℕ) → Parser
h_bind p k = Parser.bind p k

pub h_with_endianness : Endianness → ℕ → Parser
h_with_endianness endianness p = Parser.endianness endianness p

pub h_indirect : Parser
h_indirect = Parser.indirect none

-- indirect->vtable == &indirect_vt
pub is_indirect : Parser → Bool
is_indirect (Parser.indirect p) = true
is_indirect _ = false

bind_object : ℕ → ℕ → List Parser → Option Parser → Option (List Parser)
bind_object p inner ps none = none
bind_object p inner ps (some v) =
    if is_indirect v then some (set ps p (Parser.indirect (some inner))) else none

-- h_bind_indirect; `none` is the failed assertion.
pub h_bind_indirect : ℕ → ℕ → List Parser → Option (List Parser)
h_bind_indirect p inner ps = bind_object p inner ps (get_elem? ps p)
