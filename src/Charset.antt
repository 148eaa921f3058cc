-- ===== src/Charset.antt =====
-- The character sets of src/internal.h: 256 bits in eight 32-bit words.
pub mod Laws
mod Tests
use hammer.Prelude.{
  ℕ, zero, suc, ◌+◌, ◌-◌, ◌/◌, ◌%◌, ◌^◌, bit_and, bit_or, Bool, true, false, not, ◌&&◌, Option,
  none, some, List, [], ◌∷◌, get_elem?, set, replicate, leb, ◌==◌, if◌then◌else◌,
}

abbrev pub Charset : Type 0
Charset = List ℕ

pub new_charset : Charset
new_charset = replicate 8 0

abbrev pub word_of : Option ℕ → ℕ
word_of none = 0
word_of (some w) = w

-- The word that holds a position; a `uint8_t` position is always inside.
abbrev pub word_at : Charset → ℕ → ℕ
word_at cs pos = word_of (get_elem? cs (pos / 32))

pub charset_isset : Charset → ℕ → Bool
charset_isset cs pos = not (bit_and (word_at cs pos) (2 ^ (pos % 32)) == 0)

pub charset_set : Charset → ℕ → Bool → Charset
charset_set cs pos val = set cs (pos / 32) (
    if val
    then bit_or (word_at cs pos) (2 ^ (pos % 32))
    else bit_and (word_at cs pos) (2 ^ 32 - 1 - 2 ^ (pos % 32)))

-- for (i = 0; i < n; i++) charset_set(cs, i, test(i))
pub fill : (ℕ → Bool) → ℕ → Charset → Charset
fill test zero cs = cs
fill test (suc n) cs = charset_set (fill test n cs) n (test n)

-- The set of h_ch_range.
pub ch_range : ℕ → ℕ → Charset
ch_range lower upper = fill (λ i. leb lower i && leb i upper) 256 new_charset

pub set_all : List ℕ → Bool → Charset → Charset
set_all [] val cs = cs
set_all (c ∷ options) val cs = set_all options val (charset_set cs c val)

-- The set of h_in_or_not__m.
pub in_or_not : List ℕ → Bool → Charset
in_or_not options val = set_all options val (fill (λ i. not val) 256 new_charset)
