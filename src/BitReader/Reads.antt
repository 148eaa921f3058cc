-- ===== src/BitReader/Reads.antt =====
-- `h_read_bits` told by the bits that are pending: the stream after a read, and the number read.
use hammer.Prelude.{
  ℕ, ◌≤◌, ◌<◌, ◌≡◌, ap, ◌∙◌, Bool, true, false, ◌||◌, Option, none, some, length, drop, ltb, arith,
  ◌-◌, refl, if◌then◌else◌,
}
use hammer.BitReader.{InputStream, Read, h_read_bits}
use hammer.BitReader.Pending.{pending, value_big, value_little, IsValid}
use hammer.BitReader.Finish.{extend}
use hammer.BitReader.Laws.{padded, shifts_defined, shifts_big, shifts_little, h_read_bits-IsReadOf}

-- A stream from which `count` bits have been taken: as many of them as there are.
pub record IsAfter (count : ℕ) (s after : InputStream) : Type 0 where
  pub valid : IsValid after
  pub rest : pending after ≡ drop count (pending s)
  pub input : after.input ≡ s.input
  pub endianness : after.endianness ≡ s.endianness
  pub overrun : after.overrun ≡ (s.overrun || ltb (length (pending s)) count)

-- The stream of a read, and its number.
abbrev pub stream_of : Read → Option InputStream
stream_of none = none
stream_of (some (v, i)) = some i

abbrev pub number_of : Read → Option ℕ
number_of none = none
number_of (some (v, i)) = some v

-- What a read comes to where its shifts are defined, and where they are not.
abbrev pub ReadsAfter : Bool → ℕ → InputStream → Read → Type 0
ReadsAfter true count s r =
    (after : InputStream) × (stream_of r ≡ some after) × IsAfter count s after
ReadsAfter false count s r = r ≡ none

number_if :
    (b : Bool) (n : ℕ) (after : InputStream)
    → number_of (if b then some (n, after) else none) ≡ (if b then some n else none)
number_if true n after = refl
number_if false n after = refl

-- With both orders big-endian, a read of 1 to 64 bits gives the next bits, zeros after the end of the
-- input, as a number with the first bit on top; a signed read extends its top bit to 64 bits. It is
-- undefined exactly where 64 bits or more are missing.
pub h_read_bits-big_endian :
    (s : InputStream) (count : ℕ) (signed : Bool)
    → IsValid s
    → 0 < count
    → count ≤ 64
    → s.endianness.byte_big ≡ true
    → s.endianness.bit_big ≡ true
    → number_of (h_read_bits s count signed) ≡ (
        if ltb (count - length (pending s)) 64
        then some (extend count signed (value_big 0 (padded s count)))
        else none)
h_read_bits-big_endian s count signed v pos h a b =
    let r = h_read_bits-IsReadOf s count signed v (omega arith) in
    ap number_of r.returns
    ∙ number_if (shifts_defined s count) r.value r.after
    ∙ rw (shifts_big s count pos h a, r.big pos h a b) refl

-- With both orders little-endian, a read of 1 to 64 bits gives the next bits, zeros after the end of
-- the input, as a number with the first bit at the bottom, sign-extended in the same way.
pub h_read_bits-little_endian :
    (s : InputStream) (count : ℕ) (signed : Bool)
    → IsValid s
    → 0 < count
    → count ≤ 64
    → s.endianness.byte_big ≡ false
    → s.endianness.bit_big ≡ false
    → number_of (h_read_bits s count signed)
      ≡ some (extend count signed (value_little (padded s count)))
h_read_bits-little_endian s count signed v pos h a b =
    let r = h_read_bits-IsReadOf s count signed v (omega arith) in
    ap number_of r.returns
    ∙ number_if (shifts_defined s count) r.value r.after
    ∙ rw (shifts_little s count pos h a, r.little pos h a b) refl
