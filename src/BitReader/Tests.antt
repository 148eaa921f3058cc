-- ===== src/BitReader/Tests.antt =====
-- `h_read_bits` on concrete streams, and its laws applied there.
use hammer.Prelude.{
  ◌-◌, length, ltb, none, if◌then◌else◌, ℕ, ◌≡◌, refl, true, false, [], ◌∷◌, arith, some,
}
use hammer.BitReader.{
  Endianness, InputStream, h_read_bits, fast_big, fast_little, cut_segment, slow, read_loop,
  sign_extended, finish, bytes_left,
}
use hammer.BitReader.Pending.{pending, value_big, value_little, IsValid}
use hammer.BitReader.Laws.{padded}
use hammer.BitReader.Finish.{extend}
use hammer.BitReader.Reads.{number_of, h_read_bits-big_endian, h_read_bits-little_endian}

abbrev big_endian : Endianness
big_endian = record { byte_big = true; bit_big = true }

abbrev little_endian : Endianness
little_endian = record { byte_big = false; bit_big = false }

abbrev chunk : Endianness → ℕ → ℕ → InputStream
chunk order index offset = record {
  input = 0x6a ∷ 0x5a ∷ 0xf3 ∷ [];
  pos = 0;
  index = index;
  length = 3;
  bit_offset = offset;
  margin = 0;
  endianness = order;
  overrun = false;
  last_chunk = true;
}

-- 0b01 then 0b10_1010_0101 of the bytes 0110_1010 0101_1010.
read_in_order : h_read_bits (chunk big_endian 0 2) 10 false ≡ some (0x2a5, chunk big_endian 1 4)
unfolding h_read_bits fast_big fast_little cut_segment slow read_loop sign_extended finish
    bytes_left
read_in_order = refl

read_signed : h_read_bits (chunk little_endian 0 0) 3 true ≡ some (2, chunk little_endian 0 3)
unfolding h_read_bits fast_big fast_little cut_segment slow read_loop sign_extended finish
    bytes_left
read_signed = refl

read_words : h_read_bits (chunk little_endian 0 0) 16 false ≡ some (0x5a6a, chunk little_endian 2 0)
unfolding h_read_bits fast_big fast_little cut_segment slow read_loop sign_extended finish
    bytes_left
read_words = refl

-- A read of 64 bits at the end shifts by 64; one of no bits shifts by -1.
read_at_end : h_read_bits (chunk big_endian 3 0) 64 false ≡ none
unfolding h_read_bits fast_big fast_little cut_segment slow read_loop sign_extended finish
    bytes_left
read_at_end = refl

read_no_bits : h_read_bits (chunk big_endian 0 0) 0 false ≡ none
unfolding h_read_bits fast_big fast_little cut_segment slow read_loop sign_extended finish
    bytes_left
read_no_bits = refl

chunk-IsValid : IsValid (chunk big_endian 0 2)
chunk-IsValid = omega arith

chunk_little-IsValid : IsValid (chunk little_endian 0 0)
chunk_little-IsValid = omega arith

h_read_bits-big_endian_example : number_of (h_read_bits (chunk big_endian 0 2) 10 true) ≡ (
    if ltb (10 - length (pending (chunk big_endian 0 2))) 64
    then some (extend 10 true (value_big 0 (padded (chunk big_endian 0 2) 10)))
    else none)
h_read_bits-big_endian_example =
    h_read_bits-big_endian (chunk big_endian 0 2) 10 true chunk-IsValid (omega arith) (omega arith)
      refl refl

h_read_bits-little_endian_example :
    number_of (h_read_bits (chunk little_endian 0 0) 3 true)
    ≡ some (extend 3 true (value_little (padded (chunk little_endian 0 0) 3)))
h_read_bits-little_endian_example =
    h_read_bits-little_endian (chunk little_endian 0 0) 3 true chunk_little-IsValid (omega arith)
      (omega arith) refl refl
