-- ===== src/BitWriter/Tests.antt =====
-- The bit writer on concrete inputs, and its laws applied there.
use hammer.Prelude.{
  ℕ, ◌-◌, ◌≡◌, refl, true, false, Option, some, List, [], ◌∷◌, ◌++◌, arith, length,
  length-replicate, replicate,
}
use hammer.BitReader.{Endianness}
use hammer.BitWriter.{
  Writer, clear_from, reserve_loop, bytes_needed, after_growth, h_bit_writer_reserve, select_bits,
  push_bits, advance, put_loop, h_bit_writer_put, run_bitwriter_test,
}
use hammer.BitWriter.Reserve.{IsRealloc}
use hammer.BitWriter.Laws.{IsWriter, IsWritten, h_bit_writer_put-IsWritten}
use hammer.BitWriter.RoundTrip.{run_bitwriter_test_lem}

-- Blocks come with what was there before, here the byte 0xaa.
alloc : ℕ → Option (List ℕ)
alloc n = some (replicate n 0xaa)

realloc : List ℕ → ℕ → Option (List ℕ)
realloc buf n = some (buf ++ replicate (n - length buf) 0xaa)

realloc-IsRealloc : IsRealloc realloc
unfolding realloc
realloc-IsRealloc buf n h = (
  replicate (n - length buf) 0xaa,
  refl,
  omega (arith, length-replicate {A = ℕ} (n - length buf) 0xaa),
)

abbrev big_endian : Endianness
big_endian = record { byte_big = true; bit_big = true }

-- The last byte of eight, with three bits pushed onto it.
abbrev writer : Writer
writer = record {
  buf = 1 ∷ 2 ∷ 3 ∷ 4 ∷ 5 ∷ 6 ∷ 7 ∷ 0x05 ∷ [];
  index = 7;
  capacity = 8;
  bit_offset = 3;
  flags = big_endian;
  error = false;
}

writer-IsWriter : IsWriter writer
writer-IsWriter = omega arith

put_grows :
    h_bit_writer_put realloc 0x2ff 9 writer
    ≡ some (record writer {
      buf = 1 ∷ 2 ∷ 3 ∷ 4 ∷ 5 ∷ 6 ∷ 7 ∷ 0xaf ∷ 0x0f ∷ 0 ∷ 0 ∷ 0 ∷ 0 ∷ 0 ∷ 0 ∷ 0 ∷ [];
      capacity = 16;
      index = 8;
      bit_offset = 4;
    })
unfolding realloc h_bit_writer_put h_bit_writer_reserve reserve_loop bytes_needed after_growth
    clear_from put_loop select_bits push_bits advance
put_grows = refl

h_bit_writer_put-IsWritten_example :
    IsWritten true 9 0x2ff writer (h_bit_writer_put realloc 0x2ff 9 writer)
h_bit_writer_put-IsWritten_example =
    h_bit_writer_put-IsWritten realloc true 0x2ff 9 writer realloc-IsRealloc writer-IsWriter
      (record { byte_order = refl; bit_order = refl }) (omega arith) (omega arith) (omega arith)

run_bitwriter_test_lem_example :
    run_bitwriter_test alloc realloc
      ((0x26a, 11) ∷ (0x0b, 5) ∷ [])
      (record { byte_big = false; bit_big = false })
    ≡ some (0x26a ∷ 0x0b ∷ [])
unfolding alloc
run_bitwriter_test_lem_example =
    run_bitwriter_test_lem alloc realloc false ((0x26a, 11) ∷ (0x0b, 5) ∷ []) (replicate 8 0xaa)
      refl refl realloc-IsRealloc (omega arith) (omega arith) (omega arith)
