-- ===== src/BitWriter.antt =====
-- Model of src/bitwriter.c.
--
-- A writer is a value: the bytes of the buffer ([] stands for the null pointer after a failed
-- allocation), the byte index, the capacity, the number of bits already written to the current byte
-- (`bit_offset`), and the byte and bit order. The allocator's functions are parameters: `alloc` gives
-- the bytes found in a new block, `realloc` those of the block that replaces another. `none` is a run
-- that C leaves undefined, an access outside the buffer, or a failed assertion.
pub mod Digits
pub mod Content
pub mod Step
pub mod Put
pub mod Reserve
pub mod Laws
pub mod ReadBack
pub mod RoundTrip
mod Tests
use hammer.Prelude.{
  ℕ, zero, suc, ◌+◌, ◌-◌, ◌*◌, ◌/◌, ◌%◌, ◌^◌, bit_or, bit_and, min, Bool, true, false, Option, none,
  some, List, [], ◌∷◌, ◌++◌, length, get_elem?, set, take, drop, replicate, leb, ◌==◌,
  if◌then◌else◌,
}
use hammer.BitReader.{Endianness, u64, ◌>>=◌, InputStream, h_read_bits}

pub record Writer : Type 0 where
  pub buf : List ℕ
  pub index : ℕ
  pub capacity : ℕ
  pub bit_offset : ℕ
  pub flags : Endianness
  pub error : Bool

-- memset(buf + from, 0, size - from), for `from` at most `size`.
unfoldable pub clear_from : List ℕ → ℕ → ℕ → Option (List ℕ)
clear_from buf from size =
    if leb size (length buf)
    then some (take from buf ++ (replicate (size - from) 0 ++ drop size buf))
    else none

-- The writer is used without a test of its allocation, so that of the buffer must succeed.
unfoldable pub h_bit_writer_new : (ℕ → Option (List ℕ)) → Option Writer
h_bit_writer_new alloc = do
  block ← alloc 8
  buf ← clear_from block 0 8
  some record {
    buf = buf;
    index = 0;
    capacity = 8;
    bit_offset = 0;
    flags = record { byte_big = true; bit_big = true };
    error = false;
  }

-- What the loop of h_bit_writer_reserve ends with: no memory, or a buffer that is large enough.
pub data Growth : Type 0 where
  failed : Writer → Growth
  grown : Writer → Growth

-- The bytes that `nbits` more bits may need; `nbits` is at most 64, so an int holds it.
unfoldable pub bytes_needed : ℕ → Writer → ℕ
bytes_needed nbits w = (nbits + 7) / 8 + (if w.bit_offset == 0 then 0 else 1)

unfoldable pub after_growth : ℕ → Growth → Option Writer
after_growth old_capacity (failed w) = some w
after_growth old_capacity (grown w) =
    if old_capacity == w.capacity
    then some w
    else (do buf ← clear_from w.buf old_capacity w.capacity; some (record w { buf = buf }))

module _ (realloc : List ℕ → ℕ → Option (List ℕ)) where
  -- `while (w->index + nbytes >= w->capacity)`; every round doubles the capacity, so `needed + 1`
  -- rounds are enough.
  unfoldable pub reserve_loop : ℕ → ℕ → Writer → Option Growth
  reserve_loop zero needed w = none
  reserve_loop (suc fuel) needed w = elim (leb w.capacity needed) [
    | false ↦ some (grown w)
    | true ↦ elim (realloc w.buf (u64 (w.capacity * 2))) [
      | none ↦ some (failed (record w { buf = []; capacity = u64 (w.capacity * 2); error = true }))
      | some block ↦
          reserve_loop fuel needed (record w { buf = block; capacity = u64 (w.capacity * 2) })
    ]
  ]

  unfoldable pub h_bit_writer_reserve : ℕ → Writer → Option Writer
  h_bit_writer_reserve nbits w =
      let needed = u64 (w.index + bytes_needed nbits w) in
      reserve_loop (suc needed) needed w >>= after_growth w.capacity

-- The `count` bits that are written next, and what is left of the value.
unfoldable pub select_bits : Bool → ℕ → ℕ → ℕ → ℕ
select_bits true value nbits count = bit_and (value / 2 ^ (nbits - count) % 2 ^ 16) (2 ^ count - 1)
select_bits false value nbits count = bit_and (bit_and value 0xff) (2 ^ count - 1)

-- A byte with these bits pushed onto it.
unfoldable pub push_bits : Bool → ℕ → ℕ → ℕ → ℕ
push_bits true byte count bits = bit_or (byte * 2 ^ count) bits % 256
push_bits false byte count bits = bit_or byte (bits * 2 ^ 8) / 2 ^ count % 256

-- The position after `count` more bits.
unfoldable pub advance : ℕ → Writer → Writer
advance count w =
    if w.bit_offset + count == 8
    then record w { bit_offset = 0; index = w.index + 1 }
    else record w { bit_offset = w.bit_offset + count }

-- `while (nbits)`; every round writes at least one bit, so `nbits` rounds are enough.
unfoldable pub put_loop : ℕ → ℕ → ℕ → Writer → Option Writer
put_loop fuel value zero w = some w
put_loop zero value (suc n) w = none
put_loop (suc fuel) value (suc n) w = do
  byte ← get_elem? w.buf w.index
  let count = min (8 - w.bit_offset) (suc n)
  let bits = select_bits w.flags.byte_big value (suc n) count
  let pushed = push_bits w.flags.bit_big byte count bits
  put_loop fuel (if w.flags.byte_big then value else value / 2 ^ count) (suc n - count)
      (advance count (record w { buf = set w.buf w.index pushed }))

-- `value` (`data` in C) is a uint64_t, and `nbits` at most 64.
unfoldable pub h_bit_writer_put : (List ℕ → ℕ → Option (List ℕ)) → ℕ → ℕ → Writer → Option Writer
h_bit_writer_put realloc value zero w = none
h_bit_writer_put realloc value (suc n) w = do
  w' ← h_bit_writer_reserve realloc (suc n) w
  put_loop (suc n) value (suc n) w'

-- The buffer and the number of its bytes that are used.
unfoldable pub h_bit_writer_get_buffer : Writer → Option (List ℕ × ℕ)
h_bit_writer_get_buffer w = if w.bit_offset == 0 then some (w.buf, w.index) else none

-- src/t_bitwriter.c: fields of a value and a number of bits are written, and read back with the
-- same numbers of bits from the bytes of the buffer.
unfoldable pub write_fields : (List ℕ → ℕ → Option (List ℕ)) → List (ℕ × ℕ) → Writer → Option Writer
write_fields realloc [] w = some w
write_fields realloc ((value, nbits) ∷ fields) w = do
  w' ← h_bit_writer_put realloc value nbits w
  write_fields realloc fields w'

unfoldable pub buffer_stream : Endianness → List ℕ → ℕ → InputStream
buffer_stream order buf size = record {
  input = take size buf;
  pos = 0;
  index = 0;
  length = size;
  bit_offset = 0;
  margin = 0;
  endianness = order;
  overrun = false;
  last_chunk = false;
}

unfoldable pub read_fields : List (ℕ × ℕ) → InputStream → Option (List ℕ)
read_fields [] s = some []
read_fields ((value, nbits) ∷ fields) s = do
  (n, s') ← h_read_bits s nbits false
  rest ← read_fields fields s'
  some (n ∷ rest)

unfoldable pub run_bitwriter_test :
    (ℕ → Option (List ℕ))
    → (List ℕ → ℕ → Option (List ℕ))
    → List (ℕ × ℕ)
    → Endianness
    → Option (List ℕ)
run_bitwriter_test alloc realloc fields order = do
  w ← h_bit_writer_new alloc
  w' ← write_fields realloc fields (record w { flags = order })
  (buf, size) ← h_bit_writer_get_buffer w'
  read_fields fields (buffer_stream order buf size)
