-- ===== src/BitReader.antt =====
-- Model of src/bitreader.c and of the input stream of src/internal.h.
--
-- A stream is a value: the chunk's bytes, the byte index, the number of bits already used in the
-- current byte (`bit_offset`), the number of bits of that byte to leave out at the end that is read
-- towards (`margin`), and the byte and bit order. `none` is a read that C leaves undefined: a byte
-- outside the chunk, a shift by a negative amount, or a shift of an int64_t by 64 or more. A shift
-- into the sign bit of an int64_t, and its subtraction, wrap, as the compilers define them.
pub mod Pending
pub mod Cut
pub mod Loops
pub mod Bytes
pub mod Counts
pub mod Finish
pub mod Laws
pub mod Reads
mod Tests
use hammer.Prelude.{
  ℕ, zero, suc, ◌+◌, ◌-◌, ◌*◌, ◌/◌, ◌%◌, ◌^◌, bit_or, bit_and, bit_xor, Bool, true, false, ◌&&◌,
  Option, none, some, List, get_elem?, ltb, leb, ◌==◌, if◌then◌else◌,
}

-- The two flags BYTE_BIG_ENDIAN and BIT_BIG_ENDIAN of `endianness`; no code reads another bit of it.
pub record Endianness : Type 0 where
  pub byte_big : Bool
  pub bit_big : Bool

pub record InputStream : Type 0 where
  pub input : List ℕ
  pub pos : ℕ
  pub index : ℕ
  pub length : ℕ
  pub bit_offset : ℕ
  pub margin : ℕ
  pub endianness : Endianness
  pub overrun : Bool
  pub last_chunk : Bool

abbrev pub u64 : ℕ → ℕ
u64 n = n % 2 ^ 64

infixl 5 ◌>>=◌
abbrev pub ◌>>=◌ {ℓ κ} : {A : Type ℓ} {B : Type κ} → Option A → (A → Option B) → Option B
none >>= f = none
some a >>= f = f a

-- The value read so far and the stream after it.
abbrev pub Read : Type 0
Read = Option (ℕ × InputStream)

-- The byte loop for BYTE_BIG_ENDIAN; the first argument is the number of rounds left, `count / 8`.
pub fast_big : ℕ → ℕ → InputStream → Read
fast_big zero out s = some (out, s)
fast_big (suc n) out s = do
  byte ← get_elem? s.input s.index
  fast_big n (bit_or (u64 (out * 2 ^ 8)) byte) (record s { index = s.index + 1 })

-- The byte loop for BYTE_LITTLE_ENDIAN, at the shift `i`.
pub fast_little : ℕ → ℕ → ℕ → InputStream → Read
fast_little zero i out s = some (out, s)
fast_little (suc n) i out s = do
  byte ← get_elem? s.input s.index
  fast_little n (i + 8) (bit_or out (u64 (byte * 2 ^ i))) (record s { index = s.index + 1 })

pub record Segment : Type 0 where
  pub bits : ℕ
  pub size : ℕ
  pub after : InputStream

-- One segment: what the current byte still has, or the `count` bits that are wanted of it.
pub cut_segment : ℕ → ℕ → InputStream → Segment
cut_segment byte count s =
    if leb 8 (count + s.bit_offset + s.margin)
    then (let size = 8 - s.bit_offset - s.margin in
        record {
          bits =
              bit_and (byte / 2 ^ (if s.endianness.bit_big then s.margin else s.bit_offset))
                (2 ^ size - 1);
          size = size;
          after = record s { index = s.index + 1; bit_offset = 0; margin = 0 };
        })
    else (let used = s.bit_offset + count in
        record {
          bits =
              bit_and (byte / 2 ^ (if s.endianness.bit_big then 8 - used else s.bit_offset))
                (2 ^ count - 1);
          size = count;
          after = record s { bit_offset = used };
        })

-- The segment loop, `while (count)`. Every round but the first takes at least one bit, so `count + 1`
-- rounds are enough.
pub slow : ℕ → ℕ → ℕ → ℕ → InputStream → Read
slow fuel zero offset out s = some (out, s)
slow zero (suc count) offset out s = none
slow (suc fuel) (suc count) offset out s = do
  byte ← get_elem? s.input s.index
  let seg = cut_segment byte (suc count) s
  slow fuel (suc count - seg.size) (offset + seg.size)
      (if s.endianness.byte_big
        then bit_or (u64 (out * 2 ^ seg.size)) seg.bits
        else bit_or out (u64 (seg.bits * 2 ^ offset)))
      seg.after

-- The choice between the loops.
pub read_loop : ℕ → InputStream → Read
read_loop count s =
    if s.bit_offset % 8 == 0 && count % 8 == 0 && s.margin == 0
    then (if s.endianness.byte_big then fast_big (count / 8) 0 s else fast_little (count / 8) 0 0 s)
    else slow (count + 1) count 0 0 s

-- What the loop's result is turned into: the missing bits are shifted in as zeros, and the top bit
-- of a signed number is extended. The result is the bit pattern of an int64_t.
pub sign_extended : ℕ → Bool → ℕ → ℕ → ℕ
sign_extended count signed shift out =
    let msb = if signed then u64 (2 ^ (count - 1)) else 0 in
    u64 (bit_xor (u64 (out * 2 ^ shift)) msb + 2 ^ 64 - msb)

-- The shifts by `count - 1`, where `msb` is set at the start, and by `final_shift` at the end.
pub finish : ℕ → Bool → ℕ → ℕ → Option ℕ
finish count signed shift out =
    if leb 1 count && leb count 64 && ltb shift 64
    then some (sign_extended count signed shift out)
    else none

-- `state->length - state->index` in size_t, then cast to int: a negative int has this at 2 ^ 31 or
-- more.
pub bytes_left : InputStream → ℕ
bytes_left s = (s.length + 2 ^ 64 - s.index) % 2 ^ 64 % 2 ^ 32

-- Shifting a negative number of bytes left is undefined, and the loop reads outside the chunk for a
-- negative `count`.
pub h_read_bits : InputStream → ℕ → Bool → Read
h_read_bits s count signed =
    let left = bytes_left s in
    let avail = left * 8 - s.bit_offset - s.margin in
    let whole = (do (out, s') ← read_loop count s; v ← finish count signed 0 out; some (v, s')) in
    let short = do
      (out, s') ← read_loop avail (record s { overrun = true })
      v ← finish count signed (if s.endianness.byte_big then count - avail else 0) out
      some (v, s')
    in if leb (2 ^ 31) left
      then none
      else (if leb left 64
          then (if ltb (left * 8) (s.bit_offset + s.margin)
              then none
              else (if ltb avail count then short else whole))
          else whole)

-- h_input_stream_pos
pub h_input_stream_pos : InputStream → ℕ
h_input_stream_pos s = s.index * 8 + s.bit_offset + s.margin
