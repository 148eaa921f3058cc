-- ===== src/BitReader/Bytes.antt =====
-- The byte loops of `h_read_bits`, and the choice between the loops.
use hammer.Prelude.{
  ℕ, zero, suc, ◌+◌, ◌-◌, ◌*◌, ◌/◌, ◌%◌, ◌^◌, ◌≤◌, ◌<◌, ◌≡◌, refl, ap, sym, Bool, true, false,
  arith, length, get_elem?, some, bit_or, inl, inr, if◌then◌else◌, length-append, bit_and-mask,
  subst, Bool-cases, ◌&&◌, ◌==◌,
}
use hammer.BitReader.{
  InputStream, Segment, cut_segment, read_loop, fast_big, fast_little, Read, u64,
}
use hammer.BitReader.Pending.{pending, IsValid}
use hammer.BitReader.Cut.{IsCut, cut_segment-IsCut, get_elem?-lt_256}
use hammer.BitReader.Loops.{IsRun, no_bits, current_byte, assemble, segment_then, slow-IsRun}

-- On a byte boundary a whole byte is one segment.
whole_byte :
    (byte count : ℕ) (s : InputStream)
    → byte < 256
    → s.bit_offset ≡ 0
    → s.margin ≡ 0
    → 8 ≤ count
    → cut_segment byte count s
      ≡ record { bits = byte; size = 8; after = record s { index = s.index + 1 } }
unfolding cut_segment
whole_byte byte count s b o m h = ground (arith, bit_and-mask 8 byte)

module _ {s : InputStream} (v : IsValid s) (o : s.bit_offset ≡ 0) (m : s.margin ≡ 0) (n : ℕ)
    (h : suc n * 8 ≤ length (pending s)) where
  byte-IsCut :
      (byte : ℕ) × (get_elem? s.input s.index ≡ some byte)
      × IsCut s
          (suc n * 8)
          (record { bits = byte; size = 8; after = record s { index = s.index + 1 } })
  byte-IsCut =
      let (byte, at) = current_byte s (omega arith) in
      (
        byte,
        at,
        rw
            (whole_byte byte (suc n * 8) s (get_elem?-lt_256 s.input s.index v.bytes at) o m
              (omega arith))
            at (cut_segment-IsCut v at (suc n * 8) (omega arith)),
      )

segment_then_at :
    {s : InputStream} {count : ℕ} {seg : Segment} (cut : IsCut s count seg) (offset out next : ℕ)
    {r : Read}
    → assemble s.endianness.byte_big offset out seg.bits seg.size ≡ next
    → IsRun seg.after (count - seg.size) (offset + seg.size) next r
    → IsRun s count offset out r
segment_then_at {count} {seg} cut offset out next {r} e run =
    segment_then cut offset out
      (subst (λ t. IsRun seg.after (count - seg.size) (offset + seg.size) t r) (sym e) run)

-- The byte loops read whole bytes of pending bits.
module _ {s : InputStream} (v : IsValid s) (o : s.bit_offset ≡ 0) (m : s.margin ≡ 0) (n : ℕ)
    (h : suc n * 8 ≤ length (pending s)) {byte : ℕ}
    (cut : IsCut s
      (suc n * 8)
      (record { bits = byte; size = 8; after = record s { index = s.index + 1 } })) where
  rest_count : suc n * 8 - 8 ≡ n * 8
  rest_count = omega arith

  rest_bits : n * 8 ≤ length (pending (record s { index = s.index + 1 }))
  rest_bits = omega (
    arith,
    cut.measured,
    ap length cut.split,
    length-append cut.read (pending (record s { index = s.index + 1 })),
  )

  byte_then :
      (offset out next : ℕ) {r : Read}
      → assemble s.endianness.byte_big offset out byte 8 ≡ next
      → IsRun (record s { index = s.index + 1 }) (n * 8) (offset + 8) next r
      → IsRun s (suc n * 8) offset out r
  byte_then offset out next {r} e run = segment_then_at cut offset out next e (
      subst (λ t. IsRun (record s { index = s.index + 1 }) t (offset + 8) next r) (sym rest_count)
        run)

pub fast_big-IsRun :
    (n offset out : ℕ) (s : InputStream)
    → IsValid s
    → s.bit_offset ≡ 0
    → s.margin ≡ 0
    → s.endianness.byte_big ≡ true
    → n * 8 ≤ length (pending s)
    → IsRun s (n * 8) offset out (fast_big n out s)
unfolding fast_big
fast_big-IsRun zero offset out s v o m e h = no_bits offset out v
fast_big-IsRun (suc n) offset out s v o m e h =
    let (byte, at, cut) = byte-IsCut v o m n h in
    let next = bit_or (u64 (out * 2 ^ 8)) byte in
    rw at (
      byte_then v o m n h cut offset out next (rw e) (
        fast_big-IsRun n (offset + 8) next (record s { index = s.index + 1 }) cut.valid o m e
          (rest_bits v o m n h cut)))

pub fast_little-IsRun :
    (n offset out : ℕ) (s : InputStream)
    → IsValid s
    → s.bit_offset ≡ 0
    → s.margin ≡ 0
    → s.endianness.byte_big ≡ false
    → n * 8 ≤ length (pending s)
    → IsRun s (n * 8) offset out (fast_little n offset out s)
unfolding fast_little
fast_little-IsRun zero offset out s v o m e h = no_bits offset out v
fast_little-IsRun (suc n) offset out s v o m e h =
    let (byte, at, cut) = byte-IsCut v o m n h in
    let next = bit_or out (u64 (byte * 2 ^ offset)) in
    rw at (
      byte_then v o m n h cut offset out next (rw e) (
        fast_little-IsRun n (offset + 8) next (record s { index = s.index + 1 }) cut.valid o m e
          (rest_bits v o m n h cut)))

-- The byte loop for either order of bytes.
bytes-IsRun :
    (n : ℕ) (s : InputStream) (byte_big : Bool)
    → s.endianness.byte_big ≡ byte_big
    → IsValid s
    → s.bit_offset ≡ 0
    → s.margin ≡ 0
    → n * 8 ≤ length (pending s)
    → IsRun s (n * 8) 0 0 (if byte_big then fast_big n 0 s else fast_little n 0 0 s)
bytes-IsRun n s true e v o m h = fast_big-IsRun n 0 0 s v o m e h
bytes-IsRun n s false e v o m h = fast_little-IsRun n 0 0 s v o m e h

is_aligned :
    (a b c : ℕ) → (a % 8 == 0 && b % 8 == 0 && c == 0) ≡ true → (a % 8 ≡ 0) × (b % 8 ≡ 0) × (c ≡ 0)
is_aligned a b c h = ground arith

-- Either loop reads the next `count` pending bits.
pub read_loop-IsRun :
    (count : ℕ) (s : InputStream)
    → IsValid s
    → count ≤ length (pending s)
    → IsRun s count 0 0 (read_loop count s)
unfolding read_loop
read_loop-IsRun count s v h =
    elim (Bool-cases (s.bit_offset % 8 == 0 && count % 8 == 0 && s.margin == 0)) [
      | inl fast ↦
          let (o, c, m) = is_aligned s.bit_offset count s.margin fast in
          let whole : count / 8 * 8 ≡ count = omega arith in
          let run =
            bytes-IsRun (count / 8) s s.endianness.byte_big refl v (omega (arith, v.in_byte)) m
              (omega arith) in
          rw fast (rw whole at run)
      | inr slowly ↦ rw slowly (slow-IsRun (count + 1) count 0 0 s v h (omega arith))
    ]
