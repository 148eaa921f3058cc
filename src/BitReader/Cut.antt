-- ===== src/BitReader/Cut.antt =====
-- One segment of a byte: its bits in reading order, its value, and the stream after it.
use hammer.Prelude.{
  ℕ, zero, suc, ◌+◌, ◌-◌, ◌/◌, ◌%◌, ◌^◌, ◌≤◌, ◌<◌, ◌≡◌, refl, sym, Bool, true, false, ◌&&◌, ◌||◌,
  List, [], ◌∷◌, ◌++◌, append_assoc, arith, length, take, drop, get_elem?, some, length-take,
  length-drop, drop-eq-cons, get_elem?-lt, ltb, ◌==◌, ==_iff, inl, inr, bit_and-mask, two_pow_pos,
  le→leb, lt→leb_false, le_or_lt,
}
use native.Mathlib.Nat.{mod-lt}
use hammer.BitReader.{InputStream, Segment, cut_segment}
use hammer.BitReader.Pending.{
  byte_bits, flat_bits, pending, value_big, value_little, IsBytes, IsValid, pending_from_start,
  take-add, drop-add,
}

-- Part of a byte by shift and mask, as the value of the bits at that place.
top_part : ℕ → ℕ → ℕ → Bool
top_part offset low b =
    ltb 8 (offset + low)
    || value_big 0 (take (8 - offset - low) (drop offset (byte_bits true b)))
      == b / 2 ^ low % 2 ^ (8 - offset - low)

low_part : ℕ → ℕ → ℕ → Bool
low_part offset high b =
    ltb 8 (offset + high)
    || value_little (take (8 - offset - high) (drop offset (byte_bits false b)))
      == b / 2 ^ offset % 2 ^ (8 - offset - high)

all_below : ℕ → (ℕ → Bool) → Bool
all_below zero p = true
all_below (suc n) p = p n && all_below n p

all_below_lem : (n : ℕ) (p : ℕ → Bool) (x : ℕ) → all_below n p ≡ true → x < n → p x ≡ true
unfolding all_below
all_below_lem zero p x h lt = absurd (omega arith)
all_below_lem (suc n) p x h lt = ground (arith, all_below_lem n p x)

top_table : all_below 8 (λ o. all_below 9 (λ l. all_below 256 (top_part o l))) ≡ true
unfolding all_below top_part
top_table = refl

low_table : all_below 8 (λ o. all_below 9 (λ l. all_below 256 (low_part o l))) ≡ true
unfolding all_below low_part
low_table = refl

or_right : (x y : Bool) → x ≡ false → (x || y) ≡ true → y ≡ true
or_right true y e h = absurd (cc)
or_right false y e h = h

module _ (b o l : ℕ) (hb : b < 256) (h : o + l ≤ 8) (ho : o < 8) where
  in_table :
      (part : ℕ → ℕ → ℕ → Bool)
      → all_below 8 (λ o. all_below 9 (λ l. all_below 256 (part o l))) ≡ true
      → part o l b ≡ true
  in_table part t =
      all_below_lem 256 (part o l) b
        (all_below_lem 9 (λ l. all_below 256 (part o l)) l
          (all_below_lem 8 (λ o. all_below 9 (λ l. all_below 256 (part o l))) o t ho) (omega arith))
        hb

  pub value_big-part :
      value_big 0 (take (8 - o - l) (drop o (byte_bits true b))) ≡ b / 2 ^ l % 2 ^ (8 - o - l)
  unfolding top_part
  value_big-part =
      (==_iff _ _).0 (or_right (ltb 8 (o + l)) _ (ground arith) (in_table top_part top_table))

  pub value_little-part :
      value_little (take (8 - o - l) (drop o (byte_bits false b))) ≡ b / 2 ^ o % 2 ^ (8 - o - l)
  unfolding low_part
  value_little-part =
      (==_iff _ _).0 (or_right (ltb 8 (o + l)) _ (ground arith) (in_table low_part low_table))

value_big-run :
    (b o n : ℕ)
    → b < 256
    → o + n ≤ 8
    → o < 8
    → value_big 0 (take n (drop o (byte_bits true b))) ≡ b / 2 ^ (8 - (o + n)) % 2 ^ n
value_big-run b o n hb h ho =
    let e : 8 - o - (8 - (o + n)) ≡ n = omega arith in
    rw e at (value_big-part b o (8 - (o + n)) hb (omega arith) ho)

value_little-run :
    (b o n : ℕ)
    → b < 256
    → o + n ≤ 8
    → o < 8
    → value_little (take n (drop o (byte_bits false b))) ≡ b / 2 ^ o % 2 ^ n
value_little-run b o n hb h ho =
    let e : 8 - o - (8 - (o + n)) ≡ n = omega arith in
    rw e at (value_little-part b o (8 - (o + n)) hb (omega arith) ho)

pub length-byte_bits : (order : Bool) (b : ℕ) → length (byte_bits order b) ≡ 8
length-byte_bits true b = refl
length-byte_bits false b = refl

pub get_elem?-lt_256 :
    (xs : List ℕ) (i : ℕ) {b : ℕ} → IsBytes xs → get_elem? xs i ≡ some b → b < 256
get_elem?-lt_256 [] i h e = absurd (ground arith)
get_elem?-lt_256 (x ∷ xs) zero h e = ground arith
get_elem?-lt_256 (x ∷ xs) (suc i) h e = get_elem?-lt_256 xs i h.1 e

-- What no read changes.
pub record SameChunk (s t : InputStream) : Type 0 where
  pub input : t.input ≡ s.input
  pub length : t.length ≡ s.length
  pub endianness : t.endianness ≡ s.endianness
  pub overrun : t.overrun ≡ s.overrun
  pub pos : t.pos ≡ s.pos
  pub last_chunk : t.last_chunk ≡ s.last_chunk

pub record IsCut (s : InputStream) (count : ℕ) (seg : Segment) : Type 0 where
  pub read : List ℕ
  pub split : pending s ≡ read ++ pending seg.after
  pub measured : length read ≡ seg.size
  pub positive : 0 < seg.size
  pub wanted : seg.size ≤ count
  pub small : seg.size ≤ 8
  pub big : s.endianness.bit_big ≡ true → seg.bits ≡ value_big 0 read
  pub little : s.endianness.bit_big ≡ false → seg.bits ≡ value_little read
  pub below : seg.bits < 2 ^ seg.size
  pub valid : IsValid seg.after
  pub same : SameChunk s seg.after

module _ {s : InputStream} (v : IsValid s) {byte : ℕ}
    (at : get_elem? s.input s.index ≡ some byte) where
  abbrev order : Bool
  order = s.endianness.bit_big

  pending-cons :
      pending s
      ≡ take (8 - s.bit_offset - s.margin) (drop s.bit_offset (byte_bits order byte))
        ++ flat_bits order (drop (s.index + 1) s.input)
  unfolding pending
  pending-cons =
      let e : s.index + 1 ≡ suc s.index = omega arith in rw (e, drop-eq-cons s.input s.index at)

  byte-lt : byte < 256
  byte-lt = get_elem?-lt_256 s.input s.index v.bytes at

  fits : s.bit_offset + s.margin ≤ 8
  fits = omega (arith, v.in_byte)

  index-lt : s.index < s.length
  index-lt = omega (arith, v.same_length, get_elem?-lt s.input s.index at)

  length-part :
      (n : ℕ)
      → n + s.bit_offset ≤ 8
      → length (take n (drop s.bit_offset (byte_bits order byte))) ≡ n
  length-part n h =
      length-take n (drop s.bit_offset (byte_bits order byte)) (
        omega (arith, length-drop s.bit_offset (byte_bits order byte), length-byte_bits order byte))

  full-IsCut :
      (count : ℕ) → 8 ≤ count + s.bit_offset + s.margin → IsCut s count (cut_segment byte count s)
  unfolding cut_segment pending
  full-IsCut count h = rw (le→leb _ _ h) (record {
    read = take (8 - s.bit_offset - s.margin) (drop s.bit_offset (byte_bits order byte));
    split = rw pending_from_start pending-cons;
    measured = length-part (8 - s.bit_offset - s.margin) (omega (arith, v.in_byte));
    positive = omega (arith, v.in_byte);
    wanted = omega (arith, v.in_byte);
    small = omega arith;
    big = λ e.
        rw (e, bit_and-mask)
          (sym (value_big-part byte s.bit_offset s.margin byte-lt fits (omega arith)));
    little = λ e.
        rw (e, bit_and-mask)
          (sym (value_little-part byte s.bit_offset s.margin byte-lt fits (omega arith)));
    below = rw bit_and-mask (mod-lt _ (two_pow_pos (8 - s.bit_offset - s.margin)));
    valid = record {
      same_length = v.same_length;
      bytes = v.bytes;
      inside = omega (arith, index-lt);
      in_byte = omega arith;
      at_end = λ e. omega arith;
      small = v.small;
    };
    same = record {
      input = refl;
      length = refl;
      endianness = refl;
      overrun = refl;
      pos = refl;
      last_chunk = refl;
    };
  })

  partial_split :
      (count : ℕ)
      → count + s.bit_offset + s.margin < 8
      → take (8 - s.bit_offset - s.margin) (drop s.bit_offset (byte_bits order byte))
        ≡ take count (drop s.bit_offset (byte_bits order byte))
          ++ take
              (8 - (s.bit_offset + count) - s.margin)
              (drop (s.bit_offset + count) (byte_bits order byte))
  partial_split count h =
      let e : 8 - s.bit_offset - s.margin ≡ count + (8 - (s.bit_offset + count) - s.margin) =
        omega arith in
      rw (e, take-add, drop-add)

  partial-IsCut :
      (count : ℕ)
      → 0 < count
      → count + s.bit_offset + s.margin < 8
      → IsCut s count (cut_segment byte count s)
  unfolding cut_segment pending
  partial-IsCut count pos h = rw (lt→leb_false _ _ h) (record {
    read = take count (drop s.bit_offset (byte_bits order byte));
    split =
        let e : s.index + 1 ≡ suc s.index = omega arith in
        rw (drop-eq-cons s.input s.index at, partial_split count h, append_assoc);
    measured = length-part count (omega arith);
    positive = pos;
    wanted = omega arith;
    small = omega arith;
    big = λ e.
        rw (e, bit_and-mask)
          (sym (value_big-run byte s.bit_offset count byte-lt (omega arith) (omega arith)));
    little = λ e.
        rw (e, bit_and-mask)
          (sym (value_little-run byte s.bit_offset count byte-lt (omega arith) (omega arith)));
    below = rw bit_and-mask (mod-lt _ (two_pow_pos count));
    valid = record {
      same_length = v.same_length;
      bytes = v.bytes;
      inside = v.inside;
      in_byte = omega arith;
      at_end = λ e. absurd (omega (arith, index-lt));
      small = v.small;
    };
    same = record {
      input = refl;
      length = refl;
      endianness = refl;
      overrun = refl;
      pos = refl;
      last_chunk = refl;
    };
  })

  -- A segment cut from the current byte is the next bits of the stream, at most as many as wanted,
  -- and the stream after it is consistent and goes on where the segment stops.
  pub cut_segment-IsCut : (count : ℕ) → 0 < count → IsCut s count (cut_segment byte count s)
  cut_segment-IsCut count h = elim (le_or_lt 8 (count + s.bit_offset + s.margin)) [
    | inl p ↦ full-IsCut count p
    | inr p ↦ partial-IsCut count h p
  ]
