-- ===== src/BitReader/Loops.antt =====
-- The segment loop of `h_read_bits`: it reads the next `count` pending bits, in the byte order of the stream.
use hammer.Prelude.{
  ℕ, zero, suc, ◌+◌, ◌-◌, ◌*◌, ◌^◌, ◌≤◌, ◌<◌, ◌≡◌, refl, ap, ◌∙◌, sym, Bool, true, false, List, [],
  ◌∷◌, ◌++◌, arith, length, take, drop, get_elem?, some, get_elem?_total, bit_or, bit_or-shifted,
  bit_or-shifted_right, joined-lt, two_pow_add, two_pow_mono, le_or_lt, inl, inr, if◌then◌else◌,
  length-append,
}
use native.Mathlib.Nat.{mod-eq_of_lt}
use hammer.BitReader.{InputStream, Segment, cut_segment, slow, Read, u64}
use hammer.BitReader.Pending.{
  pending, value_big, value_little, value_big-acc, value_big-append, value_little-append, IsValid,
  take-append, drop-append,
}
use hammer.BitReader.Cut.{IsCut, cut_segment-IsCut, SameChunk}

-- `r` is a run that started at `s` with the value `out` and the shift `offset`, and that read the
-- next `count` bits of `s`.
pub record IsRun (s : InputStream) (count offset out : ℕ) (r : Read) : Type 0 where
  pub value : ℕ
  pub after : InputStream
  pub returns : r ≡ some (value, after)
  pub valid : IsValid after
  pub same : SameChunk s after
  pub rest : pending after ≡ drop count (pending s)
  pub big :
      (k : ℕ)
      → s.endianness.byte_big ≡ true
      → s.endianness.bit_big ≡ true
      → out < 2 ^ k
      → k + count ≤ 64
      → value ≡ value_big out (take count (pending s))
  pub little :
      s.endianness.byte_big ≡ false
      → s.endianness.bit_big ≡ false
      → out < 2 ^ offset
      → offset + count ≤ 64
      → value ≡ out + value_little (take count (pending s)) * 2 ^ offset

SameChunk-refl : (s : InputStream) → SameChunk s s
SameChunk-refl s = record {
  input = refl;
  length = refl;
  endianness = refl;
  overrun = refl;
  pos = refl;
  last_chunk = refl;
}

SameChunk-trans : {s t u : InputStream} → SameChunk s t → SameChunk t u → SameChunk s u
SameChunk-trans a b = record {
  input = b.input ∙ a.input;
  length = b.length ∙ a.length;
  endianness = b.endianness ∙ a.endianness;
  overrun = b.overrun ∙ a.overrun;
  pos = b.pos ∙ a.pos;
  last_chunk = b.last_chunk ∙ a.last_chunk;
}

pub no_bits : {s : InputStream} (offset out : ℕ) → IsValid s → IsRun s 0 offset out (some (out, s))
no_bits {s} offset out v = record {
  value = out;
  after = s;
  returns = refl;
  valid = v;
  same = SameChunk-refl s;
  rest = refl;
  big = λ k a b c d. refl;
  little = λ a b c d. omega arith;
}

pub drop-past : (xs : List ℕ) (i : ℕ) → length xs ≤ i → drop i xs ≡ []
drop-past [] zero h = refl
drop-past [] (suc i) h = refl
drop-past (x ∷ xs) zero h = absurd (omega arith)
drop-past (x ∷ xs) (suc i) h = drop-past xs i (omega arith)

-- A stream with a pending bit has a current byte.
pub current_byte :
    (s : InputStream) → 0 < length (pending s) → (b : ℕ) × (get_elem? s.input s.index ≡ some b)
unfolding pending
current_byte s h = elim (le_or_lt (length s.input) s.index) [
  | inl p ↦ absurd (omega (arith, rw (drop-past s.input s.index p) at h))
  | inr p ↦ get_elem?_total s.input s.index p
]

-- The value after a segment, by the two assignments of the loop.
abbrev pub assemble : Bool → ℕ → ℕ → ℕ → ℕ → ℕ
assemble byte_big offset out bits size =
    if byte_big then bit_or (u64 (out * 2 ^ size)) bits else bit_or out (u64 (bits * 2 ^ offset))

assemble_big :
    (k out bits size : ℕ)
    → out < 2 ^ k
    → bits < 2 ^ size
    → k + size ≤ 64
    → bit_or (u64 (out * 2 ^ size)) bits ≡ out * 2 ^ size + bits
assemble_big k out bits size ho hb h =
    let below : out * 2 ^ size < 2 ^ 64 =
      omega (arith, joined-lt k size out bits ho hb, two_pow_mono (k + size) 64 h) in
    rw (mod-eq_of_lt below) (bit_or-shifted size out bits hb)

assemble_little :
    (offset out bits size : ℕ)
    → out < 2 ^ offset
    → bits < 2 ^ size
    → size + offset ≤ 64
    → bit_or out (u64 (bits * 2 ^ offset)) ≡ bits * 2 ^ offset + out
assemble_little offset out bits size ho hb h =
    let below : bits * 2 ^ offset < 2 ^ 64 =
      omega (arith, joined-lt size offset bits out hb ho, two_pow_mono (size + offset) 64 h) in
    rw (mod-eq_of_lt below) (bit_or-shifted_right offset bits out ho)

module _ {s : InputStream} {count : ℕ} {seg : Segment} (cut : IsCut s count seg) (offset out : ℕ)
    {r : Read}
    (run : IsRun seg.after
      (count - seg.size)
      (offset + seg.size)
      (assemble s.endianness.byte_big offset out seg.bits seg.size)
      r) where
  taken : take count (pending s) ≡ cut.read ++ take (count - seg.size) (pending seg.after)
  taken =
      rw (cut.split, ← cut.measured)
        (take-append cut.read (pending seg.after) count (omega (arith, cut.measured, cut.wanted)))

  dropped : drop count (pending s) ≡ drop (count - seg.size) (pending seg.after)
  dropped =
      rw (cut.split, ← cut.measured)
        (drop-append cut.read (pending seg.after) count (omega (arith, cut.measured, cut.wanted)))

  read_big :
      (k : ℕ)
      → s.endianness.byte_big ≡ true
      → s.endianness.bit_big ≡ true
      → out < 2 ^ k
      → k + seg.size ≤ 64
      → assemble s.endianness.byte_big offset out seg.bits seg.size ≡ value_big out cut.read
  read_big k a b c d =
      rw (a, value_big-acc, cut.measured, ← cut.big b)
        (assemble_big k out seg.bits seg.size c cut.below d)

  read_little :
      s.endianness.byte_big ≡ false
      → s.endianness.bit_big ≡ false
      → out < 2 ^ offset
      → offset + seg.size ≤ 64
      → assemble s.endianness.byte_big offset out seg.bits seg.size
        ≡ value_little cut.read * 2 ^ offset + out
  read_little a b c d =
      rw (a, ← cut.little b)
        (assemble_little offset out seg.bits seg.size c cut.below (omega arith))

  then_big :
      (k : ℕ)
      → s.endianness.byte_big ≡ true
      → s.endianness.bit_big ≡ true
      → out < 2 ^ k
      → k + count ≤ 64
      → run.value ≡ value_big out (take count (pending s))
  then_big k a b c d =
      let e = read_big k a b c (omega (arith, cut.wanted)) in
      let below : assemble s.endianness.byte_big offset out seg.bits seg.size < 2 ^ (k + seg.size) =
        rw (a, assemble_big k out seg.bits seg.size c cut.below (omega (arith, cut.wanted)))
          (joined-lt k seg.size out seg.bits c cut.below) in
      rw (taken, value_big-append, ← e)
        (run.big (k + seg.size) (rw cut.same.endianness a) (rw cut.same.endianness b) below
          (omega (arith, cut.wanted)))

  then_little :
      s.endianness.byte_big ≡ false
      → s.endianness.bit_big ≡ false
      → out < 2 ^ offset
      → offset + count ≤ 64
      → run.value ≡ out + value_little (take count (pending s)) * 2 ^ offset
  then_little a b c d =
      let e = read_little a b c (omega (arith, cut.wanted)) in
      let lt = joined-lt seg.size offset seg.bits out cut.below c in
      let comm : seg.size + offset ≡ offset + seg.size = omega arith in
      let below : assemble s.endianness.byte_big offset out seg.bits seg.size
          < 2 ^ (offset + seg.size) =
        rw (e, ← cut.little b, ← comm) lt in
      let later =
        run.little (rw cut.same.endianness a) (rw cut.same.endianness b) below
          (omega (arith, cut.wanted)) in
      rw (taken, value_little-append, cut.measured)
        (later ∙ rw (e, two_pow_add offset seg.size) (grind arith))

  pub segment_then : IsRun s count offset out r
  segment_then = record {
    value = run.value;
    after = run.after;
    returns = run.returns;
    valid = run.valid;
    same = SameChunk-trans cut.same run.same;
    rest = run.rest ∙ sym dropped;
    big = then_big;
    little = then_little;
  }

-- The segment loop reads the bits that are asked for, when there are as many.
pub slow-IsRun :
    (fuel count offset out : ℕ) (s : InputStream)
    → IsValid s
    → count ≤ length (pending s)
    → count ≤ fuel
    → IsRun s count offset out (slow fuel count offset out s)
unfolding slow
slow-IsRun zero zero offset out s v h f = no_bits offset out v
slow-IsRun (suc fuel) zero offset out s v h f = no_bits offset out v
slow-IsRun zero (suc count) offset out s v h f = absurd (omega arith)
slow-IsRun (suc fuel) (suc count) offset out s v h f =
    let (byte, at) = current_byte s (omega arith) in
    let cut = cut_segment-IsCut v at (suc count) (omega arith) in
    let seg = cut_segment byte (suc count) s in
    let left : length (pending s) ≡ length cut.read + length (pending seg.after) =
      ap length cut.split ∙ length-append cut.read (pending seg.after) in
    rw at (
      segment_then cut offset out (
        slow-IsRun fuel (suc count - seg.size) (offset + seg.size)
          (assemble s.endianness.byte_big offset out seg.bits seg.size) seg.after cut.valid
          (omega (arith, left, cut.measured, cut.wanted)) (omega (arith, cut.positive))))
