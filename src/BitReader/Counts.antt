-- ===== src/BitReader/Counts.antt =====
-- How many bits are pending, and how large a number they make.
use native.Mathlib.Nat.{pow-suc}
use hammer.Prelude.{
  ℕ, zero, suc, ◌+◌, ◌-◌, ◌*◌, ◌^◌, ◌<◌, ◌≡◌, refl, subst, Bool, true, false, List, [], ◌∷◌, ◌++◌,
  arith, length, take, drop, le_or_lt, inl, inr, length-append, length-take, length-drop,
  drop-eq-cons, get_elem?_total,
}
use hammer.BitReader.{InputStream, bytes_left}
use hammer.BitReader.Pending.{
  pending, pending_from, flat_bits, byte_bits, value_big, value_little, IsValid,
}
use hammer.BitReader.Cut.{length-byte_bits}
use hammer.BitReader.Loops.{drop-past}

abbrev pub IsBits : List ℕ → Type 0
IsBits [] = Unit {0}
IsBits (b ∷ bs) = (b < 2) × IsBits bs

pub IsBits-append : (xs ys : List ℕ) → IsBits xs → IsBits ys → IsBits (xs ++ ys)
IsBits-append [] ys p q = q
IsBits-append (x ∷ xs) ys p q = (p.0, IsBits-append xs ys p.1 q)

pub IsBits-take : (n : ℕ) (xs : List ℕ) → IsBits xs → IsBits (take n xs)
IsBits-take zero xs p = tt
IsBits-take (suc n) [] p = tt
IsBits-take (suc n) (x ∷ xs) p = (p.0, IsBits-take n xs p.1)

IsBits-drop : (n : ℕ) (xs : List ℕ) → IsBits xs → IsBits (drop n xs)
IsBits-drop zero xs p = p
IsBits-drop (suc n) [] p = tt
IsBits-drop (suc n) (x ∷ xs) p = IsBits-drop n xs p.1

byte_bits-IsBits : (order : Bool) (b : ℕ) → IsBits (byte_bits order b)
byte_bits-IsBits true b = omega arith
byte_bits-IsBits false b = omega arith

flat_bits-IsBits : (order : Bool) (bs : List ℕ) → IsBits (flat_bits order bs)
flat_bits-IsBits order [] = tt
flat_bits-IsBits order (b ∷ bs) =
    IsBits-append (byte_bits order b) (flat_bits order bs) (byte_bits-IsBits order b)
      (flat_bits-IsBits order bs)

pending_from-IsBits : (order : Bool) (bs : List ℕ) (o m : ℕ) → IsBits (pending_from order bs o m)
pending_from-IsBits order [] o m = tt
pending_from-IsBits order (b ∷ bs) o m =
    IsBits-append (take (8 - o - m) (drop o (byte_bits order b))) (flat_bits order bs)
      (IsBits-take (8 - o - m) _ (IsBits-drop o _ (byte_bits-IsBits order b)))
      (flat_bits-IsBits order bs)

pub pending-IsBits : (s : InputStream) → IsBits (pending s)
unfolding pending
pending-IsBits s =
    pending_from-IsBits s.endianness.bit_big (drop s.index s.input) s.bit_offset s.margin

pub value_big-lt :
    (k acc : ℕ) (bs : List ℕ) → acc < 2 ^ k → IsBits bs → value_big acc bs < 2 ^ (k + length bs)
value_big-lt k acc [] h p = let e : k + 0 ≡ k = omega arith in rw e h
value_big-lt k acc (b ∷ bs) h p =
    let e : k + suc (length bs) ≡ suc k + length bs = omega arith in
    rw e (value_big-lt (suc k) (acc * 2 + b) bs (omega (arith, pow-suc 2 k)) p.1)

pub value_little-lt : (bs : List ℕ) → IsBits bs → value_little bs < 2 ^ length bs
value_little-lt [] p = omega arith
value_little-lt (b ∷ bs) p = omega (arith, pow-suc 2 (length bs), value_little-lt bs p.1)

-- The bits of a number of `n` bits make a number below 2 ^ n, in either order.
pub value_big-bound : (bs : List ℕ) {n : ℕ} → IsBits bs → length bs ≡ n → value_big 0 bs < 2 ^ n
value_big-bound bs p e =
    subst (λ k. value_big 0 bs < 2 ^ k) (omega arith) (value_big-lt 0 0 bs (omega arith) p)

pub value_little-bound : (bs : List ℕ) {n : ℕ} → IsBits bs → length bs ≡ n → value_little bs < 2 ^ n
value_little-bound bs p e = rw (← e) (value_little-lt bs p)

pub length-flat_bits : (order : Bool) (bs : List ℕ) → length (flat_bits order bs) ≡ length bs * 8
length-flat_bits order [] = refl
length-flat_bits order (b ∷ bs) = omega (
  arith,
  length-append (byte_bits order b) (flat_bits order bs),
  length-byte_bits order b,
  length-flat_bits order bs,
)

length-pending_from :
    (order : Bool) (b : ℕ) (bs : List ℕ) (o m : ℕ)
    → o + m < 8
    → length (pending_from order (b ∷ bs) o m) ≡ 8 - o - m + length bs * 8
length-pending_from order b bs o m h =
    let here = take (8 - o - m) (drop o (byte_bits order b)) in
    omega (
      arith,
      length-append here (flat_bits order bs),
      length-flat_bits order bs,
      length-take (8 - o - m) (drop o (byte_bits order b))
          (omega (arith, length-drop o (byte_bits order b), length-byte_bits order b)),
    )

-- The number of pending bits is what the source computes.
pub length-pending :
    (s : InputStream)
    → IsValid s
    → length (pending s) ≡ (s.length - s.index) * 8 - s.bit_offset - s.margin
unfolding pending
length-pending s v = elim (le_or_lt s.length s.index) [
  | inl p ↦
      let end : s.bit_offset + s.margin ≡ 0 = v.at_end (omega (arith, v.inside)) in
      rw (drop-past s.input s.index (omega (arith, v.same_length))) (omega arith)
  | inr p ↦
      let (b, at) = get_elem?_total s.input s.index (omega (arith, v.same_length)) in
      rw (drop-eq-cons s.input s.index at) (
        omega (
          arith,
          length-pending_from s.endianness.bit_big b (drop (suc s.index) s.input) s.bit_offset
              s.margin v.in_byte,
          length-drop (suc s.index) s.input,
          v.same_length,
        ))
]

pub bytes_left-eq : (s : InputStream) → IsValid s → bytes_left s ≡ s.length - s.index
unfolding bytes_left
bytes_left-eq s v = omega (arith, v.inside, v.small)
