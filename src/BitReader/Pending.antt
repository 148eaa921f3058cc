-- ===== src/BitReader/Pending.antt =====
-- The specification of a bit read: the bits that a stream still has, in reading order, and the
-- number that a list of bits stands for in either byte order.
use hammer.Prelude.{
  ℕ, zero, suc, ◌+◌, ◌-◌, ◌*◌, ◌/◌, ◌%◌, ◌^◌, ◌≤◌, ◌<◌, ◌≡◌, refl, ap, Bool, true, false, List, [],
  ◌∷◌, ◌++◌, arith, length, take, drop, replicate,
}
use native.Mathlib.Nat.{pow-suc}
use hammer.BitReader.{InputStream}

-- The bits of a byte, the highest first or the lowest first.
abbrev pub byte_bits : Bool → ℕ → List ℕ
byte_bits true b =
    b / 128 % 2
    ∷ b / 64 % 2
    ∷ b / 32 % 2
    ∷ b / 16 % 2
    ∷ b / 8 % 2
    ∷ b / 4 % 2
    ∷ b / 2 % 2
    ∷ b % 2
    ∷ []
byte_bits false b =
    b % 2
    ∷ b / 2 % 2
    ∷ b / 4 % 2
    ∷ b / 8 % 2
    ∷ b / 16 % 2
    ∷ b / 32 % 2
    ∷ b / 64 % 2
    ∷ b / 128 % 2
    ∷ []

abbrev pub flat_bits : Bool → List ℕ → List ℕ
flat_bits order [] = []
flat_bits order (b ∷ bs) = byte_bits order b ++ flat_bits order bs

-- Of the current byte the first `bit_offset` bits are used and the last `margin` are left out.
abbrev pub pending_from : Bool → List ℕ → ℕ → ℕ → List ℕ
pending_from order [] offset margin = []
pending_from order (b ∷ bs) offset margin =
    take (8 - offset - margin) (drop offset (byte_bits order b)) ++ flat_bits order bs

unfoldable pub pending : InputStream → List ℕ
pending s = pending_from s.endianness.bit_big (drop s.index s.input) s.bit_offset s.margin

-- The first bit is the highest, continuing from `acc`.
abbrev pub value_big : ℕ → List ℕ → ℕ
value_big acc [] = acc
value_big acc (b ∷ bs) = value_big (acc * 2 + b) bs

-- The first bit is the lowest.
abbrev pub value_little : List ℕ → ℕ
value_little [] = 0
value_little (b ∷ bs) = b + value_little bs * 2

abbrev pub IsBytes : List ℕ → Type 0
IsBytes [] = Unit {0}
IsBytes (b ∷ bs) = (b < 256) × IsBytes bs

-- The stream's own consistency: the fields describe a position inside a chunk of bytes that is
-- shorter than 2 ^ 31.
pub record IsValid (s : InputStream) : Type 0 where
  pub same_length : length s.input ≡ s.length
  pub bytes : IsBytes s.input
  pub inside : s.index ≤ s.length
  pub in_byte : s.bit_offset + s.margin < 8
  pub at_end : s.index ≡ s.length → s.bit_offset + s.margin ≡ 0
  pub small : s.length < 2 ^ 31

pub pending_from_start :
    (order : Bool) (bs : List ℕ) → pending_from order bs 0 0 ≡ flat_bits order bs
pending_from_start true [] = refl
pending_from_start true (b ∷ bs) = refl
pending_from_start false [] = refl
pending_from_start false (b ∷ bs) = refl

module _ {ℓ} {A : Type ℓ} where
  pub take-add : (m n : ℕ) (xs : List A) → take (m + n) xs ≡ take m xs ++ take n (drop m xs)
  take-add zero n xs = let e : zero + n ≡ n = omega arith in rw e
  take-add (suc m) zero [] = let e : suc m + 0 ≡ suc m = omega arith in rw e
  take-add (suc m) (suc n) [] = let e : suc m + suc n ≡ suc (m + suc n) = omega arith in rw e
  take-add (suc m) n (x ∷ xs) =
      let e : suc m + n ≡ suc (m + n) = omega arith in
      rw e (ap (λ (t : List A). x ∷ t) (take-add m n xs))

  pub drop-add : (m n : ℕ) (xs : List A) → drop n (drop m xs) ≡ drop (m + n) xs
  drop-add zero n xs = let e : zero + n ≡ n = omega arith in rw e
  drop-add (suc m) zero [] = let e : suc m + 0 ≡ suc m = omega arith in rw e
  drop-add (suc m) (suc n) [] = let e : suc m + suc n ≡ suc (m + suc n) = omega arith in rw e
  drop-add (suc m) n (x ∷ xs) =
      let e : suc m + n ≡ suc (m + n) = omega arith in rw e (drop-add m n xs)

  pub take-append :
      (xs ys : List A) (n : ℕ) → length xs ≤ n → take n (xs ++ ys) ≡ xs ++ take (n - length xs) ys
  take-append [] ys n h = let e : n - 0 ≡ n = omega arith in rw e
  take-append (x ∷ xs) ys zero h = absurd (omega arith)
  take-append (x ∷ xs) ys (suc n) h =
      let e : suc n - suc (length xs) ≡ n - length xs = omega arith in
      rw e (ap (λ (t : List A). x ∷ t) (take-append xs ys n (omega arith)))

  pub take-append_left : (xs ys : List A) (n : ℕ) → n ≤ length xs → take n (xs ++ ys) ≡ take n xs
  take-append_left [] ys zero h = refl
  take-append_left [] ys (suc n) h = absurd (omega arith)
  take-append_left (x ∷ xs) ys zero h = refl
  take-append_left (x ∷ xs) ys (suc n) h =
      ap (λ (t : List A). x ∷ t) (take-append_left xs ys n (omega arith))

  pub take_all : (xs : List A) → take (length xs) xs ≡ xs
  take_all [] = refl
  take_all (x ∷ xs) = ap (λ (t : List A). x ∷ t) (take_all xs)

  pub take-replicate : (k n : ℕ) (a : A) → k ≤ n → take k (replicate n a) ≡ replicate k a
  take-replicate zero n a h = refl
  take-replicate (suc k) zero a h = absurd (omega arith)
  take-replicate (suc k) (suc n) a h =
      ap (λ (t : List A). a ∷ t) (take-replicate k n a (omega arith))

  pub drop-append :
      (xs ys : List A) (n : ℕ) → length xs ≤ n → drop n (xs ++ ys) ≡ drop (n - length xs) ys
  drop-append [] ys n h = let e : n - 0 ≡ n = omega arith in rw e
  drop-append (x ∷ xs) ys zero h = absurd (omega arith)
  drop-append (x ∷ xs) ys (suc n) h =
      let e : suc n - suc (length xs) ≡ n - length xs = omega arith in
      rw e (drop-append xs ys n (omega arith))

pub value_big-acc :
    (acc : ℕ) (bs : List ℕ) → value_big acc bs ≡ acc * 2 ^ length bs + value_big 0 bs
value_big-acc acc [] = omega arith
value_big-acc acc (b ∷ bs) = omega (
  arith,
  pow-suc 2 (length bs),
  ap (λ (t : ℕ). acc * t) (pow-suc 2 (length bs)),
  value_big-acc (acc * 2 + b) bs,
  value_big-acc (0 * 2 + b) bs,
)

pub value_little-append :
    (xs ys : List ℕ) → value_little (xs ++ ys) ≡ value_little xs + value_little ys * 2 ^ length xs
value_little-append [] ys = omega arith
value_little-append (x ∷ xs) ys =
    omega (
      arith,
      ap (λ (t : ℕ). value_little ys * t) (pow-suc 2 (length xs)),
      value_little-append xs ys,
    )

pub value_big-append :
    (acc : ℕ) (xs ys : List ℕ) → value_big acc (xs ++ ys) ≡ value_big (value_big acc xs) ys
value_big-append acc [] ys = refl
value_big-append acc (x ∷ xs) ys = value_big-append (acc * 2 + x) xs ys

pub value_big-zeros : (acc k : ℕ) → value_big acc (replicate k 0) ≡ acc * 2 ^ k
value_big-zeros acc zero = omega arith
value_big-zeros acc (suc k) =
    omega (arith, ap (λ (t : ℕ). acc * t) (pow-suc 2 k), value_big-zeros (acc * 2 + 0) k)

pub value_little-zeros : (k : ℕ) → value_little (replicate k 0) ≡ 0
value_little-zeros zero = refl
value_little-zeros (suc k) = omega (arith, value_little-zeros k)
