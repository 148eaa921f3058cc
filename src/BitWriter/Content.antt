-- ===== src/BitWriter/Content.antt =====
-- The bits that a writer of src/bitwriter.c holds, in writing order: those of its full bytes, then
-- those already pushed onto the current byte.
use native.Mathlib.Nat.{div-div-eq-div-mul, div-lt_iff_lt-mul, mul-add-div_right}
use hammer.Prelude.{
  ℕ, zero, suc, ◌+◌, ◌-◌, ◌*◌, ◌/◌, ◌%◌, ◌^◌, bit_or, ◌≤◌, ◌<◌, ◌≡◌, refl, sym, ap, ap₂, ◌∙◌, Bool,
  true, false, List, [], ◌∷◌, ◌++◌, arith, length, take, drop, set, two_pow_pos, two_pow_add,
  bit_or-shifted, bit_or-shifted_right, append_assoc, joined-lt,
}
use hammer.BitReader.Pending.{byte_bits, flat_bits, IsBytes}
use hammer.BitWriter.{Writer, push_bits}
use hammer.BitWriter.Digits.{
  bits_high, bits_low, bits_high-add, bits_low-add, number_bits-mod, byte_bits-number,
  bits_high-shifted, bits_low-shifted,
}

-- The `o` bits that have been pushed onto a byte: they are its lowest, or its highest ones.
abbrev pub pushed : Bool → ℕ → ℕ → List ℕ
pushed true o b = bits_high o b
pushed false o b = bits_low o (b / 2 ^ (8 - o))

abbrev pub partial_bits : Bool → ℕ → List ℕ → List ℕ
partial_bits order o [] = []
partial_bits order o (b ∷ bs) = pushed order o b

unfoldable pub content : Writer → List ℕ
content w =
    flat_bits w.flags.bit_big (take w.index w.buf)
    ++ partial_bits w.flags.bit_big w.bit_offset (drop w.index w.buf)

pub flat_bits-append :
    (order : Bool) (xs ys : List ℕ)
    → flat_bits order (xs ++ ys) ≡ flat_bits order xs ++ flat_bits order ys
flat_bits-append order [] ys = refl
flat_bits-append order (x ∷ xs) ys =
    ap (λ t. byte_bits order x ++ t) (flat_bits-append order xs ys)
    ∙ sym (append_assoc (byte_bits order x) (flat_bits order xs) (flat_bits order ys))

pub pushed-zero : (order : Bool) (b : ℕ) → pushed order 0 b ≡ []
pushed-zero true b = refl
pushed-zero false b = refl

pub pushed-full : (order : Bool) (b : ℕ) → pushed order 8 b ≡ byte_bits order b
pushed-full true b = sym (byte_bits-number true b)
pushed-full false b = let e : b / 2 ^ 0 ≡ b = omega arith in rw e (sym (byte_bits-number false b))

-- A number of `count` bits above one of `n` bits, shifted.
div-two_pow : (m k l x : ℕ) → k + l ≡ m → x / 2 ^ k / 2 ^ l ≡ x / 2 ^ m
div-two_pow m k l x e =
    div-div-eq-div-mul x (2 ^ k) (2 ^ l)
    ∙ ap (λ t. x / t) (sym (two_pow_add k l) ∙ ap (λ t. 2 ^ t) e)

above : (n q b : ℕ) → b < 2 ^ n → (q * 2 ^ n + b) / 2 ^ n ≡ q
above n q b h =
    mul-add-div_right (two_pow_pos n) q b
    ∙ (let e : b / 2 ^ n ≡ 0 = grind (arith, two_pow_pos n) in rw e (omega arith))

above_lower : (n l r b : ℕ) → l ≤ n → (r * 2 ^ n + b) / 2 ^ (n - l) ≡ r * 2 ^ l + b / 2 ^ (n - l)
above_lower n l r b h =
    let e : l + (n - l) ≡ n = omega arith in
    let f : r * 2 ^ n ≡ r * 2 ^ l * 2 ^ (n - l) =
      ap (λ t. r * 2 ^ t) (sym e) ∙ ap (λ t. r * t) (two_pow_add l (n - l)) ∙ grind arith in
    rw f (mul-add-div_right (two_pow_pos (n - l)) (r * 2 ^ l) b)

-- A byte with `count` more bits pushed onto it.
module _ (o count b r : ℕ) (hb : b < 256) (hr : r < 2 ^ count) (h : o + count ≤ 8) where
  pub push_big :
      pushed true (o + count) (push_bits true b count r) ≡ pushed true o b ++ bits_high count r
  unfolding push_bits
  push_big =
      let s : bit_or (b * 2 ^ count) r ≡ b * 2 ^ count + r = bit_or-shifted count b r hr in
      number_bits-mod true (o + count) 8 (bit_or (b * 2 ^ count) r) h
      ∙ rw s (bits_high-add o count (b * 2 ^ count + r))
      ∙ ap₂ (λ (s t : List ℕ). s ++ t) (ap (bits_high o) (above count b r hr))
          (bits_high-shifted count count b r (omega arith))

  fits : (r * 2 ^ 8 + b) / 2 ^ count < 256
  fits =
      (div-lt_iff_lt-mul (two_pow_pos count)).1
        (omega (arith, joined-lt count 8 r b hr hb, two_pow_add count 8))

  pub push_little :
      pushed false (o + count) (push_bits false b count r) ≡ pushed false o b ++ bits_low count r
  unfolding push_bits
  push_little =
      let m = r * 2 ^ 8 + b in
      let s : bit_or b (r * 2 ^ 8) ≡ m = bit_or-shifted_right 8 r b hb in
      let small : m / 2 ^ count % 256 ≡ m / 2 ^ count = omega (arith, fits) in
      let shifted : m / 2 ^ count / 2 ^ (8 - (o + count)) ≡ m / 2 ^ (8 - o) =
        div-two_pow (8 - o) count (8 - (o + count)) m (omega arith) in
      let low : bits_low o (m / 2 ^ (8 - o)) ≡ bits_low o (b / 2 ^ (8 - o)) =
        ap (bits_low o) (above_lower 8 o r b (omega arith))
        ∙ bits_low-shifted o o r (b / 2 ^ (8 - o)) (omega arith) in
      let high : m / 2 ^ (8 - o) / 2 ^ o ≡ r =
        div-two_pow 8 (8 - o) o m (omega arith) ∙ above 8 r b hb in
      rw (s, small, shifted) (bits_low-add o count (m / 2 ^ (8 - o)))
      ∙ ap₂ (λ (s t : List ℕ). s ++ t) low (ap (bits_low count) high)

-- A buffer with its current byte replaced.
module _ {ℓ} {A : Type ℓ} where
  pub take-set : (xs : List A) (i : ℕ) (v : A) → take i (set xs i v) ≡ take i xs
  take-set [] i v = refl
  take-set (x ∷ xs) zero v = refl
  take-set (x ∷ xs) (suc i) v = ap (λ (t : List A). x ∷ t) (take-set xs i v)

  pub drop-set :
      (xs : List A) (i : ℕ) (v : A) → i < length xs → drop i (set xs i v) ≡ v ∷ drop (suc i) xs
  drop-set [] i v h = absurd (omega arith)
  drop-set (x ∷ xs) zero v h = refl
  drop-set (x ∷ xs) (suc i) v h = drop-set xs i v (omega arith)

  pub take-suc-set :
      (xs : List A) (i : ℕ) (v : A)
      → i < length xs
      → take (suc i) (set xs i v) ≡ take i xs ++ v ∷ []
  take-suc-set [] i v h = absurd (omega arith)
  take-suc-set (x ∷ xs) zero v h = refl
  take-suc-set (x ∷ xs) (suc i) v h = ap (λ (t : List A). x ∷ t) (take-suc-set xs i v (omega arith))

pub IsBytes-set : (xs : List ℕ) (i v : ℕ) → IsBytes xs → v < 256 → IsBytes (set xs i v)
IsBytes-set [] i v h e = tt
IsBytes-set (x ∷ xs) zero v h e = (e, h.1)
IsBytes-set (x ∷ xs) (suc i) v h e = (h.0, IsBytes-set xs i v h.1 e)
