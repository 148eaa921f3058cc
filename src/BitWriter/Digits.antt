-- ===== src/BitWriter/Digits.antt =====
-- The lowest `n` bits of a number as a list, the highest first or the lowest first.
use native.Mathlib.Nat.{pow-suc, div-div-eq-div-mul}
use hammer.Prelude.{
  ℕ, zero, suc, ◌+◌, ◌*◌, ◌/◌, ◌%◌, ◌^◌, ◌≤◌, ◌<◌, ◌≡◌, refl, sym, ap, ap₂, ◌∙◌, Bool, true, false,
  List, [], ◌∷◌, ◌++◌, arith, length, digit, two_pow_pos,
}
use hammer.BitReader.Pending.{byte_bits, value_big, value_little, value_big-append}

abbrev pub bits_high : ℕ → ℕ → List ℕ
bits_high zero x = []
bits_high (suc n) x = digit n x ∷ bits_high n x

abbrev pub bits_low : ℕ → ℕ → List ℕ
bits_low zero x = []
bits_low (suc n) x = x % 2 ∷ bits_low n (x / 2)

-- In the order of a writer's flags.
abbrev pub number_bits : Bool → ℕ → ℕ → List ℕ
number_bits true n x = bits_high n x
number_bits false n x = bits_low n x

pub length-number_bits : (order : Bool) (n x : ℕ) → length (number_bits order n x) ≡ n
length-number_bits true zero x = refl
length-number_bits true (suc n) x = ap suc (length-number_bits true n x)
length-number_bits false zero x = refl
length-number_bits false (suc n) x = ap suc (length-number_bits false n (x / 2))

pub div-pow_suc : (n x : ℕ) → x / 2 ^ suc n ≡ x / 2 / 2 ^ n
div-pow_suc n x =
    let e : 2 ^ suc n ≡ 2 * 2 ^ n = omega (arith, pow-suc 2 n) in
    ap (λ t. x / t) e ∙ sym (div-div-eq-div-mul x 2 (2 ^ n))

digit-div : (j n x : ℕ) → digit j (x / 2 ^ n) ≡ digit (j + n) x
digit-div j zero x = ap₂ digit (let e : j ≡ j + 0 = omega arith in e) (omega arith)
digit-div j (suc n) x =
    ap (digit j) (div-pow_suc n x)
    ∙ digit-div j n (x / 2)
    ∙ ap (λ k. digit k x) (let e : suc (j + n) ≡ j + suc n = omega arith in e)

pub bits_high-add : (m n x : ℕ) → bits_high (m + n) x ≡ bits_high m (x / 2 ^ n) ++ bits_high n x
bits_high-add zero n x = let e : zero + n ≡ n = omega arith in rw e refl
bits_high-add (suc m) n x =
    let e : suc m + n ≡ suc (m + n) = omega arith in
    rw e (ap₂ (λ d (t : List ℕ). d ∷ t) (sym (digit-div m n x)) (bits_high-add m n x))

pub bits_low-add : (m n x : ℕ) → bits_low (m + n) x ≡ bits_low m x ++ bits_low n (x / 2 ^ m)
bits_low-add zero n x =
    let e : zero + n ≡ n = omega arith in let f : x / 2 ^ 0 ≡ x = omega arith in rw (e, f) refl
bits_low-add (suc m) n x =
    let e : suc m + n ≡ suc (m + n) = omega arith in
    rw (e, div-pow_suc m x) (ap (λ (t : List ℕ). x % 2 ∷ t) (bits_low-add m n (x / 2)))

-- Higher bits do not matter.
half_shifted : (n q x : ℕ) → (q * 2 ^ suc n + x) / 2 ≡ q * 2 ^ n + x / 2
half_shifted n q x = omega (arith, ap (λ (t : ℕ). q * t) (pow-suc 2 n))

even_shifted : (n q x : ℕ) → (q * 2 ^ suc n + x) % 2 ≡ x % 2
even_shifted n q x = omega (arith, ap (λ (t : ℕ). q * t) (pow-suc 2 n))

digit-shifted : (j n q x : ℕ) → j < n → digit j (q * 2 ^ n + x) ≡ digit j x
digit-shifted j zero q x h = absurd (omega arith)
digit-shifted zero (suc n) q x h = even_shifted n q x
digit-shifted (suc j) (suc n) q x h =
    ap (digit j) (half_shifted n q x) ∙ digit-shifted j n q (x / 2) (omega arith)

pub bits_high-shifted : (k n q x : ℕ) → k ≤ n → bits_high k (q * 2 ^ n + x) ≡ bits_high k x
bits_high-shifted zero n q x h = refl
bits_high-shifted (suc k) n q x h =
    ap₂ (λ d (t : List ℕ). d ∷ t) (digit-shifted k n q x h)
      (bits_high-shifted k n q x (omega arith))

pub bits_low-shifted : (k n q x : ℕ) → k ≤ n → bits_low k (q * 2 ^ n + x) ≡ bits_low k x
bits_low-shifted zero n q x h = refl
bits_low-shifted (suc k) zero q x h = absurd (omega arith)
bits_low-shifted (suc k) (suc n) q x h =
    ap₂ (λ d (t : List ℕ). d ∷ t) (even_shifted n q x)
      (ap (bits_low k) (half_shifted n q x) ∙ bits_low-shifted k n q (x / 2) (omega arith))

split : (n x : ℕ) → x / 2 ^ n * 2 ^ n + x % 2 ^ n ≡ x
split n x = grind (arith, two_pow_pos n)

pub number_bits-mod :
    (order : Bool) (k n x : ℕ) → k ≤ n → number_bits order k (x % 2 ^ n) ≡ number_bits order k x
number_bits-mod true k n x h =
    sym (bits_high-shifted k n (x / 2 ^ n) (x % 2 ^ n) h) ∙ ap (bits_high k) (split n x)
number_bits-mod false k n x h =
    sym (bits_low-shifted k n (x / 2 ^ n) (x % 2 ^ n) h) ∙ ap (bits_low k) (split n x)

-- The bits of a number that fits make that number.
value_small-bits_high : (n x : ℕ) → x < 2 ^ n → value_big 0 (bits_high n x) ≡ x
value_small-bits_high zero x h = omega arith
value_small-bits_high (suc n) x h =
    let e : suc n ≡ n + 1 = omega arith in
    let f : x / 2 ^ 1 ≡ x / 2 = omega arith in
    ap (λ k. value_big 0 (bits_high k x)) e
    ∙ ap (value_big 0) (bits_high-add n 1 x)
    ∙ value_big-append 0 (bits_high n (x / 2 ^ 1)) (bits_high 1 x)
    ∙ ap (λ v. value_big v (x % 2 ∷ []))
        (ap (λ t. value_big 0 (bits_high n t)) f
          ∙ value_small-bits_high n (x / 2) (omega (arith, pow-suc 2 n)))
    ∙ omega arith

value_small-bits_low : (n x : ℕ) → x < 2 ^ n → value_little (bits_low n x) ≡ x
value_small-bits_low zero x h = omega arith
value_small-bits_low (suc n) x h =
    omega (arith, value_small-bits_low n (x / 2) (omega (arith, pow-suc 2 n)))

mod_small : (n x : ℕ) → x % 2 ^ n < 2 ^ n
mod_small n x = grind (arith, two_pow_pos n)

pub value_big-bits_high : (n x : ℕ) → value_big 0 (bits_high n x) ≡ x % 2 ^ n
value_big-bits_high n x =
    ap (value_big 0) (sym (number_bits-mod true n n x (omega arith)))
    ∙ value_small-bits_high n (x % 2 ^ n) (mod_small n x)

pub value_little-bits_low : (n x : ℕ) → value_little (bits_low n x) ≡ x % 2 ^ n
value_little-bits_low n x =
    ap value_little (sym (number_bits-mod false n n x (omega arith)))
    ∙ value_small-bits_low n (x % 2 ^ n) (mod_small n x)

-- The bits of a byte are those of a number of eight bits.
module _ (b : ℕ) where
  quarters : (b / 4 ≡ b / 2 / 2) × (b / 8 ≡ b / 2 / 2 / 2) × (b / 16 ≡ b / 2 / 2 / 2 / 2)
  quarters = (omega arith, omega arith, omega arith)

  sixty_fourths :
      (b / 32 ≡ b / 2 / 2 / 2 / 2 / 2)
      × (b / 64 ≡ b / 2 / 2 / 2 / 2 / 2 / 2)
      × (b / 128 ≡ b / 2 / 2 / 2 / 2 / 2 / 2 / 2)
  sixty_fourths = (omega arith, omega arith, omega arith)

pub byte_bits-number : (order : Bool) (b : ℕ) → byte_bits order b ≡ number_bits order 8 b
byte_bits-number true b =
    let (e, f, g) = quarters b in let (p, q, r) = sixty_fourths b in cc (e, f, g, p, q, r)
byte_bits-number false b =
    let (e, f, g) = quarters b in let (p, q, r) = sixty_fourths b in cc (e, f, g, p, q, r)
