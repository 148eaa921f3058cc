-- ===== src/Prelude/Bitwise.antt =====
-- `|`, `^` and `&` on disjoint or masked bits as arithmetic, at every width.
use Prim.Native.Nat.{
  ℕ, zero, suc, ◌+◌, ◌-◌, ◌*◌, ◌/◌, ◌%◌, ◌^◌, ◌≤◌, ◌<◌, bit_or, bit_xor, bit_and, min, max, differ,
  digits, bitwise, bit_or-bitwise, bit_xor-bitwise, bit_and-bitwise,
}
use mathlib.Core.Path.{◌≡◌, refl, ap}
use native.Mathlib.Nat.{pow-suc, one-le-pow, mul-le-mul_right, pow-le-pow_right}
use native.Mathlib.Omega.{arith}

-- The fuel of the digit recursion does not matter once it covers the first number.
module _ (rest : ℕ → ℕ) (digit : ℕ → ℕ → ℕ) where
  digits_enough : (a b k l : ℕ) → a ≤ k → a ≤ l → digits rest digit k a b ≡ digits rest digit l a b
  digits_enough zero b zero zero hk hl = refl
  digits_enough zero b zero (suc l) hk hl = refl
  digits_enough zero b (suc k) zero hk hl = refl
  digits_enough zero b (suc k) (suc l) hk hl = refl
  digits_enough (suc a) b zero l hk hl = absurd (omega arith)
  digits_enough (suc a) b (suc k) zero hk hl = absurd (omega arith)
  digits_enough (suc a) b (suc k) (suc l) hk hl =
      rw (digits_enough (suc a / 2) (b / 2) k l (omega arith) (omega arith))

  bitwise_step :
      (a b : ℕ)
      → bitwise rest digit (suc a) b
        ≡ bitwise rest digit (suc a / 2) (b / 2) * 2 + digit (suc a % 2) (b % 2)
  bitwise_step a b =
      omega (arith, digits_enough (suc a / 2) (b / 2) a (suc a / 2) (omega arith) (omega arith))

pub or_step : (a b : ℕ) → bit_or a b ≡ bit_or (a / 2) (b / 2) * 2 + max (a % 2) (b % 2)
or_step zero b = simp bit_or-bitwise (omega arith)
or_step (suc a) b = simp bit_or-bitwise (bitwise_step (λ y. y) max a b)

differ_zero : (a : ℕ) → differ a 0 ≡ a
differ_zero zero = refl
differ_zero (suc a) = refl

xor_step : (a b : ℕ) → bit_xor a b ≡ bit_xor (a / 2) (b / 2) * 2 + differ (a % 2) (b % 2)
xor_step zero b = simp bit_xor-bitwise (omega arith)
xor_step (suc a) b = simp bit_xor-bitwise (bitwise_step (λ y. y) differ a b)

or_zero_fuel : (n a : ℕ) → a ≤ n → bit_or a 0 ≡ a
or_zero_fuel n zero h = refl
or_zero_fuel zero (suc a) h = absurd (omega arith)
or_zero_fuel (suc n) (suc a) h =
    omega (arith, or_step (suc a) 0, or_zero_fuel n (suc a / 2) (omega arith))

pub or_zero : (a : ℕ) → bit_or a 0 ≡ a
or_zero a = or_zero_fuel a a (omega arith)

add-one-mul : (a p : ℕ) → suc a * p ≡ a * p + p
add-one-mul a p = grind arith

pub two_pow_suc : (q k : ℕ) → q * 2 ^ suc k ≡ q * 2 ^ k * 2
two_pow_suc q k = omega (arith, ap (λ (t : ℕ). q * t) (pow-suc 2 k))

-- `(q << k) | r`, where `r` has `k` bits, is a sum.
pub bit_or-shifted : (k q r : ℕ) → r < 2 ^ k → bit_or (q * 2 ^ k) r ≡ q * 2 ^ k + r
bit_or-shifted zero q r h =
    let e : r ≡ 0 = omega arith in rw e (omega (arith, or_zero_fuel (q * 1) (q * 1)))
bit_or-shifted (suc k) q r h =
    ground
      (arith, two_pow_suc q k, pow-suc 2 k, or_step (q * 2 ^ suc k) r, bit_or-shifted k q (r / 2))

pub bit_or-shifted_right : (k q r : ℕ) → r < 2 ^ k → bit_or r (q * 2 ^ k) ≡ q * 2 ^ k + r
bit_or-shifted_right zero q r h =
    let e : r ≡ 0 = omega arith in
    let zero_or : bit_or 0 (q * 1) ≡ q * 1 = bit_or-bitwise 0 (q * 1) in
    rw e (omega (arith, zero_or))
bit_or-shifted_right (suc k) q r h = ground (
  arith,
  two_pow_suc q k,
  pow-suc 2 k,
  or_step r (q * 2 ^ suc k),
  bit_or-shifted_right k q (r / 2),
)

bit_xor-top : (k q r : ℕ) → r < 2 ^ k → bit_xor (q * 2 ^ k + r) (2 ^ k) ≡ bit_xor q 1 * 2 ^ k + r
bit_xor-top zero q r h =
    let e : r ≡ 0 = omega arith in let f : q * 1 + 0 ≡ q = omega arith in rw (e, f) (omega arith)
bit_xor-top (suc k) q r h = ground (
  arith,
  two_pow_suc q k,
  two_pow_suc (bit_xor q 1) k,
  pow-suc 2 k,
  differ_zero (r % 2),
  xor_step (q * 2 ^ suc k + r) (2 ^ suc k),
  bit_xor-top k q (r / 2),
)

-- `x ^ (1 << k)` flips the top bit of a number of `k + 1` bits.
pub bit_xor-top_clear : (k r : ℕ) → r < 2 ^ k → bit_xor r (2 ^ k) ≡ 2 ^ k + r
bit_xor-top_clear k r h = ground (arith, bit_xor-top k 0 r)

pub bit_xor-top_set : (k r : ℕ) → r < 2 ^ k → bit_xor (2 ^ k + r) (2 ^ k) ≡ r
bit_xor-top_set k r h = ground (arith, bit_xor-top k 1 r)

xor_zero_fuel : (n a : ℕ) → a ≤ n → bit_xor a 0 ≡ a
xor_zero_fuel n zero h = refl
xor_zero_fuel zero (suc a) h = absurd (omega arith)
xor_zero_fuel (suc n) (suc a) h =
    ground (arith, xor_step (suc a) 0, differ_zero (suc a % 2), xor_zero_fuel n (suc a / 2))

pub bit_xor-zero : (a : ℕ) → bit_xor a 0 ≡ a
bit_xor-zero a = xor_zero_fuel a a (omega arith)

pub and_step : (a b : ℕ) → bit_and a b ≡ bit_and (a / 2) (b / 2) * 2 + min (a % 2) (b % 2)
and_step zero b = simp bit_and-bitwise (omega arith)
and_step (suc a) b = simp bit_and-bitwise (bitwise_step (λ y. 0) min a b)

and_zero_fuel : (n a : ℕ) → a ≤ n → bit_and a 0 ≡ 0
and_zero_fuel n zero h = refl
and_zero_fuel zero (suc a) h = absurd (omega arith)
and_zero_fuel (suc n) (suc a) h =
    omega (arith, and_step (suc a) 0, and_zero_fuel n (suc a / 2) (omega arith))

pub and_zero : (a : ℕ) → bit_and a 0 ≡ 0
and_zero a = and_zero_fuel a a (omega arith)

and_low : (k q r : ℕ) → r < 2 ^ k → bit_and (q * 2 ^ k + r) (2 ^ k - 1) ≡ r
and_low zero q r h = rw (and_zero_fuel (q * 1 + r) (q * 1 + r) (omega arith)) (omega arith)
and_low (suc k) q r h = ground (
  arith,
  two_pow_suc q k,
  pow-suc 2 k,
  and_step (q * 2 ^ suc k + r) (2 ^ suc k - 1),
  and_low k q (r / 2),
)

-- `x & ((1 << k) - 1)` keeps the low `k` bits.
pub bit_and-mask : (k a : ℕ) → bit_and a (2 ^ k - 1) ≡ a % 2 ^ k
bit_and-mask k a = ground (arith, one-le-pow k 2, and_low k (a / 2 ^ k) (a % 2 ^ k))

pub two_pow_pos : (k : ℕ) → 0 < 2 ^ k
two_pow_pos k = omega (arith, one-le-pow k 2)

pub two_pow_add : (k l : ℕ) → 2 ^ (k + l) ≡ 2 ^ k * 2 ^ l
two_pow_add k zero = let e : k + 0 ≡ k = omega arith in rw e (omega arith)
two_pow_add k (suc l) =
    let e : k + suc l ≡ suc (k + l) = omega arith in
    rw e (omega (arith, two_pow_suc (2 ^ k) l, pow-suc 2 (k + l), two_pow_add k l))

-- A number of `k` bits before a number of `l` bits is a number of `k + l` bits.
pub joined-lt : (k l a b : ℕ) → a < 2 ^ k → b < 2 ^ l → a * 2 ^ l + b < 2 ^ (k + l)
joined-lt k l a b ha hb =
    omega (arith, two_pow_add k l, mul-le-mul_right (2 ^ l) ha, add-one-mul a (2 ^ l))

pub two_pow_mono : (k l : ℕ) → k ≤ l → 2 ^ k ≤ 2 ^ l
two_pow_mono k l h = pow-le-pow_right (omega arith) h
