-- ===== src/Prelude/Digits.antt =====
-- The bits of a number one by one, and `&` and `|` with the mask of a single bit.
use native.Mathlib.Nat.{pow-suc}
use native.Mathlib.Omega.{arith}
use Prim.Native.Nat.{ℕ, zero, suc, ◌+◌, ◌-◌, ◌*◌, ◌/◌, ◌%◌, ◌^◌, ◌<◌, bit_or, bit_and}
use mathlib.Core.Path.{◌≡◌, refl, ap, ◌∙◌}
use mathlib.Core.Logic.{◌≢◌}
use hammer.Prelude.Bitwise.{
  two_pow_suc, and_zero, or_step, or_zero, and_step, two_pow_pos, two_pow_mono,
}

-- Bit `k` of a number.
abbrev pub digit : ℕ → ℕ → ℕ
digit zero w = w % 2
digit (suc k) w = digit k (w / 2)

pub digit-bound : (k w : ℕ) → digit k w < 2
digit-bound zero w = omega arith
digit-bound (suc k) w = digit-bound k (w / 2)

two_pow_less : (k n : ℕ) → k < n → 2 ^ k < 2 ^ n
two_pow_less k n h = omega (arith, pow-suc 2 k, two_pow_pos k, two_pow_mono (suc k) n h)

pub bit_and-digit : (k w : ℕ) → bit_and w (2 ^ k) ≡ digit k w * 2 ^ k
bit_and-digit zero w = ground (arith, and_step w 1, and_zero (w / 2))
bit_and-digit (suc k) w = ground (
  arith,
  pow-suc 2 k,
  two_pow_suc (digit k (w / 2)) k,
  and_step w (2 ^ suc k),
  bit_and-digit k (w / 2),
)

pub digit-bit_or_same : (k w : ℕ) → digit k (bit_or w (2 ^ k)) ≡ 1
digit-bit_or_same zero w = ground (arith, or_step w 1)
digit-bit_or_same (suc k) w =
    let e : bit_or w (2 ^ suc k) / 2 ≡ bit_or (w / 2) (2 ^ k) =
      ground (arith, pow-suc 2 k, or_step w (2 ^ suc k)) in
    ap (digit k) e ∙ digit-bit_or_same k (w / 2)

pub digit-bit_or_other : (j k w : ℕ) → j ≢ k → digit j (bit_or w (2 ^ k)) ≡ digit j w
digit-bit_or_other zero zero w h = absurd (h refl)
digit-bit_or_other zero (suc k) w h = ground (arith, pow-suc 2 k, or_step w (2 ^ suc k))
digit-bit_or_other (suc j) zero w h =
    let e : bit_or w 1 / 2 ≡ w / 2 = ground (arith, or_step w 1, or_zero (w / 2)) in ap (digit j) e
digit-bit_or_other (suc j) (suc k) w h =
    let e : bit_or w (2 ^ suc k) / 2 ≡ bit_or (w / 2) (2 ^ k) =
      ground (arith, pow-suc 2 k, or_step w (2 ^ suc k)) in
    ap (digit j) e ∙ digit-bit_or_other j k (w / 2) (λ e. h (ap suc e))

digit-mask : (j n w : ℕ) → j < n → digit j (bit_and w (2 ^ n - 1)) ≡ digit j w
digit-mask j zero w h = absurd (omega arith)
digit-mask zero (suc n) w h = ground (arith, pow-suc 2 n, two_pow_pos n, and_step w (2 ^ suc n - 1))
digit-mask (suc j) (suc n) w h =
    let e : bit_and w (2 ^ suc n - 1) / 2 ≡ bit_and (w / 2) (2 ^ n - 1) =
      ground (arith, pow-suc 2 n, two_pow_pos n, and_step w (2 ^ suc n - 1)) in
    ap (digit j) e ∙ digit-mask j n (w / 2) (omega arith)

clear_step :
    (k n w : ℕ)
    → k < n
    → bit_and w (2 ^ suc n - 1 - 2 ^ suc k) ≡ bit_and (w / 2) (2 ^ n - 1 - 2 ^ k) * 2 + w % 2
clear_step k n w h =
    let less : 2 ^ k < 2 ^ n = two_pow_less k n h in
    let m : (2 ^ suc n - 1 - 2 ^ suc k) / 2 ≡ 2 ^ n - 1 - 2 ^ k =
      omega (arith, pow-suc 2 k, pow-suc 2 n) in
    let r : (2 ^ suc n - 1 - 2 ^ suc k) % 2 ≡ 1 = omega (arith, pow-suc 2 k, pow-suc 2 n) in
    and_step w (2 ^ suc n - 1 - 2 ^ suc k) ∙ rw (m, r) (ground arith)

clear_half :
    (k n w : ℕ)
    → k < n
    → bit_and w (2 ^ suc n - 1 - 2 ^ suc k) / 2 ≡ bit_and (w / 2) (2 ^ n - 1 - 2 ^ k)
clear_half k n w h = omega (arith, clear_step k n w h)

-- `w & ~(1 << k)` on `n` bits.
pub digit-clear_same : (k n w : ℕ) → k < n → digit k (bit_and w (2 ^ n - 1 - 2 ^ k)) ≡ 0
digit-clear_same k zero w h = absurd (omega arith)
digit-clear_same zero (suc n) w h =
    ground (arith, pow-suc 2 n, two_pow_pos n, and_step w (2 ^ suc n - 1 - 1))
digit-clear_same (suc k) (suc n) w h =
    ap (digit k) (clear_half k n w (omega arith)) ∙ digit-clear_same k n (w / 2) (omega arith)

pub digit-clear_other :
    (j k n w : ℕ) → j ≢ k → j < n → k < n → digit j (bit_and w (2 ^ n - 1 - 2 ^ k)) ≡ digit j w
digit-clear_other j k zero w h hj hk = absurd (omega arith)
digit-clear_other zero zero (suc n) w h hj hk = absurd (h refl)
digit-clear_other zero (suc k) (suc n) w h hj hk = omega (arith, clear_step k n w (omega arith))
digit-clear_other (suc j) zero (suc n) w h hj hk =
    let e : bit_and w (2 ^ suc n - 1 - 1) / 2 ≡ bit_and (w / 2) (2 ^ n - 1) =
      ground (arith, pow-suc 2 n, two_pow_pos n, and_step w (2 ^ suc n - 1 - 1)) in
    ap (digit j) e ∙ digit-mask j n (w / 2) (omega arith)
digit-clear_other (suc j) (suc k) (suc n) w h hj hk =
    ap (digit j) (clear_half k n w (omega arith))
    ∙ digit-clear_other j k n (w / 2) (λ e. h (ap suc e)) (omega arith) (omega arith)
