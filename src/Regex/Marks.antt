-- ===== src/Regex/Marks.antt =====
-- The marks of the instructions in src/backends/regex.c, counted: what one write changes.
use hammer.Prelude.{
  ℕ, zero, suc, ◌+◌, ◌*◌, ◌≤◌, ◌≡◌, ◌≢◌, ap, some, List, [], ◌∷◌, arith, length, get_elem?, set,
  replicate, ◌==◌, if◌then◌else◌,
}

abbrev pub total : (ℕ → ℕ) → List ℕ → ℕ
total f [] = 0
total f (x ∷ xs) = f x + total f xs

-- The instructions that have not been seen.
abbrev pub unseen : ℕ → ℕ
unseen v = if v == 0 then 1 else 0

-- The rounds that an instruction may still cost.
abbrev pub cost : ℕ → ℕ
cost v = if v == 0 then 3 else (if v == 1 then 0 else 1)

pub total-set :
    (f : ℕ → ℕ) (xs : List ℕ) (i u : ℕ) {v : ℕ}
    → get_elem? xs i ≡ some v
    → total f (set xs i u) + f v ≡ total f xs + f u
total-set f [] i u e = absurd (cc)
total-set f (x ∷ xs) zero u {v = v} e = let here : f x ≡ f v = ap f (cc) in omega (arith, here)
total-set f (x ∷ xs) (suc i) u e = omega (arith, total-set f xs i u e)

pub total-get_elem? :
    (f : ℕ → ℕ) (xs : List ℕ) (i : ℕ) {v : ℕ} → get_elem? xs i ≡ some v → f v ≤ total f xs
total-get_elem? f [] i e = absurd (cc)
total-get_elem? f (x ∷ xs) zero {v = v} e = let here : f x ≡ f v = ap f (cc) in omega (arith, here)
total-get_elem? f (x ∷ xs) (suc i) e = omega (arith, total-get_elem? f xs i e)

pub total-replicate : (f : ℕ → ℕ) (n v : ℕ) → total f (replicate n v) ≡ n * f v
total-replicate f zero v = omega arith
total-replicate f (suc n) v = grind (arith, total-replicate f n v)

pub cost-unseen : (v : ℕ) → v ≢ 1 → cost v ≡ 1 + 2 * unseen v
cost-unseen v h = ground (arith, h)

pub cost-small : (v : ℕ) → cost v ≤ 3
cost-small v = ground arith

pub total-bound :
    (f : ℕ → ℕ) (xs : List ℕ) (k : ℕ) → ((v : ℕ) → f v ≤ k) → total f xs ≤ k * length xs
total-bound f [] k h = omega arith
total-bound f (x ∷ xs) k h = grind (arith, h x, total-bound f xs k h)

-- What the other instructions add up to.
pub total-others :
    (f : ℕ → ℕ) (xs : List ℕ) (i k : ℕ) {v : ℕ}
    → ((v : ℕ) → f v ≤ k)
    → get_elem? xs i ≡ some v
    → total f xs + k ≤ k * length xs + f v
total-others f [] i k h e = absurd (cc)
total-others f (x ∷ xs) zero k {v = v} h e =
    let here : f x ≡ f v = ap f (cc) in grind (arith, here, total-bound f xs k h)
total-others f (x ∷ xs) (suc i) k h e = grind (arith, h x, total-others f xs i k h e)

pub cost-more : (v : ℕ) → 3 * unseen v ≤ cost v
cost-more v = ground arith

pub unseen-small : (v : ℕ) → unseen v ≤ 1
unseen-small v = ground arith
