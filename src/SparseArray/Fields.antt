-- ===== src/SparseArray/Fields.antt =====
-- Fields of the nodes of a sparse array, read and written.
use hammer.Prelude.{
  ℕ, zero, suc, ◌<◌, ◌≡◌, ◌≢◌, refl, ap, Option, none, some, List, [], ◌∷◌, arith, length,
  get_elem?, lt→ltb, if_true,
}
use hammer.SparseArray.{Node, modify, write_node}

module _ {ℓ κ} {A : Type ℓ} {B : Type κ} (g : Node A → B) where
  -- A field of the node `i`.
  abbrev pub field : List (Node A) → ℕ → Option B
  field [] i = none
  field (x ∷ xs) zero = some (g x)
  field (x ∷ xs) (suc i) = field xs i

  pub field-lt : (xs : List (Node A)) (i : ℕ) {b : B} → field xs i ≡ some b → i < length xs
  field-lt [] i e = absurd (ground arith)
  field-lt (x ∷ xs) zero e = omega arith
  field-lt (x ∷ xs) (suc i) e = omega (arith, field-lt xs i e)

  pub get_elem?-field :
      (xs : List (Node A)) (i : ℕ) {b : B}
      → field xs i ≡ some b
      → (a : Node A) × (get_elem? xs i ≡ some a) × (g a ≡ b)
  get_elem?-field [] i e = absurd (ground arith)
  get_elem?-field (x ∷ xs) zero e = (x, refl, cc)
  get_elem?-field (x ∷ xs) (suc i) e = get_elem?-field xs i e

  pub field-get_elem? :
      (xs : List (Node A)) (i : ℕ) {a : Node A} → get_elem? xs i ≡ some a → field xs i ≡ some (g a)
  field-get_elem? [] i e = absurd (ground arith)
  field-get_elem? (x ∷ xs) zero e = cc
  field-get_elem? (x ∷ xs) (suc i) e = field-get_elem? xs i e

  -- A write of another field, of another node, and of the field itself.
  pub field-modify_same :
      (xs : List (Node A)) (i j : ℕ) (f : Node A → Node A)
      → ((a : Node A) → g (f a) ≡ g a)
      → field (modify xs i f) j ≡ field xs j
  field-modify_same [] i j f h = refl
  field-modify_same (x ∷ xs) zero zero f h = ap some (h x)
  field-modify_same (x ∷ xs) zero (suc j) f h = refl
  field-modify_same (x ∷ xs) (suc i) zero f h = refl
  field-modify_same (x ∷ xs) (suc i) (suc j) f h = field-modify_same xs i j f h

  pub field-modify_ne :
      (xs : List (Node A)) (i j : ℕ) (f : Node A → Node A)
      → i ≢ j
      → field (modify xs i f) j ≡ field xs j
  field-modify_ne [] i j f h = refl
  field-modify_ne (x ∷ xs) zero zero f h = absurd (h refl)
  field-modify_ne (x ∷ xs) zero (suc j) f h = refl
  field-modify_ne (x ∷ xs) (suc i) zero f h = refl
  field-modify_ne (x ∷ xs) (suc i) (suc j) f h = field-modify_ne xs i j f (λ e. h (ap suc e))

  pub field-modify_self :
      (xs : List (Node A)) (i : ℕ) (f : Node A → Node A) (b : B)
      → i < length xs
      → ((a : Node A) → g (f a) ≡ b)
      → field (modify xs i f) i ≡ some b
  field-modify_self [] i f b lt h = absurd (omega arith)
  field-modify_self (x ∷ xs) zero f b lt h = ap some (h x)
  field-modify_self (x ∷ xs) (suc i) f b lt h = field-modify_self xs i f b (omega arith) h

module _ {ℓ} {A : Type ℓ} where
  pub length-modify :
      (xs : List (Node A)) (i : ℕ) (f : Node A → Node A) → length (modify xs i f) ≡ length xs
  length-modify [] i f = refl
  length-modify (x ∷ xs) zero f = refl
  length-modify (x ∷ xs) (suc i) f = ap suc (length-modify xs i f)

  pub write_node-inside :
      (nodes : List (Node A)) (i : ℕ) (f : Node A → Node A)
      → i < length nodes
      → write_node nodes i f ≡ some (modify nodes i f)
  unfolding write_node
  write_node-inside nodes i f h = if_true _ _ _ (lt→ltb i (length nodes) h)
