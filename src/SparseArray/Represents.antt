-- ===== src/SparseArray/Represents.antt =====
-- The list of entries that a sparse array stands for, and why there is always room for another.
use hammer.Prelude.{
  ℕ, ◌≡◌, ◌≢◌, Option, none, some, List, [], ◌∷◌, length, get_elem?, ◌==◌, if◌then◌else◌,
}
use hammer.SparseArray.{Node, SparseArray}
use hammer.SparseArray.Fields.{field}

module _ {ℓ} {A : Type ℓ} where
  -- A number that no entry has.
  abbrev pub IsFresh : ℕ → List (ℕ × A) → Type 0
  IsFresh n [] = Unit {0}
  IsFresh n ((k, v) ∷ es) = (n ≢ k) × IsFresh n es

  abbrev pub IsDistinct : List (ℕ × A) → Type 0
  IsDistinct [] = Unit {0}
  IsDistinct ((k, v) ∷ es) = IsFresh k es × IsDistinct es

  -- The entries after a set: in place if there is one, at the end if not.
  abbrev pub put : ℕ → A → List (ℕ × A) → List (ℕ × A)
  put n w [] = (n, w) ∷ []
  put n w ((k, v) ∷ es) = if k == n then (k, w) ∷ es else (k, v) ∷ put n w es

  abbrev pub find : ℕ → List (ℕ × A) → Option A
  find n [] = none
  find n ((k, v) ∷ es) = if k == n then some v else find n es

-- Entry `j` of the list: node `j` has its number, and the node of that number points back and has
-- its content.
pub record IsEntry {ℓ} {A : Type ℓ} (nodes : List (Node A)) (j k : ℕ) (v : A) : Type ℓ where
  pub elem : field (λ a. a.elem) nodes j ≡ some k
  pub index : field (λ a. a.index) nodes k ≡ some j
  pub content : field (λ a. a.content) nodes k ≡ some v

pub record Represents {ℓ} {A : Type ℓ} (arr : SparseArray A) (entries : List (ℕ × A)) : Type ℓ where
  pub sized : length arr.nodes ≡ arr.capacity
  pub counted : length entries ≡ arr.used
  pub distinct : IsDistinct entries
  pub at : (j k : ℕ) (v : A) → get_elem? entries j ≡ some (k, v) → IsEntry arr.nodes j k v
