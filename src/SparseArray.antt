-- ===== src/SparseArray.antt =====
-- Model of the sparse arrays of src/internal.h and src/datastructures.c.
--
-- The nodes are an array that is never initialised: h_sarray_new is handed the nodes that the
-- allocator happens to give. `none` is an access outside the nodes or a failed assertion.
pub mod Fields
pub mod Represents
pub mod Entries
pub mod Laws
pub mod Foreach
mod Tests
use hammer.Prelude.{
  ℕ, zero, suc, ◌+◌, Bool, true, false, ◌&&◌, Option, none, some, List, [], ◌∷◌, length, get_elem?,
  ltb, ◌==◌, if◌then◌else◌,
}
use hammer.BitReader.{◌>>=◌}

-- HSArrayNode: `elem` belongs to the position of the node, `index` and `content` to its number.
pub record Node {ℓ} (A : Type ℓ) : Type ℓ where
  pub elem : ℕ
  pub index : ℕ
  pub content : A

pub record SparseArray {ℓ} (A : Type ℓ) : Type ℓ where
  pub nodes : List (Node A)
  pub capacity : ℕ
  pub used : ℕ

module _ {ℓ} {A : Type ℓ} where
  unfoldable pub h_sarray_new : List (Node A) → SparseArray A
  h_sarray_new block = record { nodes = block; capacity = length block; used = 0 }

  -- The test of the node that `n` points to; `&&` leaves it out where the index is out of use.
  unfoldable pub isset_at : SparseArray A → ℕ → ℕ → Option Bool
  isset_at arr n index =
      if ltb index arr.used
      then (do at ← get_elem? arr.nodes index; some (at.elem == n))
      else some false

  unfoldable pub h_sarray_isset : SparseArray A → ℕ → Option Bool
  h_sarray_isset arr n =
      if ltb n arr.capacity
      then (do node ← get_elem? arr.nodes n; isset_at arr n node.index)
      else none

  unfoldable pub h_sarray_get : SparseArray A → ℕ → Option (Option A)
  h_sarray_get arr n = do
    isset ← h_sarray_isset arr n
    node ← get_elem? arr.nodes n
    some (if isset then some node.content else none)

  abbrev pub modify : List (Node A) → ℕ → (Node A → Node A) → List (Node A)
  modify [] i f = []
  modify (x ∷ xs) zero f = f x ∷ xs
  modify (x ∷ xs) (suc i) f = x ∷ modify xs i f

  -- A write of a field of the node `i`.
  unfoldable pub write_node : List (Node A) → ℕ → (Node A → Node A) → Option (List (Node A))
  write_node nodes i f = if ltb i (length nodes) then some (modify nodes i f) else none

  -- The last lines of h_sarray_set.
  unfoldable pub sarray_add : ℕ → ℕ → SparseArray A → Option (SparseArray A)
  sarray_add used n arr = do
    nodes ← write_node arr.nodes used (λ node. record node { elem = n })
    nodes' ← write_node nodes n (λ node. record node { index = used })
    some (record arr { nodes = nodes'; used = used + 1 })

  unfoldable pub h_sarray_set : SparseArray A → ℕ → A → Option (SparseArray A)
  h_sarray_set arr n val =
      if ltb n arr.capacity
      then (do
        nodes ← write_node arr.nodes n (λ node. record node { content = val })
        isset ← h_sarray_isset (record arr { nodes = nodes }) n
        if isset
            then some (record arr { nodes = nodes })
            else sarray_add arr.used n (record arr { nodes = nodes }))
      else none

  unfoldable pub h_sarray_clear : SparseArray A → SparseArray A
  h_sarray_clear arr = record arr { used = 0 }

  -- What the loop's variables are set to: the number in the node at `intvar`, and its content.
  unfoldable pub read_entry : SparseArray A → ℕ → Option (ℕ × A)
  read_entry arr intvar = do
    node ← get_elem? arr.nodes intvar
    at ← get_elem? arr.nodes node.elem
    some (node.elem, at.content)

  unfoldable pub visit_from : ℕ → ℕ → ℕ × A → SparseArray A → Option (List (ℕ × A))
  visit_from zero intvar entry arr = some []
  visit_from (suc rounds) intvar entry arr = do
    next ← read_entry arr intvar
    rest ← visit_from rounds (intvar + 1) next arr
    some (entry ∷ rest)

  -- The entries that H_SARRAY_FOREACH_KV runs its body on, where the body leaves the array alone. The
  -- variables are read for the next round before `intvar` is incremented.
  unfoldable pub sarray_foreach_kv : SparseArray A → Option (List (ℕ × A))
  sarray_foreach_kv arr = do first ← read_entry arr 0; visit_from arr.used 0 first arr
