-- ===== src/SparseArray/Tests.antt =====
-- A sparse array on concrete nodes, and its laws applied there.
use hammer.Prelude.{ℕ, ◌≡◌, refl, some, List, [], ◌∷◌, arith}
use hammer.BitReader.{◌>>=◌}
use hammer.SparseArray.{
  Node, SparseArray, h_sarray_isset, isset_at, h_sarray_get, write_node, h_sarray_set, sarray_add,
  h_sarray_clear, read_entry, visit_from, sarray_foreach_kv,
}
use hammer.SparseArray.Represents.{put, Represents}
use hammer.SparseArray.Laws.{
  h_sarray_clear-Represents, h_sarray_set-Represents, h_sarray_get-h_sarray_set,
}
use hammer.SparseArray.Foreach.{sarray_foreach_kv_lem}

abbrev node : ℕ → ℕ → ℕ → Node ℕ
node elem index content = record { elem = elem; index = index; content = content }

-- Four nodes as the allocator may give them, then with three numbers set.
abbrev garbage : List (Node ℕ)
garbage = node 7 2 9 ∷ node 1 1 9 ∷ node 0 0 9 ∷ node 3 9 9 ∷ []

abbrev empty : SparseArray ℕ
empty = record { nodes = garbage; capacity = 4; used = 0 }

abbrev filled : SparseArray ℕ
filled = record {
  nodes = node 2 2 12 ∷ node 3 1 9 ∷ node 0 0 10 ∷ node 3 1 11 ∷ [];
  capacity = 4;
  used = 3;
}

three_set :
    (h_sarray_set empty 2 10 >>= (λ a. h_sarray_set a 3 11) >>= (λ a. h_sarray_set a 0 12))
    ≡ some filled
unfolding h_sarray_set h_sarray_isset isset_at write_node sarray_add
three_set = refl

last_not_visited : sarray_foreach_kv filled ≡ some ((2, 10) ∷ (2, 10) ∷ (3, 11) ∷ [])
unfolding sarray_foreach_kv read_entry visit_from
last_not_visited = refl

empty-Represents : Represents empty []
unfolding h_sarray_clear
empty-Represents = h_sarray_clear-Represents empty refl

one :
    (after : SparseArray ℕ) × (h_sarray_set empty 2 10 ≡ some after)
    × Represents after ((2, 10) ∷ [])
    × (after.capacity ≡ 4)
one = h_sarray_set-Represents empty [] 2 10 empty-Represents (omega arith)

two :
    (after : SparseArray ℕ) × (h_sarray_set (one.0) 3 11 ≡ some after)
    × Represents after ((2, 10) ∷ (3, 11) ∷ [])
    × (after.capacity ≡ one.0.capacity)
two = h_sarray_set-Represents (one.0) ((2, 10) ∷ []) 3 11 one.2 (omega (arith, one.3))

h_sarray_set-Represents_example :
    (after : SparseArray ℕ) × (h_sarray_set empty 2 10 ≡ some after)
    × Represents after (put 2 10 [])
    × (after.capacity ≡ 4)
h_sarray_set-Represents_example =
    h_sarray_set-Represents empty [] 2 10 empty-Represents (omega arith)

h_sarray_get-h_sarray_set_example :
    (h_sarray_set empty 2 10 >>= (λ after. h_sarray_get after 3)) ≡ h_sarray_get empty 3
h_sarray_get-h_sarray_set_example =
    h_sarray_get-h_sarray_set empty [] 2 3 10 empty-Represents (omega arith) (omega arith)

sarray_foreach_kv_lem_example : sarray_foreach_kv (two.0) ≡ some ((2, 10) ∷ (2, 10) ∷ [])
sarray_foreach_kv_lem_example =
    sarray_foreach_kv_lem (two.0) ((2, 10) ∷ (3, 11) ∷ []) (two.2) 2 10 ((3, 11) ∷ []) refl
