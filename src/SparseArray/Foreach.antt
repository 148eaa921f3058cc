-- ===== src/SparseArray/Foreach.antt =====
-- What H_SARRAY_FOREACH_KV visits: the first entry twice and the last one never.
use hammer.Prelude.{
  ℕ, zero, suc, ◌+◌, ◌≡◌, refl, ap, ap₂, ◌∙◌, some, List, [], ◌∷◌, arith, length, drop, get_elem?,
}
use hammer.SparseArray.{SparseArray, read_entry, visit_from, sarray_foreach_kv}
use hammer.SparseArray.Fields.{get_elem?-field}
use hammer.SparseArray.Represents.{Represents}

-- The entries with `x` before them and without the last.
abbrev pub shifted {ℓ} : {A : Type ℓ} → A → List A → List A
shifted x [] = []
shifted x (y ∷ ys) = x ∷ shifted y ys

module _ {ℓ} {A : Type ℓ} where
  get_elem?-drop :
      (xs : List A) (i : ℕ) {x : A} {rest : List A} → drop i xs ≡ x ∷ rest → get_elem? xs i ≡ some x
  get_elem?-drop [] zero e = absurd (cc)
  get_elem?-drop [] (suc i) e = absurd (cc)
  get_elem?-drop (y ∷ xs) zero e = cc
  get_elem?-drop (y ∷ xs) (suc i) e = get_elem?-drop xs i e

  pub drop-next :
      (xs : List A) (i : ℕ) {x : A} {rest : List A} → drop i xs ≡ x ∷ rest → drop (suc i) xs ≡ rest
  drop-next [] zero e = absurd (cc)
  drop-next [] (suc i) e = absurd (cc)
  drop-next (y ∷ xs) zero e = cc
  drop-next (y ∷ xs) (suc i) e = drop-next xs i e

module _ {ℓ} {A : Type ℓ} (arr : SparseArray A) (es : List (ℕ × A)) (r : Represents arr es) where
  read_entry-at : (j k : ℕ) (v : A) → get_elem? es j ≡ some (k, v) → read_entry arr j ≡ some (k, v)
  unfolding read_entry
  read_entry-at j k v e =
      let entry = r.at j k v e in
      let (node, got, elem) = get_elem?-field (λ a. a.elem) arr.nodes j entry.elem in
      let (at, got', content) = get_elem?-field (λ a. a.content) arr.nodes k entry.content in
      rw (got, elem, got') (ap₂ (λ k v. some (k, v)) refl content)

  visit_from-shifted :
      (i : ℕ) (entry : ℕ × A) (rest : List (ℕ × A))
      → drop i es ≡ rest
      → visit_from (length rest) i entry arr ≡ some (shifted entry rest)
  unfolding visit_from
  visit_from-shifted i entry [] e = refl
  visit_from-shifted i entry ((k, v) ∷ rest) e =
      let next : i + 1 ≡ suc i = omega arith in
      rw
        (
          read_entry-at i k v (get_elem?-drop es i e),
          next,
          visit_from-shifted (suc i) (k, v) rest (drop-next es i e),
        )
        refl

  -- The loop over an array with entries runs its body on the first of them, and then on each but the
  -- last.
  pub sarray_foreach_kv_lem :
      (k : ℕ) (v : A) (rest : List (ℕ × A))
      → es ≡ (k, v) ∷ rest
      → sarray_foreach_kv arr ≡ some ((k, v) ∷ shifted (k, v) rest)
  unfolding sarray_foreach_kv
  sarray_foreach_kv_lem k v rest e =
      let used : arr.used ≡ length ((k, v) ∷ rest) = omega (arith, ap length e, r.counted) in
      rw (read_entry-at 0 k v (ap (λ l. get_elem? l 0) e))
        (ap (λ u. visit_from u 0 (k, v) arr) used ∙ visit_from-shifted 0 (k, v) ((k, v) ∷ rest) e)
