-- ===== src/SparseArray/Entries.antt =====
-- Lists of entries with different numbers, and how many of them there can be.
use hammer.Prelude.{
  ℕ, zero, suc, ◌≤◌, ◌<◌, ◌≡◌, ◌≢◌, refl, sym, subst, ap, ◌∙◌, true, false, none, some, List, [],
  ◌∷◌, ◌++◌, arith, length, get_elem?, ◌==◌, ◌⊎◌, equal_or_not, inl, inr, if◌then◌else◌,
}
use hammer.SparseArray.Represents.{IsFresh, IsDistinct, put, find}

module _ {ℓ} {A : Type ℓ} where
  pub found_or_IsFresh :
      (n : ℕ) (es : List (ℕ × A))
      → ((j : ℕ) × (v : A) × (get_elem? es j ≡ some (n, v))) ⊎ IsFresh n es
  found_or_IsFresh n [] = inr tt
  found_or_IsFresh n ((k, v) ∷ es) = elim (equal_or_not n k) [
    | inl e ↦ inl (0, v, rw e refl)
    | inr ne ↦ elim (found_or_IsFresh n es) [
      | inl r ↦ inl (suc r.0, r.1, r.2)
      | inr fresh ↦ inr (ne, fresh)
    ]
  ]

  pub fresh-ne :
      (n : ℕ) (es : List (ℕ × A)) (j : ℕ) {k : ℕ} {v : A}
      → IsFresh n es
      → get_elem? es j ≡ some (k, v)
      → n ≢ k
  fresh-ne n [] j h e = absurd (cc)
  fresh-ne n ((k, v) ∷ es) zero h e = λ f. h.0 (cc)
  fresh-ne n ((k, v) ∷ es) (suc j) h e = fresh-ne n es j h.1 e

  pub put-fresh :
      (n : ℕ) (w : A) (es : List (ℕ × A)) → IsFresh n es → put n w es ≡ es ++ (n, w) ∷ []
  put-fresh n w [] h = refl
  put-fresh n w ((k, v) ∷ es) h =
      let differ : (k == n) ≡ false = ground (arith, h.0) in rw (differ, put-fresh n w es h.1) refl

  pub IsFresh-put :
      (m n : ℕ) (w : A) (es : List (ℕ × A)) → m ≢ n → IsFresh m es → IsFresh m (put n w es)
  IsFresh-put m n w [] ne h = (ne, tt)
  IsFresh-put m n w ((k, v) ∷ es) ne h = elim (equal_or_not k n) [
    | inl e ↦ (let same : (k == n) ≡ true = ground arith in rw same h)
    | inr d ↦
        (let differ : (k == n) ≡ false = ground arith in
          rw differ (h.0, IsFresh-put m n w es ne h.1))
  ]

  pub IsDistinct-put : (n : ℕ) (w : A) (es : List (ℕ × A)) → IsDistinct es → IsDistinct (put n w es)
  IsDistinct-put n w [] h = (tt, tt)
  IsDistinct-put n w ((k, v) ∷ es) h = elim (equal_or_not k n) [
    | inl e ↦ (let same : (k == n) ≡ true = ground arith in rw same h)
    | inr d ↦
        (let differ : (k == n) ≡ false = ground arith in
          rw differ (IsFresh-put k n w es d h.0, IsDistinct-put n w es h.1))
  ]

  -- The entries after a set of a number that there is.
  pub get_elem?-put :
      (n : ℕ) (w : A) (es : List (ℕ × A)) (i j : ℕ) {u v : A} {k : ℕ}
      → IsDistinct es
      → get_elem? es i ≡ some (n, u)
      → get_elem? (put n w es) j ≡ some (k, v)
      → ((j ≡ i) × (k ≡ n) × (v ≡ w)) ⊎ ((get_elem? es j ≡ some (k, v)) × (k ≢ n))
  get_elem?-put n w [] i j d a b = absurd (cc)
  get_elem?-put n w ((k', v') ∷ es) zero zero d a b =
      let here : k' ≡ n = cc in
      let same : (k' == n) ≡ true = ground arith in let e = rw same at b in inl (refl, cc, cc)
  get_elem?-put n w ((k', v') ∷ es) zero (suc j) {k = k} d a b =
      let here : k' ≡ n = cc in
      let same : (k' == n) ≡ true = ground arith in
      let other : k' ≢ k = fresh-ne k' es j d.0 (rw same at b) in
      inr (rw same at b, λ e. other (here ∙ sym e))
  get_elem?-put n w ((k', v') ∷ es) (suc i) zero d a b =
      let other : k' ≢ n = fresh-ne k' es i d.0 a in
      let differ : (k' == n) ≡ false = ground arith in
      let e : some (k', v') ≡ some (_, _) = rw differ at b in inr (e, λ f. other (cc))
  get_elem?-put n w ((k', v') ∷ es) (suc i) (suc j) d a b =
      let other : k' ≢ n = fresh-ne k' es i d.0 a in
      let differ : (k' == n) ≡ false = ground arith in
      elim (get_elem?-put n w es i j d.1 a (rw differ at b)) [
        | inl h ↦ inl (ap suc h.0, h.1, h.2)
        | inr h ↦ inr h
      ]

  pub length-put :
      (n : ℕ) (w : A) (es : List (ℕ × A)) (i : ℕ) {u : A}
      → get_elem? es i ≡ some (n, u)
      → length (put n w es) ≡ length es
  length-put n w [] i e = absurd (cc)
  length-put n w ((k, v) ∷ es) zero e =
      let same : (k == n) ≡ true = (let here : k ≡ n = cc in ground arith) in rw same refl
  length-put n w ((k, v) ∷ es) (suc i) e = elim (equal_or_not k n) [
    | inl f ↦ (let same : (k == n) ≡ true = ground arith in rw same refl)
    | inr d ↦
        (let differ : (k == n) ≡ false = ground arith in rw differ (ap suc (length-put n w es i e)))
  ]

  -- The entries without one number.
  remove : ℕ → List (ℕ × A) → List (ℕ × A)
  remove n [] = []
  remove n ((k, v) ∷ es) = if k == n then remove n es else (k, v) ∷ remove n es

  abbrev pub AreBelow : ℕ → List (ℕ × A) → Type 0
  AreBelow n [] = Unit {0}
  AreBelow n ((k, v) ∷ es) = (k < n) × AreBelow n es

  IsFresh-remove : (m n : ℕ) (es : List (ℕ × A)) → IsFresh m es → IsFresh m (remove n es)
  unfolding remove
  IsFresh-remove m n [] h = tt
  IsFresh-remove m n ((k, v) ∷ es) h = elim (equal_or_not k n) [
    | inl e ↦ (let same : (k == n) ≡ true = ground arith in rw same (IsFresh-remove m n es h.1))
    | inr d ↦
        (let differ : (k == n) ≡ false = ground arith in rw differ (h.0, IsFresh-remove m n es h.1))
  ]

  IsDistinct-remove : (n : ℕ) (es : List (ℕ × A)) → IsDistinct es → IsDistinct (remove n es)
  unfolding remove
  IsDistinct-remove n [] h = tt
  IsDistinct-remove n ((k, v) ∷ es) h = elim (equal_or_not k n) [
    | inl e ↦ (let same : (k == n) ≡ true = ground arith in rw same (IsDistinct-remove n es h.1))
    | inr d ↦
        (let differ : (k == n) ≡ false = ground arith in
          rw differ (IsFresh-remove k n es h.0, IsDistinct-remove n es h.1))
  ]

  AreBelow-remove : (n : ℕ) (es : List (ℕ × A)) → AreBelow (suc n) es → AreBelow n (remove n es)
  unfolding remove
  AreBelow-remove n [] h = tt
  AreBelow-remove n ((k, v) ∷ es) h = elim (equal_or_not k n) [
    | inl e ↦ (let same : (k == n) ≡ true = ground arith in rw same (AreBelow-remove n es h.1))
    | inr d ↦
        (let differ : (k == n) ≡ false = ground arith in
          rw differ (omega (arith, h.0, d), AreBelow-remove n es h.1))
  ]

  remove-fresh : (n : ℕ) (es : List (ℕ × A)) → IsFresh n es → remove n es ≡ es
  unfolding remove
  remove-fresh n [] h = refl
  remove-fresh n ((k, v) ∷ es) h =
      let differ : (k == n) ≡ false = ground (arith, h.0) in rw (differ, remove-fresh n es h.1) refl

  length-remove :
      (n : ℕ) (es : List (ℕ × A)) → IsDistinct es → length es ≤ suc (length (remove n es))
  unfolding remove
  length-remove n [] h = omega arith
  length-remove n ((k, v) ∷ es) h = elim (equal_or_not k n) [
    | inl e ↦
        (let same : (k == n) ≡ true = ground arith in
          let gone : remove n es ≡ es = remove-fresh n es (subst (λ m. IsFresh m es) e h.0) in
          rw (same, gone) (omega arith))
    | inr d ↦
        (let differ : (k == n) ≡ false = ground arith in
          rw differ (omega (arith, length-remove n es h.1)))
  ]

  -- There are no more different numbers below `n` than `n`.
  pub length-distinct : (n : ℕ) (es : List (ℕ × A)) → IsDistinct es → AreBelow n es → length es ≤ n
  length-distinct zero [] d h = omega arith
  length-distinct zero ((k, v) ∷ es) d h = absurd (omega (arith, h.0))
  length-distinct (suc n) es d h = omega (
    arith,
    length-remove n es d,
    length-distinct n (remove n es) (IsDistinct-remove n es d) (AreBelow-remove n es h),
  )

  -- Looking an entry up.
  pub find-entry :
      (es : List (ℕ × A)) (j : ℕ) {n : ℕ} {v : A}
      → IsDistinct es
      → get_elem? es j ≡ some (n, v)
      → find n es ≡ some v
  find-entry [] j d e = absurd (cc)
  find-entry ((k, v') ∷ es) zero {n = n} d e =
      let here : k ≡ n = cc in let same : (k == n) ≡ true = ground arith in rw same (cc)
  find-entry ((k, v') ∷ es) (suc j) {n = n} d e =
      let other : k ≢ n = fresh-ne k es j d.0 e in
      let differ : (k == n) ≡ false = ground arith in rw differ (find-entry es j d.1 e)

  pub find-fresh : (n : ℕ) (es : List (ℕ × A)) → IsFresh n es → find n es ≡ none
  find-fresh n [] h = refl
  find-fresh n ((k, v) ∷ es) h =
      let differ : (k == n) ≡ false = ground (arith, h.0) in rw differ (find-fresh n es h.1)

  pub find-put_self : (n : ℕ) (w : A) (es : List (ℕ × A)) → find n (put n w es) ≡ some w
  find-put_self n w [] = let same : (n == n) ≡ true = ground arith in rw same refl
  find-put_self n w ((k, v) ∷ es) = elim (equal_or_not k n) [
    | inl e ↦ (let same : (k == n) ≡ true = ground arith in rw (same, same) refl)
    | inr d ↦
        (let differ : (k == n) ≡ false = ground arith in rw (differ, differ) (find-put_self n w es))
  ]

  pub find-put_other :
      (m n : ℕ) (w : A) (es : List (ℕ × A)) → m ≢ n → find m (put n w es) ≡ find m es
  find-put_other m n w [] h = let differ : (n == m) ≡ false = ground (arith, h) in rw differ refl
  find-put_other m n w ((k, v) ∷ es) h = elim (equal_or_not k n) [
    | inl e ↦
        (let same : (k == n) ≡ true = ground arith in
          let differ : (k == m) ≡ false = ground (arith, h) in rw (same, differ) refl)
    | inr d ↦
        (let differ : (k == n) ≡ false = ground arith in
          rw differ (ap (λ t. if k == m then some v else t) (find-put_other m n w es h)))
  ]

  pub put-some : (n : ℕ) (w : A) (es : List (ℕ × A)) → 0 < length (put n w es)
  put-some n w [] = omega arith
  put-some n w ((k, v) ∷ es) = elim (equal_or_not k n) [
    | inl e ↦ (let same : (k == n) ≡ true = ground arith in rw same (omega arith))
    | inr d ↦ (let differ : (k == n) ≡ false = ground arith in rw differ (omega arith))
  ]
