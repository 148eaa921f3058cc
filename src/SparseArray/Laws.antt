-- ===== src/SparseArray/Laws.antt =====
-- The operations of a sparse array on the list of entries that it represents.
use hammer.Prelude.{
  ℕ, zero, suc, ◌+◌, ◌<◌, ◌≡◌, ◌≢◌, refl, sym, subst, ap, ◌∙◌, Bool, true, false, Option, none,
  some, List, [], ◌∷◌, ◌++◌, arith, length, get_elem?, get_elem?-lt, get_elem?_total, length-append,
  ◌==◌, ◌⊎◌, le_or_lt, equal_or_not, inl, inr, if◌then◌else◌, if_true, if_false, lt→ltb,
  le→ltb_false,
}
use hammer.BitReader.{◌>>=◌}
use hammer.SparseArray.{
  Node, SparseArray, h_sarray_new, h_sarray_isset, isset_at, h_sarray_get, modify, write_node,
  h_sarray_set, sarray_add, h_sarray_clear,
}
use hammer.SparseArray.Fields.{
  field-lt, get_elem?-field, field-get_elem?, field-modify_same, field-modify_ne, field-modify_self,
  length-modify, write_node-inside,
}
use hammer.SparseArray.Represents.{IsFresh, IsDistinct, put, find, IsEntry, Represents}
use hammer.SparseArray.Entries.{
  found_or_IsFresh, fresh-ne, put-fresh, IsDistinct-put, get_elem?-put, length-put, AreBelow,
  length-distinct, find-entry, find-fresh, find-put_self, find-put_other,
}

abbrev pub is_some {ℓ} : {A : Type ℓ} → Option A → Bool
is_some none = false
is_some (some a) = true

module _ {ℓ} {A : Type ℓ} where
  AreBelow-all :
      (n : ℕ) (es : List (ℕ × A))
      → ((j k : ℕ) (v : A) → get_elem? es j ≡ some (k, v) → k < n)
      → AreBelow n es
  AreBelow-all n [] h = tt
  AreBelow-all n ((k, v) ∷ es) h = (h 0 k v refl, AreBelow-all n es (λ j. h (suc j)))

  get_elem?-snoc :
      (es : List (ℕ × A)) (x : ℕ × A) (j : ℕ) {y : ℕ × A}
      → get_elem? (es ++ x ∷ []) j ≡ some y
      → (get_elem? es j ≡ some y) ⊎ ((j ≡ length es) × (y ≡ x))
  get_elem?-snoc [] x zero e = inr (refl, cc)
  get_elem?-snoc [] x (suc j) e = absurd (cc)
  get_elem?-snoc (z ∷ es) x zero e = inl e
  get_elem?-snoc (z ∷ es) x (suc j) e = elim (get_elem?-snoc es x j e) [
    | inl h ↦ inl h
    | inr h ↦ inr (ap suc h.0, h.1)
  ]

  -- Nothing is in a new array or in a cleared one, whatever its nodes hold.
  pub h_sarray_clear-Represents :
      (arr : SparseArray A) → length arr.nodes ≡ arr.capacity → Represents (h_sarray_clear arr) []
  unfolding h_sarray_clear
  h_sarray_clear-Represents arr e = record {
    sized = e;
    counted = refl;
    distinct = tt;
    at = λ j k v f. absurd (ground (arith, f));
  }

  pub h_sarray_new-Represents : (block : List (Node A)) → Represents (h_sarray_new block) []
  unfolding h_sarray_new
  h_sarray_new-Represents block = record {
    sized = refl;
    counted = refl;
    distinct = tt;
    at = λ j k v f. absurd (ground (arith, f));
  }

  module _ (arr : SparseArray A) (es : List (ℕ × A)) (r : Represents arr es) where
    below : (j k : ℕ) (v : A) → get_elem? es j ≡ some (k, v) → k < arr.capacity
    below j k v e =
        omega (arith, field-lt (λ a. a.index) arr.nodes k ((r.at j k v e).index), r.sized)

    isset_at-entry : (n j : ℕ) (v : A) → get_elem? es j ≡ some (n, v) → isset_at arr n j ≡ some true
    unfolding isset_at
    isset_at-entry n j v e =
        let (at, got, elem) = get_elem?-field (λ a. a.elem) arr.nodes j ((r.at j n v e).elem) in
        let used : j < arr.used = omega (arith, get_elem?-lt es j e, r.counted) in
        if_true _ _ _ (lt→ltb j arr.used used)
        ∙ rw got (ap some (let s : (at.elem == n) ≡ true = ground arith in s))

    isset_at-fresh : (n j : ℕ) → IsFresh n es → isset_at arr n j ≡ some false
    unfolding isset_at
    isset_at-fresh n j h = elim (le_or_lt arr.used j) [
      | inl out ↦ if_false _ _ _ (le→ltb_false j arr.used out)
      | inr used ↦
          (let ((k, v), e) = get_elem?_total es j (omega (arith, r.counted)) in
            let (at, got, elem) = get_elem?-field (λ a. a.elem) arr.nodes j ((r.at j k v e).elem) in
            let other : n ≢ k = fresh-ne n es j h e in
            if_true _ _ _ (lt→ltb j arr.used used)
            ∙ rw got (ap some (let s : (at.elem == n) ≡ false = ground arith in s)))
    ]

    -- h_sarray_isset tells whether there is an entry.
    pub h_sarray_isset_lem :
        (n : ℕ) → n < arr.capacity → h_sarray_isset arr n ≡ some (is_some (find n es))
    unfolding h_sarray_isset
    h_sarray_isset_lem n h =
        let (node, got) = get_elem?_total arr.nodes n (omega (arith, r.sized)) in
        if_true _ _ _ (lt→ltb n arr.capacity h)
        ∙ rw got (elim (found_or_IsFresh n es) [
          | inl f ↦
              (let e = r.at f.0 n f.1 f.2 in
                let points : some node.index ≡ some f.0 =
                  sym (field-get_elem? (λ a. a.index) arr.nodes n got) ∙ e.index in
                ap (isset_at arr n) (let i : node.index ≡ f.0 = cc in i)
                ∙ isset_at-entry n f.0 f.1 f.2
                ∙ ap (λ o. some (is_some o)) (sym (find-entry es f.0 r.distinct f.2)))
          | inr fresh ↦
              isset_at-fresh n node.index fresh
              ∙ ap (λ o. some (is_some o)) (sym (find-fresh n es fresh))
        ])

    -- The content of the node `n`, written first.
    module _ (n : ℕ) (w : A) (inside : n < arr.capacity) where
      abbrev content_write : Node A → Node A
      content_write node = record node { content = w }

      abbrev written : SparseArray A
      written = record arr { nodes = modify arr.nodes n content_write }

      written_at :
          (j k : ℕ) (v : A)
          → k ≢ n
          → IsEntry arr.nodes j k v
          → IsEntry (modify arr.nodes n content_write) j k v
      written_at j k v d e = record {
        elem = field-modify_same (λ a. a.elem) arr.nodes n j content_write (λ a. refl) ∙ e.elem;
        index = field-modify_same (λ a. a.index) arr.nodes n k content_write (λ a. refl) ∙ e.index;
        content =
            field-modify_ne (λ a. a.content) arr.nodes n k content_write (λ f. d (sym f))
            ∙ e.content;
      }

      written_here :
          (j k : ℕ) (v u : A)
          → k ≡ n
          → v ≡ w
          → IsEntry arr.nodes j n u
          → IsEntry (modify arr.nodes n content_write) j k v
      written_here j k v u f g e =
          rw (f, g)
            (record {
              elem =
                  field-modify_same (λ a. a.elem) arr.nodes n j content_write (λ a. refl) ∙ e.elem;
              index =
                  field-modify_same (λ a. a.index) arr.nodes n n content_write (λ a. refl)
                  ∙ e.index;
              content =
                  field-modify_self (λ a. a.content) arr.nodes n content_write w
                    (omega (arith, r.sized)) (λ a. refl);
            })

      written-found :
          (i : ℕ) (u : A) → get_elem? es i ≡ some (n, u) → Represents written (put n w es)
      written-found i u e = record {
        sized = length-modify arr.nodes n content_write ∙ r.sized;
        counted = length-put n w es i e ∙ r.counted;
        distinct = IsDistinct-put n w es r.distinct;
        at = λ j k v f. elim (get_elem?-put n w es i j r.distinct e f) [
          | inl h ↦ rw h.0 (written_here i k v u h.1 h.2 (r.at i n u e))
          | inr h ↦ written_at j k v h.1 (r.at j k v h.0)
        ];
      }

      written-fresh : IsFresh n es → Represents written es
      written-fresh h = record {
        sized = length-modify arr.nodes n content_write ∙ r.sized;
        counted = r.counted;
        distinct = r.distinct;
        at = λ j k v f. written_at j k v (λ g. fresh-ne n es j h f (sym g)) (r.at j k v f);
      }

      -- There is room for a new entry, since the numbers of the entries are different.
      room : IsFresh n es → arr.used < arr.capacity
      room h = omega (
        arith,
        length-distinct arr.capacity ((n, w) ∷ es) (h, r.distinct)
            (inside, AreBelow-all arr.capacity es below),
        r.counted,
      )

      abbrev elem_write : Node A → Node A
      elem_write node = record node { elem = n }

      abbrev index_write : Node A → Node A
      index_write node = record node { index = arr.used }

      abbrev added : SparseArray A
      added = record written {
        nodes = modify (modify written.nodes arr.used elem_write) n index_write;
        used = arr.used + 1;
      }

      added_at :
          (j k : ℕ) (v : A)
          → j ≢ arr.used
          → k ≢ n
          → IsEntry written.nodes j k v
          → IsEntry added.nodes j k v
      added_at j k v d d' e =
          let nodes = modify written.nodes arr.used elem_write in
          record {
            elem =
                field-modify_same (λ a. a.elem) nodes n j index_write (λ a. refl)
                ∙ field-modify_ne (λ a. a.elem) written.nodes arr.used j elem_write (λ f. d (sym f))
                ∙ e.elem;
            index =
                field-modify_ne (λ a. a.index) nodes n k index_write (λ f. d' (sym f))
                ∙ field-modify_same (λ a. a.index) written.nodes arr.used k elem_write (λ a. refl)
                ∙ e.index;
            content =
                field-modify_same (λ a. a.content) nodes n k index_write (λ a. refl)
                ∙ field-modify_same (λ a. a.content) written.nodes arr.used k elem_write (λ a. refl)
                ∙ e.content;
          }

      added_here : arr.used < arr.capacity → IsEntry added.nodes arr.used n w
      added_here h =
          let nodes = modify written.nodes arr.used elem_write in
          let size : length written.nodes ≡ arr.capacity =
            length-modify arr.nodes n content_write ∙ r.sized in
          let size' : length nodes ≡ arr.capacity =
            length-modify written.nodes arr.used elem_write ∙ size in
          record {
            elem =
                field-modify_same (λ a. a.elem) nodes n arr.used index_write (λ a. refl)
                ∙ field-modify_self (λ a. a.elem) written.nodes arr.used elem_write n
                    (omega (arith, size)) (λ a. refl);
            index =
                field-modify_self (λ a. a.index) nodes n index_write arr.used (omega (arith, size'))
                  (λ a. refl);
            content =
                field-modify_same (λ a. a.content) nodes n n index_write (λ a. refl)
                ∙ field-modify_same (λ a. a.content) written.nodes arr.used n elem_write (λ a. refl)
                ∙ field-modify_self (λ a. a.content) arr.nodes n content_write w
                    (omega (arith, r.sized)) (λ a. refl);
          }

      added-Represents : IsFresh n es → Represents added (put n w es)
      added-Represents h = rw (put-fresh n w es h) (record {
        sized =
            length-modify (modify written.nodes arr.used elem_write) n index_write
            ∙ length-modify written.nodes arr.used elem_write
            ∙ length-modify arr.nodes n content_write
            ∙ r.sized;
        counted = omega (arith, length-append es ((n, w) ∷ []), r.counted);
        distinct = subst IsDistinct (put-fresh n w es h) (IsDistinct-put n w es r.distinct);
        at = λ j k v f. elim (get_elem?-snoc es (n, w) j f) [
          | inl g ↦
              added_at j k v (λ e. omega (arith, e, get_elem?-lt es j g, r.counted))
                (λ e. fresh-ne n es j h g (sym e))
                (written_at j k v (λ e. fresh-ne n es j h g (sym e)) (r.at j k v g))
          | inr g ↦
              (let at_end : j ≡ arr.used = omega (arith, g.0, r.counted) in
                rw (at_end, ap (λ p. p.0) g.1, ap (λ p. p.1) g.1) (added_here (room h)))
        ];
      })

      sarray_add-added : arr.used < arr.capacity → sarray_add arr.used n written ≡ some added
      unfolding sarray_add
      sarray_add-added h =
          let size : length written.nodes ≡ arr.capacity =
            length-modify arr.nodes n content_write ∙ r.sized in
          let size' : length (modify written.nodes arr.used elem_write) ≡ arr.capacity =
            length-modify written.nodes arr.used elem_write ∙ size in
          rw
            (
              write_node-inside written.nodes arr.used elem_write (omega (arith, size)),
              write_node-inside (modify written.nodes arr.used elem_write) n index_write
                  (omega (arith, size')),
            )
            refl

      set-isset :
          (b : Bool)
          → h_sarray_isset written n ≡ some b
          → h_sarray_set arr n w ≡ (if b then some written else sarray_add arr.used n written)
      unfolding h_sarray_set
      set-isset b e =
          let write : write_node arr.nodes n content_write ≡ some written.nodes =
            write_node-inside arr.nodes n content_write (omega (arith, r.sized)) in
          if_true _ _ _ (lt→ltb n arr.capacity inside) ∙ rw (write, e) refl

  -- The numbers of the entries are below the capacity.
  pub AreBelow-entries :
      (arr : SparseArray A) (es : List (ℕ × A)) → Represents arr es → AreBelow arr.capacity es
  AreBelow-entries arr es r = AreBelow-all arr.capacity es (below arr es r)

  -- h_sarray_set does not fail for a number below the capacity: it changes the entry of that number
  -- or adds one at the end, for which there is always room.
  pub h_sarray_set-Represents :
      (arr : SparseArray A) (es : List (ℕ × A)) (n : ℕ) (w : A)
      → Represents arr es
      → n < arr.capacity
      → (after : SparseArray A) × (h_sarray_set arr n w ≡ some after)
        × Represents after (put n w es)
        × (after.capacity ≡ arr.capacity)
  h_sarray_set-Represents arr es n w r inside = elim (found_or_IsFresh n es) [
    | inl f ↦
        (let new = written arr es r n w inside in
          let represents = written-found arr es r n w inside f.0 f.1 f.2 in
          let isset : h_sarray_isset new n ≡ some true =
            h_sarray_isset_lem new (put n w es) represents n inside
            ∙ ap (λ o. some (is_some o)) (find-put_self n w es) in
          (new, set-isset arr es r n w inside true isset, represents, refl))
    | inr fresh ↦
        (let new = added arr es r n w inside in
          let isset : h_sarray_isset (written arr es r n w inside) n ≡ some false =
            h_sarray_isset_lem (written arr es r n w inside) es
              (written-fresh arr es r n w inside fresh) n inside
            ∙ ap (λ o. some (is_some o)) (find-fresh n es fresh) in
          (
            new,
            set-isset arr es r n w inside false isset
                ∙ sarray_add-added arr es r n w inside (room arr es r n w inside fresh),
            added-Represents arr es r n w inside fresh,
            refl,
          ))
  ]

  -- h_sarray_get finds what there is.
  pub h_sarray_get_lem :
      (arr : SparseArray A) (es : List (ℕ × A)) (n : ℕ)
      → Represents arr es
      → n < arr.capacity
      → h_sarray_get arr n ≡ some (find n es)
  unfolding h_sarray_get
  h_sarray_get_lem arr es n r h =
      let (node, got) = get_elem?_total arr.nodes n (omega (arith, r.sized)) in
      rw (h_sarray_isset_lem arr es r n h, got)
        (elim (found_or_IsFresh n es) [
          | inl f ↦
              (let has : some node.content ≡ some f.1 =
                  sym (field-get_elem? (λ a. a.content) arr.nodes n got)
                  ∙ (r.at f.0 n f.1 f.2).content in
                rw (find-entry es f.0 r.distinct f.2) (ap some has))
          | inr fresh ↦ rw (find-fresh n es fresh) refl
        ])

  -- A number that was set is found with its value, and every other number as before.
  pub h_sarray_get-h_sarray_set :
      (arr : SparseArray A) (es : List (ℕ × A)) (n m : ℕ) (w : A)
      → Represents arr es
      → n < arr.capacity
      → m < arr.capacity
      → (h_sarray_set arr n w >>= (λ after. h_sarray_get after m))
        ≡ (if m == n then some (some w) else h_sarray_get arr m)
  h_sarray_get-h_sarray_set arr es n m w r h h' =
      let (after, returns, represents, same) = h_sarray_set-Represents arr es n w r h in
      ap (λ o. o >>= (λ after. h_sarray_get after m)) returns
      ∙ h_sarray_get_lem after (put n w es) m represents (omega (arith, same))
      ∙ elim (equal_or_not m n) [
        | inl e ↦
            ap some (ap (λ k. find k (put n w es)) e ∙ find-put_self n w es)
            ∙ sym (if_true _ _ (m == n) (ground arith))
        | inr d ↦
            ap some (find-put_other m n w es d)
            ∙ sym (h_sarray_get_lem arr es m r h')
            ∙ sym (if_false _ _ (m == n) (ground arith))
      ]
