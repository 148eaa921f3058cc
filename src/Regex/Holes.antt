-- ===== src/Regex/Holes.antt =====
-- What a part of a compilation adds to a program: the jumps in it stay inside, but for the holes that
-- are still to be patched. All of it is claimed of programs of less than 2 ^ 16 instructions, since
-- an address is a uint16_t.
use hammer.Prelude.{
  ℕ, zero, suc, ◌^◌, ◌≤◌, ◌<◌, ◌≡◌, ◌≢◌, refl, sym, subst, ap, ◌∙◌, some, List, [], ◌∷◌, ◌++◌,
  arith, length, length-append, get_elem?, get_elem?-lt, get_elem?-append_left, ◌⊎◌, inl, inr,
  equal_or_not, le_or_lt,
}
use hammer.Regex.{
  Op, rvm_accept, rvm_goto, rvm_fork, rvm_push, rvm_action, rvm_capture, rvm_eof, rvm_match,
  rvm_step, Insn, u16,
}
use hammer.Regex.Program.{patched}

-- A jump goes to an instruction, or to the end, and no fork goes to the first instruction.
abbrev pub IsTarget : ℕ → Op → ℕ → Type 0
IsTarget len rvm_goto arg = arg ≤ len
IsTarget len rvm_fork arg = (0 < arg) × (arg ≤ len)
IsTarget len rvm_accept arg = Unit {0}
IsTarget len rvm_push arg = Unit {0}
IsTarget len rvm_action arg = Unit {0}
IsTarget len rvm_capture arg = Unit {0}
IsTarget len rvm_eof arg = Unit {0}
IsTarget len rvm_match arg = Unit {0}
IsTarget len rvm_step arg = Unit {0}

pub IsTarget-mono : (l n : ℕ) (op : Op) (arg : ℕ) → l ≤ n → IsTarget l op arg → IsTarget n op arg
IsTarget-mono l n rvm_goto arg h t = omega arith
IsTarget-mono l n rvm_fork arg h t = omega arith
IsTarget-mono l n rvm_accept arg h t = tt
IsTarget-mono l n rvm_push arg h t = tt
IsTarget-mono l n rvm_action arg h t = tt
IsTarget-mono l n rvm_capture arg h t = tt
IsTarget-mono l n rvm_eof arg h t = tt
IsTarget-mono l n rvm_match arg h t = tt
IsTarget-mono l n rvm_step arg h t = tt

pub IsTarget-below : (n : ℕ) (op : Op) (arg : ℕ) → 0 < arg → arg ≤ n → IsTarget n op arg
IsTarget-below n rvm_goto arg p h = h
IsTarget-below n rvm_fork arg p h = (p, h)
IsTarget-below n rvm_accept arg p h = tt
IsTarget-below n rvm_push arg p h = tt
IsTarget-below n rvm_action arg p h = tt
IsTarget-below n rvm_capture arg p h = tt
IsTarget-below n rvm_eof arg p h = tt
IsTarget-below n rvm_match arg p h = tt
IsTarget-below n rvm_step arg p h = tt

-- `i` is one of the holes, and all holes lie between two lengths.
abbrev pub IsHole : ℕ → List ℕ → Type 0
IsHole i [] = 0 < 0
IsHole i (h ∷ hs) = (i ≡ h) ⊎ IsHole i hs

abbrev pub AreFrom : ℕ → ℕ → List ℕ → Type 0
AreFrom n m [] = Unit {0}
AreFrom n m (h ∷ hs) = (n ≤ h) × (h < m) × AreFrom n m hs

AreFrom-mono : (n m k : ℕ) (holes : List ℕ) → m ≤ k → AreFrom n m holes → AreFrom n k holes
AreFrom-mono n m k [] h a = tt
AreFrom-mono n m k (x ∷ xs) h a = (a.0, omega (arith, a.1), AreFrom-mono n m k xs h a.2)

-- From the instructions `xs` the program has grown to `ys`.
pub record Grows (holes : List ℕ) (xs ys : List Insn) : Type 0 where
  pub longer : length xs ≤ length ys
  pub kept : length ys < 2 ^ 16 → (i : ℕ) → i < length xs → get_elem? ys i ≡ get_elem? xs i
  pub within : length ys < 2 ^ 16 → AreFrom (length xs) (length ys) holes
  pub targets :
      length ys < 2 ^ 16
      → (i : ℕ) (insn : Insn) → length xs ≤ i
      → get_elem? ys i ≡ some insn
      → IsHole i holes ⊎ IsTarget (length ys) insn.op insn.arg

pub Grows-refl : (xs : List Insn) → Grows [] xs xs
Grows-refl xs = record {
  longer = omega arith;
  kept = λ s i h. refl;
  within = λ s. tt;
  targets = λ s i insn h e. absurd (omega (arith, get_elem?-lt xs i e));
}

-- One instruction more.
pub get_elem?-last :
    {A : Type 0} (xs : List A) (x : A) (i : ℕ) {y : A}
    → get_elem? (xs ++ x ∷ []) i ≡ some y
    → (get_elem? xs i ≡ some y) ⊎ ((i ≡ length xs) × (x ≡ y))
get_elem?-last [] x zero e = inr (refl, cc)
get_elem?-last [] x (suc i) e = absurd (cc)
get_elem?-last (z ∷ xs) x zero e = inl e
get_elem?-last (z ∷ xs) x (suc i) e = elim (get_elem?-last xs x i e) [
  | inl h ↦ inl h
  | inr h ↦ inr (ap suc h.0, h.1)
]

module _ (holes : List ℕ) (xs ys : List Insn) (g : Grows holes xs ys) (op : Op) (arg : ℕ) where
  abbrev new : Insn
  new = record { op = op; arg = arg }

  size : length (ys ++ new ∷ []) ≡ suc (length ys)
  size = omega (arith, length-append ys (new ∷ []))

  kept_more :
      length (ys ++ new ∷ []) < 2 ^ 16
      → (i : ℕ) → i < length xs
      → get_elem? (ys ++ new ∷ []) i ≡ get_elem? xs i
  kept_more s i h =
      get_elem?-append_left ys (new ∷ []) i (omega (arith, g.longer))
      ∙ g.kept (omega (arith, size)) i h

  within_more :
      length (ys ++ new ∷ []) < 2 ^ 16 → AreFrom (length xs) (length (ys ++ new ∷ [])) holes
  within_more s =
      AreFrom-mono (length xs) (length ys) (length (ys ++ new ∷ [])) holes (omega (arith, size))
        (g.within (omega (arith, size)))

  pub Grows-insn :
      (length ys < 2 ^ 16 → IsTarget (suc (length ys)) op arg) → Grows holes xs (ys ++ new ∷ [])
  Grows-insn t = record {
    longer = omega (arith, g.longer, size);
    kept = kept_more;
    within = within_more;
    targets = λ s i insn h e. elim (get_elem?-last ys new i e) [
      | inl old ↦ elim (g.targets (omega (arith, size)) i insn h old) [
        | inl hole ↦ inl hole
        | inr t ↦ inr (
            IsTarget-mono (length ys) (length (ys ++ new ∷ [])) insn.op insn.arg
              (omega (arith, size)) t)
      ]
      | inr here ↦ inr (
          subst (λ n. IsTarget n insn.op insn.arg) (sym size)
            (subst (λ x. IsTarget (suc (length ys)) x.op x.arg) (here.1)
              (t (omega (arith, size, s)))))
    ];
  }

  -- One that is a hole.
  pub Grows-hole : Grows (u16 (length ys) ∷ holes) xs (ys ++ new ∷ [])
  Grows-hole = record {
    longer = omega (arith, g.longer, size);
    kept = kept_more;
    within = λ s. (omega (arith, size, g.longer, s), omega (arith, size, s), within_more s);
    targets = λ s i insn h e. elim (get_elem?-last ys new i e) [
      | inl old ↦ elim (g.targets (omega (arith, size)) i insn h old) [
        | inl hole ↦ inl (inr hole)
        | inr t ↦ inr (
            IsTarget-mono (length ys) (length (ys ++ new ∷ [])) insn.op insn.arg
              (omega (arith, size)) t)
      ]
      | inr here ↦ inl (inl (omega (arith, size, here.0, s)))
    ];
  }

-- A hole patched with a target.
pub length-patched : (xs : List Insn) (i v : ℕ) → length (patched xs i v) ≡ length xs
length-patched [] i v = refl
length-patched (x ∷ xs) zero v = refl
length-patched (x ∷ xs) (suc i) v = ap suc (length-patched xs i v)

get_elem?-patched_ne :
    (xs : List Insn) (i j v : ℕ) → i ≢ j → get_elem? (patched xs i v) j ≡ get_elem? xs j
get_elem?-patched_ne [] i j v h = refl
get_elem?-patched_ne (x ∷ xs) zero zero v h = absurd (h refl)
get_elem?-patched_ne (x ∷ xs) zero (suc j) v h = refl
get_elem?-patched_ne (x ∷ xs) (suc i) zero v h = refl
get_elem?-patched_ne (x ∷ xs) (suc i) (suc j) v h =
    get_elem?-patched_ne xs i j v (λ e. h (ap suc e))

get_elem?-patched_self :
    (xs : List Insn) (i v : ℕ) {insn : Insn}
    → get_elem? (patched xs i v) i ≡ some insn
    → (old : Insn) × (get_elem? xs i ≡ some old) × (record old { arg = v } ≡ insn)
get_elem?-patched_self [] i v e = absurd (cc)
get_elem?-patched_self (x ∷ xs) zero v e = (x, refl, cc)
get_elem?-patched_self (x ∷ xs) (suc i) v e = get_elem?-patched_self xs i v e

pub Grows-patch :
    (hole v : ℕ) (holes : List ℕ) (xs ys : List Insn)
    → Grows (hole ∷ holes) xs ys
    → ((insn : Insn)
        → get_elem? ys hole ≡ some insn
        → length ys < 2 ^ 16
        → IsTarget (length ys) insn.op v)
    → Grows holes xs (patched ys hole v)
Grows-patch hole v holes xs ys g t =
    let same : length (patched ys hole v) ≡ length ys = length-patched ys hole v in
    record {
      longer = omega (arith, g.longer, same);
      kept = λ s i l.
          let inside = (g.within (omega (arith, same))).0 in
          get_elem?-patched_ne ys hole i v (λ e. omega (arith, e, inside))
          ∙ g.kept (omega (arith, same)) i l;
      within = λ s.
          AreFrom-mono (length xs) (length ys) (length (patched ys hole v)) holes
            (omega (arith, same)) ((g.within (omega (arith, same))).2);
      targets = λ s i insn l e. elim (equal_or_not hole i) [
        | inl here ↦
            (let (old, at, is) =
                get_elem?-patched_self ys hole v (ap (get_elem? (patched ys hole v)) here ∙ e) in
              inr (
                subst (λ x. IsTarget (length (patched ys hole v)) x.op x.arg) is
                  (subst (λ n. IsTarget n old.op v) (sym same) (t old at (omega (arith, same))))))
        | inr d ↦
            elim (g.targets (omega (arith, same)) i insn l
              (sym (get_elem?-patched_ne ys hole i v d) ∙ e)) [
                | inl (inl e') ↦ absurd (d (sym e'))
                | inl (inr other) ↦ inl other
                | inr t ↦ inr (subst (λ n. IsTarget n insn.op insn.arg) (sym same) t)
              ]
      ];
    }

-- One part after another.
pub Grows-trans :
    (holes : List ℕ) (xs ys zs : List Insn) → Grows holes xs ys → Grows [] ys zs → Grows holes xs zs
Grows-trans holes xs ys zs g g' = record {
  longer = omega (arith, g.longer, g'.longer);
  kept = λ s i h. g'.kept s i (omega (arith, g.longer)) ∙ g.kept (omega (arith, g'.longer)) i h;
  within = λ s.
      AreFrom-mono (length xs) (length ys) (length zs) holes g'.longer
        (g.within (omega (arith, g'.longer)));
  targets = λ s i insn h e. elim (le_or_lt (length ys) i) [
    | inl new ↦ elim (g'.targets s i insn new e) [
      | inl none_left ↦ absurd (omega (arith, none_left))
      | inr t ↦ inr t
    ]
    | inr old ↦ elim (g.targets (omega (arith, g'.longer)) i insn h (sym (g'.kept s i old) ∙ e)) [
      | inl hole ↦ inl hole
      | inr t ↦ inr (IsTarget-mono (length ys) (length zs) insn.op insn.arg g'.longer t)
    ]
  ];
}

-- The same holes in another order.
pub Grows-order :
    (holes holes' : List ℕ) (xs ys : List Insn)
    → ((i : ℕ) → IsHole i holes → IsHole i holes')
    → ((n m : ℕ) → AreFrom n m holes → AreFrom n m holes')
    → Grows holes xs ys
    → Grows holes' xs ys
Grows-order holes holes' xs ys f f' g = record {
  longer = g.longer;
  kept = g.kept;
  within = λ s. f' (length xs) (length ys) (g.within s);
  targets =
      λ s i insn h e. elim (g.targets s i insn h e) [ inl hole ↦ inl (f i hole) | inr t ↦ inr t ];
}

-- Anything that lies inside may be taken for a hole.
pub Grows-more :
    (hole : ℕ) (holes : List ℕ) (xs ys : List Insn)
    → (length ys < 2 ^ 16 → length xs ≤ hole)
    → hole < length ys
    → Grows holes xs ys
    → Grows (hole ∷ holes) xs ys
Grows-more hole holes xs ys h inside g = record {
  longer = g.longer;
  kept = g.kept;
  within = λ s. (h s, inside, g.within s);
  targets =
      λ s i insn l e. elim (g.targets s i insn l e) [ inl other ↦ inl (inr other) | inr t ↦ inr t ];
}
