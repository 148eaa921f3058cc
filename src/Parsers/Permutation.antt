-- ===== src/Parsers/Permutation.antt =====
-- permutation.c: the parsers of a list, each once, in any order.
pub mod Sound
use hammer.Prelude.{
  ℕ, zero, suc, ◌+◌, ◌-◌, Bool, true, false, Option, none, some, List, [], ◌∷◌, length, get_elem?,
  set, replicate, if◌then◌else◌,
}
use hammer.BitReader.{InputStream}
use hammer.Syntax.{Token, Tokens, nil, elem, gap, sequence, absent}
use hammer.State.{
  M, ◌>>=◌, ◌>>◌, pure, get_stream, put_stream, make_result, load_result, done, fault, out_of_fuel,
}

-- The arrays that the recursion shares: `active` is `set`, and `elements` are those of `seq`.
pub record Arrays : Type 0 where
  pub active : List Bool
  pub elements : List (Option Token)

-- set[i]
pub is_active : Arrays → ℕ → Bool
is_active a i = elim (get_elem? a.active i) [ none ↦ false | some b ↦ b ]

pub activate : Arrays → ℕ → Bool → Arrays
activate a i b = record a { active = set a.active i b }

pub keep_match : Arrays → ℕ → Option Token → Arrays
keep_match a i ast = record a { elements = set a.elements i ast }

pub is_absent : Option Token → Bool
is_absent (some absent) = true
is_absent _ = false

-- The last loop: no parser that is left has anything but an empty optional.
pub all_absent : List Bool → List (Option Token) → Bool
all_absent [] es = true
all_absent (false ∷ bs) [] = all_absent bs []
all_absent (true ∷ bs) [] = false
all_absent (false ∷ bs) (e ∷ es) = all_absent bs es
all_absent (true ∷ bs) (e ∷ es) = if is_absent e then all_absent bs es else false

pub to_tokens : List (Option Token) → Tokens
to_tokens [] = nil
to_tokens (none ∷ es) = gap (to_tokens es)
to_tokens (some t ∷ es) = elem t (to_tokens es)

module _ (run : ℕ → M (Option ℕ)) where
  -- One parser of the loop: the arrays after it, and whether it matched.
  pub try_match : ℕ → ℕ → Arrays → M (Arrays × Bool)
  try_match p i a = do
    tmp ← run p
    elim tmp [
      | none ↦ pure (a, false)
      | some r ↦ load_result r >>= λ x.
          pure (keep_match a i x.ast, (if is_absent x.ast then false else true))
    ]

  -- The loop over the parsers from index `i`; `tail` is the recursive call.
  pub permutation_loop :
      (Arrays → M (Arrays × Bool)) → InputStream → List ℕ → ℕ → Arrays → M (Arrays × Bool)
  permutation_loop tail bak [] i a = pure (a, false)
  permutation_loop tail bak (p ∷ ps) i a =
      let next = λ (b : Arrays). permutation_loop tail bak ps (i + 1) b in
      if is_active a i
      then (do
        (b, matched) ← try_match p i a
        (if matched
            then (do
              (c, rest) ← tail (activate b i false)
              (if rest then pure (c, true) else (put_stream bak >> next (activate c i true))))
            else (put_stream bak >> next b)))
      else next a

  -- parse_permutation_tail with `n - k` levels left.
  pub permutation_tail : List ℕ → ℕ → Arrays → M (Arrays × Bool)
  permutation_tail ps zero a = pure (a, true)
  permutation_tail ps (suc depth) a = do
    bak ← get_stream
    (b, found) ← permutation_loop (permutation_tail ps depth) bak ps 0 a
    pure (b, (if found then true else all_absent b.active b.elements))

  pub parse_permutation : List ℕ → M (Option ℕ)
  parse_permutation ps = do
    let n = length ps
    (b, found) ←
        permutation_tail ps n (record { active = replicate n true; elements = replicate n none })
    (if found
        then (make_result (some (sequence (to_tokens b.elements))) >>= λ r. pure (some r))
        else pure none)
