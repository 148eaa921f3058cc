-- ===== src/Parsers/Permutation/Sound.antt =====
-- permutation.c keeps a sound state sound.
use hammer.Prelude.{ℕ, zero, suc, ◌+◌, Bool, Option, none, some, List, [], ◌∷◌, length}
use hammer.BitReader.{InputStream}
use hammer.Syntax.{sequence}
use hammer.State.{M}
use hammer.State.Keeps.{
  IsStream, Keeps, Any, Parses, Keeps-bind, Keeps-pure, Keeps-if, get_stream-Keeps,
  put_stream-Keeps, load_result-Keeps, returned-Keeps,
}
use hammer.Parsers.Permutation.{
  Arrays, try_match, permutation_loop, permutation_tail, to_tokens, parse_permutation,
}

module _ {input : List ℕ} {run : ℕ → M (Option ℕ)} (h : (p : ℕ) → Parses input (run p)) where
  try_match-Keeps : (p i : ℕ) (a : Arrays) → Keeps input Any (try_match run p i a)
  unfolding try_match
  try_match-Keeps p i a = Keeps-bind (h p) (elim [
    | none ↦ λ _. Keeps-pure tt
    | some r ↦ λ _. Keeps-bind (load_result-Keeps r) (λ x _. Keeps-pure tt)
  ])

  permutation_loop-Keeps :
      {tail : Arrays → M (Arrays × Bool)}
      → ((a : Arrays) → Keeps input Any (tail a))
      → (bak : InputStream) → IsStream input bak
      → (ps : List ℕ) (i : ℕ) (a : Arrays) → Keeps input Any (permutation_loop run tail bak ps i a)
  unfolding permutation_loop
  permutation_loop-Keeps t bak q [] i a = Keeps-pure tt
  permutation_loop-Keeps t bak q (p ∷ ps) i a =
      Keeps-if _
        (Keeps-bind (try_match-Keeps p i a) (λ bm _.
          Keeps-if _
            (Keeps-bind (t _) (λ cr _. Keeps-if _ (Keeps-pure tt) (
              Keeps-bind (put_stream-Keeps q)
                (λ _ _. permutation_loop-Keeps t bak q ps (i + 1) _))))
            (Keeps-bind (put_stream-Keeps q) (λ _ _. permutation_loop-Keeps t bak q ps (i + 1) _))))
        (permutation_loop-Keeps t bak q ps (i + 1) a)

  permutation_tail-Keeps :
      (ps : List ℕ) (depth : ℕ) (a : Arrays) → Keeps input Any (permutation_tail run ps depth a)
  unfolding permutation_tail
  permutation_tail-Keeps ps zero a = Keeps-pure tt
  permutation_tail-Keeps ps (suc depth) a = Keeps-bind get_stream-Keeps (λ bak q.
      Keeps-bind (permutation_loop-Keeps (permutation_tail-Keeps ps depth) bak q ps 0 a)
        (λ bf _. Keeps-pure tt))

  pub parse_permutation-Keeps : (ps : List ℕ) → Parses input (parse_permutation run ps)
  unfolding parse_permutation
  parse_permutation-Keeps ps = Keeps-bind (permutation_tail-Keeps ps (length ps) _) (λ bf _.
      Keeps-if _ (returned-Keeps (some (sequence (to_tokens bf.0.elements)))) (Keeps-pure tt))
