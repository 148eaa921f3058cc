-- ===== src/Parsers/Sequence/Laws.antt =====
-- What sequence.c and ignoreseq.c do, told by the runs of the
-- parsers that they are made of.
use hammer.Prelude.{
  ℕ, zero, suc, ◌+◌, ◌<◌, ◌≡◌, refl, sym, ap, ◌∙◌, arith, Option, none, some, List, [], ◌∷◌, ◌++◌,
  length, get_elem?, ◌==◌, if◌then◌else◌, if_same, if_less, if_more,
}
use hammer.Syntax.{Token, sequence, Tokens, nil, elem, gap, snoc, ParseResult}
use hammer.State.{with_result, ParseState, M, make_result, load_result-eq, done}
use hammer.Parsers.Sequence.{
  append_ast, sequence_loop, parse_sequence, ignoreseq_loop, parse_ignoreseq,
}

module _ (run : ℕ → M (Option ℕ)) where
  -- The parsers succeed one after the other, with these results.
  pub data Runs : List ℕ → ParseState → List ℕ → ParseState → Type 0 where
    all_run : {s : ParseState} → Runs [] s [] s
    runs :
        {p r : ℕ} {ps rs : List ℕ} {s s' s'' : ParseState}
        → run p s ≡ done (some r) s'
        → Runs ps s' rs s''
        → Runs (p ∷ ps) s (r ∷ rs) s''

  -- The same, with the tokens of the results.
  pub data Follows : List ℕ → ParseState → List (Option Token) → ParseState → Type 0 where
    all_follow : {s : ParseState} → Follows [] s [] s
    follows :
        {p r : ℕ} {ps : List ℕ} {ts : List (Option Token)} {s s' s'' : ParseState} {x : ParseResult}
        → run p s ≡ done (some r) s'
        → get_elem? s'.results r ≡ some x
        → Follows ps s' ts s''
        → Follows (p ∷ ps) s (x.ast ∷ ts) s''

-- The tokens of a sequence: those of the results that have one, in order.
pub tokens_of : List (Option Token) → Tokens
tokens_of [] = nil
tokens_of (none ∷ ts) = tokens_of ts
tokens_of (some t ∷ ts) = elem t (tokens_of ts)

-- The result that the loop keeps: the one at index `which`, counted from `i`.
kept : ℕ → ℕ → List ℕ → Option ℕ → Option ℕ
kept which i [] res = res
kept which i (r ∷ rs) res = kept which (i + 1) rs (if i == which then some r else res)

-- Past `which` nothing changes, and before it `kept` looks for what is at `which`.
kept-past : (which i : ℕ) (rs : List ℕ) (res : Option ℕ) → which < i → kept which i rs res ≡ res
unfolding kept
kept-past which i [] res h = refl
kept-past which i (r ∷ rs) res h =
    rw (if_more (some r) res i which h) (kept-past which (i + 1) rs res (omega arith))

kept-at : (which k i : ℕ) (rs : List ℕ) → which ≡ i + k → kept which i rs none ≡ get_elem? rs k
unfolding kept
kept-at which k i [] h = refl
kept-at which zero i (r ∷ rs) h =
    ap (kept which (i + 1) rs) (if_same (some r) none i which (omega arith))
    ∙ kept-past which (i + 1) rs (some r) (omega arith)
kept-at which (suc k) i (r ∷ rs) h =
    ap (kept which (i + 1) rs) (if_less (some r) none i which (omega arith))
    ∙ kept-at which k (i + 1) rs (omega arith)

pub joined : Tokens → Tokens → Tokens
joined nil us = us
joined (elem t ts) us = elem t (joined ts us)
joined (gap ts) us = gap (joined ts us)

pub joined-nil_left : (ts : Tokens) → joined nil ts ≡ ts
unfolding joined
joined-nil_left ts = refl

joined-nil : (ts : Tokens) → joined ts nil ≡ ts
unfolding joined
joined-nil nil = refl
joined-nil (elem t ts) = ap (elem t) (joined-nil ts)
joined-nil (gap ts) = ap gap (joined-nil ts)

pub joined-tokens_of_nil : (ts : Tokens) → joined ts (tokens_of []) ≡ ts
unfolding tokens_of
joined-tokens_of_nil ts = joined-nil ts

joined-snoc : (ts us : Tokens) (t : Token) → joined (snoc ts t) us ≡ joined ts (elem t us)
unfolding joined snoc
joined-snoc nil us t = refl
joined-snoc (elem u ts) us t = ap (elem u) (joined-snoc ts us t)
joined-snoc (gap ts) us t = ap gap (joined-snoc ts us t)

pub joined-append :
    (seq : Tokens) (ast : Option Token) (ts : List (Option Token))
    → joined (append_ast seq ast) (tokens_of ts) ≡ joined seq (tokens_of (ast ∷ ts))
unfolding append_ast tokens_of
joined-append seq none ts = refl
joined-append seq (some t) ts = joined-snoc seq (tokens_of ts) t

module _ {run : ℕ → M (Option ℕ)} where
  ignoreseq_loop-Runs :
      {ps rs : List ℕ} {s s' : ParseState} (which i : ℕ) (res : Option ℕ)
      → Runs run ps s rs s'
      → ignoreseq_loop run which i ps res s ≡ done (kept which i rs res) s'
  unfolding ignoreseq_loop kept
  ignoreseq_loop-Runs which i res all_run = refl
  ignoreseq_loop-Runs which i res (runs {r} e k) =
      rw (e, ignoreseq_loop)
        (ignoreseq_loop-Runs which (i + 1) (if i == which then some r else res) k)

  -- When all parsers of the list succeed one after the other, an ignoreseq returns the result of the
  -- one at `which`.
  pub parse_ignoreseq-Runs :
      {ps rs : List ℕ} {s s' : ParseState} (which : ℕ)
      → Runs run ps s rs s'
      → parse_ignoreseq run ps which s ≡ done (get_elem? rs which) s'
  unfolding parse_ignoreseq
  parse_ignoreseq-Runs {rs} {s' = s'} which k =
      ignoreseq_loop-Runs which 0 none k
      ∙ ap (λ r. done r s') (kept-at which which 0 rs (omega arith))

  ignoreseq_loop-fails :
      {ps rs : List ℕ} {p : ℕ} {s s' s'' : ParseState} (qs : List ℕ) (which i : ℕ) (res : Option ℕ)
      → Runs run ps s rs s'
      → run p s' ≡ done none s''
      → ignoreseq_loop run which i (ps ++ p ∷ qs) res s ≡ done none s''
  unfolding ignoreseq_loop
  ignoreseq_loop-fails qs which i res all_run e = rw (e, ignoreseq_loop) refl
  ignoreseq_loop-fails qs which i res (runs {r} e' k) e =
      rw (e', ignoreseq_loop)
        (ignoreseq_loop-fails qs which (i + 1) (if i == which then some r else res) k e)

  -- When a parser of the list fails after those before it succeeded, an ignoreseq fails right there.
  pub parse_ignoreseq-fails :
      {ps rs : List ℕ} {p : ℕ} {s s' s'' : ParseState} (qs : List ℕ) (which : ℕ)
      → Runs run ps s rs s'
      → run p s' ≡ done none s''
      → parse_ignoreseq run (ps ++ p ∷ qs) which s ≡ done none s''
  unfolding parse_ignoreseq
  parse_ignoreseq-fails qs which k e = ignoreseq_loop-fails qs which 0 none k e

  sequence_loop-Follows :
      {ps : List ℕ} {ts : List (Option Token)} {s s' : ParseState} (seq : Tokens)
      → Follows run ps s ts s'
      → sequence_loop run ps seq s ≡ done (some (joined seq (tokens_of ts))) s'
  unfolding sequence_loop tokens_of
  sequence_loop-Follows seq (all_follow {s}) = ap (λ t. done (some t) s) (sym (joined-nil seq))
  sequence_loop-Follows seq (follows {r = r} {ts} {s' = m} {s'' = s''} {x} e g k) =
      rw (e, load_result-eq m r g, sequence_loop)
        (sequence_loop-Follows (append_ast seq x.ast) k
          ∙ ap (λ t. done (some t) s'') (joined-append seq x.ast ts))

  sequence_loop-fails :
      {ps : List ℕ} {ts : List (Option Token)} {p : ℕ} {s s' s'' : ParseState} (qs : List ℕ)
      (seq : Tokens)
      → Follows run ps s ts s'
      → run p s' ≡ done none s''
      → sequence_loop run (ps ++ p ∷ qs) seq s ≡ done none s''
  unfolding sequence_loop
  sequence_loop-fails qs seq all_follow e = rw (e, sequence_loop) refl
  sequence_loop-fails qs seq (follows {r = r} {s' = m} {x} e' g k) e =
      rw (e', load_result-eq m r g, sequence_loop)
        (sequence_loop-fails qs (append_ast seq x.ast) k e)

  -- When all parsers of the list succeed one after the other, a sequence returns one new result, the
  -- sequence of their tokens in order, without those that are missing.
  pub parse_sequence-Follows :
      {ps : List ℕ} {ts : List (Option Token)} {s s' : ParseState}
      → Follows run ps s ts s'
      → parse_sequence run ps s
        ≡ done (some (length s'.results)) (with_result s' (some (sequence (tokens_of ts))))
  unfolding parse_sequence make_result joined
  parse_sequence-Follows k = rw (sequence_loop-Follows nil k, parse_sequence) refl

  -- When a parser of the list fails after those before it succeeded, a sequence fails right there.
  pub parse_sequence-fails :
      {ps : List ℕ} {ts : List (Option Token)} {p : ℕ} {s s' s'' : ParseState} (qs : List ℕ)
      → Follows run ps s ts s'
      → run p s' ≡ done none s''
      → parse_sequence run (ps ++ p ∷ qs) s ≡ done none s''
  unfolding parse_sequence
  parse_sequence-fails qs k e = rw (sequence_loop-fails qs nil k e, parse_sequence) refl
