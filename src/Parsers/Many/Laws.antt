-- ===== src/Parsers/Many/Laws.antt =====
-- What many.c does, told by the runs of the element and of the separator.
use hammer.Prelude.{
  ℕ, zero, suc, ◌+◌, ◌≤◌, ◌<◌, ◌≡◌, refl, sym, ap, ◌∙◌, arith, Bool, true, false, ◌||◌, Option,
  none, some, List, [], ◌∷◌, length, get_elem?, ltb, if_true, if_false, lt→ltb, le→ltb_false,
}
use hammer.BitReader.{InputStream}
use hammer.Syntax.{Token, sequence, Tokens, nil, ParseResult, Repeat}
use hammer.State.{
  ParseState, Outcome, M, at, with_result, continue_with, pure, get_stream, put_stream, make_result,
  load_result-eq, done,
}
use hammer.Parsers.Sequence.{append_ast}
use hammer.Parsers.Sequence.Laws.{
  tokens_of, joined, joined-nil_left, joined-tokens_of_nil, joined-append,
}
use hammer.Parsers.Many.{ManyLoop, many_sep, many_elem, many_loop, many_end, parse_many}

module _ (run : ℕ → M (Option ℕ)) (env : Repeat) where
  -- What comes before the element after `count` elements: a separator if there is one to look for and
  -- this is not the first element.
  pub data Separated (count : ℕ) (s : ParseState) : ParseState → Type 0 where
    no_separator : env.sep ≡ none → Separated count s s
    at_first : count ≡ 0 → Separated count s s
    separator :
        {sep r : ℕ} {s' : ParseState}
        → env.sep ≡ some sep
        → 0 < count
        → run sep s ≡ done (some r) s'
        → Separated count s s'

  -- Rounds from `count` elements to `n`, with the tokens of the new ones.
  pub data Rounds : ℕ → ParseState → List (Option Token) → ℕ → ParseState → Type 0 where
    no_round : {count : ℕ} {s : ParseState} → Rounds count s [] count s
    round :
        {count n r : ℕ} {s s1 s2 s' : ParseState} {x : ParseResult} {ts : List (Option Token)}
        → Separated count s s1
        → run env.p s1 ≡ done (some r) s2
        → get_elem? s2.results r ≡ some x
        → Rounds (count + 1) s2 ts n s'
        → Rounds count s (x.ast ∷ ts) n s'

  -- No further element: its separator or the element itself fails.
  pub data Stops (count : ℕ) (s : ParseState) : ParseState → Type 0 where
    no_more_separators :
        {sep : ℕ} {s' : ParseState}
        → env.sep ≡ some sep
        → 0 < count
        → run sep s ≡ done none s'
        → Stops count s s'
    no_element :
        {s1 s' : ParseState} → Separated count s s1 → run env.p s1 ≡ done none s' → Stops count s s'

module _ (run : ℕ → M (Option ℕ)) (s : ParseState) where
  many_sep-first : (sep : Option ℕ) → many_sep run sep 0 s ≡ done true s
  unfolding many_sep
  many_sep-first none = refl
  many_sep-first (some sep) = refl

  many_sep-run :
      (sep count : ℕ) {r : Option ℕ} {s' : ParseState}
      → 0 < count
      → run sep s ≡ done r s'
      → many_sep run (some sep) count s ≡ done (elim r [ none ↦ false | some x ↦ true ]) s'
  unfolding many_sep
  many_sep-run sep zero h e = absurd (omega arith)
  many_sep-run sep (suc count) {r = none} h e = rw (e, many_sep) refl
  many_sep-run sep (suc count) {r = some x} h e = rw (e, many_sep) refl

  many_sep-none : (count : ℕ) → many_sep run none count s ≡ done true s
  unfolding many_sep
  many_sep-none count = refl

or_true : (b : Bool) → (b || true) ≡ true
or_true true = refl
or_true false = refl

module _ (run : ℕ → M (Option ℕ)) (env : Repeat) where
  -- A round of the loop.
  loop_step :
      (fuel count : ℕ) (seq : Tokens) (bak : InputStream) (s : ParseState) {o : Outcome ManyLoop}
      → (env.min_p || ltb count env.count) ≡ true
      → continue_with (many_elem run env count seq s) (elim [
        | none ↦ pure (record { seq = seq; count = count; bak = s.input_stream; broken = true })
        | some seq' ↦ many_loop run fuel env (count + 1) seq' s.input_stream
      ])
        ≡ o
      → many_loop run (suc fuel) env count seq bak s ≡ o
  unfolding many_loop get_stream
  loop_step fuel count seq bak s m e =
      ap (λ (f : M ManyLoop). f s) (if_true _ _ (env.min_p || ltb count env.count) m) ∙ e

  loop_end :
      (fuel count : ℕ) (seq : Tokens) (bak : InputStream) (s : ParseState)
      → (env.min_p || ltb count env.count) ≡ false
      → many_loop run (suc fuel) env count seq bak s
        ≡ done (record { seq = seq; count = count; bak = bak; broken = false }) s
  unfolding many_loop
  loop_end fuel count seq bak s m =
      ap (λ (f : M ManyLoop). f s) (if_false _ _ (env.min_p || ltb count env.count) m)

module _ {run : ℕ → M (Option ℕ)} {env : Repeat} where
  many_sep-Separated :
      {count : ℕ} {s s' : ParseState}
      → Separated run env count s s'
      → many_sep run env.sep count s ≡ done true s'
  many_sep-Separated {count = c} {s = s} (no_separator e) =
      ap (λ o. many_sep run o c s) e ∙ many_sep-none run s c
  many_sep-Separated {s = s} (at_first e) =
      ap (λ n. many_sep run env.sep n s) e ∙ many_sep-first run s env.sep
  many_sep-Separated {count = c} {s = s} (separator {sep} e p f) =
      ap (λ o. many_sep run o c s) e ∙ many_sep-run run s sep c p f

  many_elem-Separated :
      {count r : ℕ} {s s1 s2 : ParseState} {x : ParseResult} (seq : Tokens)
      → Separated run env count s s1
      → run env.p s1 ≡ done (some r) s2
      → get_elem? s2.results r ≡ some x
      → many_elem run env count seq s ≡ done (some (append_ast seq x.ast)) s2
  unfolding many_elem
  many_elem-Separated {r = r} {s2 = s2} seq h e g =
      rw (many_sep-Separated h, many_elem) (rw e (rw (load_result-eq s2 r g) refl))

  many_elem-Stops :
      {count : ℕ} {s s' : ParseState} (seq : Tokens)
      → Stops run env count s s'
      → many_elem run env count seq s ≡ done none s'
  unfolding many_elem
  many_elem-Stops {count = c} {s = s} seq (no_more_separators {sep} e p f) =
      rw (ap (λ o. many_sep run o c s) e ∙ many_sep-run run s sep c p f, many_elem) refl
  many_elem-Stops seq (no_element h e) = rw (many_sep-Separated h, many_elem) (rw e refl)

  Rounds-grows :
      {count n : ℕ} {s s' : ParseState} {ts : List (Option Token)}
      → Rounds run env count s ts n s'
      → count ≤ n
  Rounds-grows no_round = omega arith
  Rounds-grows (round p e g k) = let h = Rounds-grows k in omega arith

  -- The loop with min_p, up to the failure that ends it.
  many_loop-Rounds :
      (fuel : ℕ) {count n : ℕ} {s s1 s2 : ParseState} {ts : List (Option Token)} (seq : Tokens)
      (bak : InputStream)
      → env.min_p ≡ true
      → Rounds run env count s ts n s1
      → Stops run env n s1 s2
      → n < count + fuel
      → many_loop run fuel env count seq bak s
        ≡ done
            (record {
              seq = joined seq (tokens_of ts);
              count = n;
              bak = s1.input_stream;
              broken = true;
            })
            s2
  many_loop-Rounds zero seq bak m k z h = absurd (let g = Rounds-grows k in omega arith)
  many_loop-Rounds (suc fuel) {n = n} {s = s} {s2 = s2} seq bak m no_round z h =
      loop_step run env fuel n seq bak s (ap (λ x. x || ltb n env.count) m) (
        rw (many_elem-Stops seq z) (
          ap (λ t. done (record { seq = t; count = n; bak = s.input_stream; broken = true }) s2)
            (sym (joined-tokens_of_nil seq))))
  many_loop-Rounds (suc fuel) {count = count} {n = n} {s = s} {s1 = s1} {s2 = s2} seq bak m
        (round {x = x} {ts = ts} p e g k) z h =
      loop_step run env fuel count seq bak s (ap (λ x. x || ltb count env.count) m) (
        rw (many_elem-Separated seq p e g) (
          many_loop-Rounds fuel {count = count + 1} (append_ast seq x.ast) s.input_stream m k z
            (omega arith)
          ∙ ap (λ t. done (record { seq = t; count = n; bak = s1.input_stream; broken = true }) s2)
              (joined-append seq x.ast ts)))

  -- A repetition without an upper bound takes elements until one fails, for any fuel beyond their
  -- number; with at least `count` of them it returns a new result, the sequence of their tokens, at
  -- the place where the last attempt began.
  pub parse_many-Rounds :
      {n : ℕ} {s s1 s2 : ParseState} {ts : List (Option Token)} (fuel : ℕ)
      → env.min_p ≡ true
      → Rounds run env 0 s ts n s1
      → Stops run env n s1 s2
      → n < fuel
      → env.count ≤ n
      → parse_many run fuel env s
        ≡ done
            (some (length s2.results))
            (with_result (at s2 s1.input_stream) (some (sequence (tokens_of ts))))
  unfolding parse_many many_end get_stream put_stream make_result
  parse_many-Rounds {n = n} {s = s} {s1 = s1} {s2 = s2} {ts = ts} fuel m k z h c =
      rw (many_loop-Rounds fuel nil s.input_stream m k z (omega arith), parse_many)
        (rw (le→ltb_false n env.count c) (
          ap
            (λ t.
              done (some (length s2.results))
                (with_result (at s2 s1.input_stream) (some (sequence t))))
            (joined-nil_left (tokens_of ts))))

  -- With fewer than `count` elements it fails, at the place where the last attempt began.
  pub parse_many-too_few :
      {n : ℕ} {s s1 s2 : ParseState} {ts : List (Option Token)} (fuel : ℕ)
      → env.min_p ≡ true
      → Rounds run env 0 s ts n s1
      → Stops run env n s1 s2
      → n < fuel
      → n < env.count
      → parse_many run fuel env s ≡ done none (at s2 s1.input_stream)
  unfolding parse_many many_end get_stream put_stream
  parse_many-too_few {n = n} {s = s} fuel m k z h c =
      rw (many_loop-Rounds fuel nil s.input_stream m k z (omega arith), parse_many)
        (rw (lt→ltb n env.count c) refl)

  -- The loop without min_p, when it takes all of its elements.
  many_loop-all :
      (fuel : ℕ) {count n : ℕ} {s s1 : ParseState} {ts : List (Option Token)} (seq : Tokens)
      (bak : InputStream)
      → env.min_p ≡ false
      → Rounds run env count s ts n s1
      → n ≡ env.count
      → n < count + fuel
      → (last : InputStream) × (many_loop run fuel env count seq bak s
          ≡ done
              (record { seq = joined seq (tokens_of ts); count = n; bak = last; broken = false })
              s1)
  many_loop-all zero seq bak m k c h = absurd (let g = Rounds-grows k in omega arith)
  many_loop-all (suc fuel) {n = n} {s = s} seq bak m no_round c h = (
    bak,
    loop_end run env fuel n seq bak s
          (ap (λ x. x || ltb n env.count) m ∙ le→ltb_false n env.count (omega arith))
        ∙ ap (λ t. done (record { seq = t; count = n; bak = bak; broken = false }) s)
            (sym (joined-tokens_of_nil seq)),
  )
  many_loop-all (suc fuel) {count = count} {n = n} {s = s} {s1 = s1} seq bak m
        (round {x = x} {ts = ts} p e g k) c h =
      let less : count < env.count = (let q = Rounds-grows k in omega arith) in
      let rest =
        many_loop-all fuel {count = count + 1} (append_ast seq x.ast) s.input_stream m k c
          (omega arith) in
      (
        rest.0,
        loop_step run env fuel count seq bak s
            (ap (λ b. env.min_p || b) (lt→ltb count env.count less) ∙ or_true env.min_p)
            (rw (many_elem-Separated seq p e g) (
              rest.1
              ∙ ap (λ t. done (record { seq = t; count = n; bak = rest.0; broken = false }) s1)
                  (joined-append seq x.ast ts))),
      )

  -- A repetition of exactly `count` elements ends after that many, without a further attempt, and
  -- returns the sequence of their tokens.
  pub parse_many-all :
      {s s1 : ParseState} {ts : List (Option Token)} (fuel : ℕ)
      → env.min_p ≡ false
      → Rounds run env 0 s ts env.count s1
      → env.count < fuel
      → parse_many run fuel env s
        ≡ done (some (length s1.results)) (with_result s1 (some (sequence (tokens_of ts))))
  unfolding parse_many many_end get_stream make_result
  parse_many-all {s = s} {s1 = s1} {ts = ts} fuel m k h =
      let loop = many_loop-all fuel nil s.input_stream m k refl (omega arith) in
      rw (loop.1, parse_many)
        (rw (le→ltb_false env.count env.count (omega arith)) (
          ap (λ t. done (some (length s1.results)) (with_result s1 (some (sequence t))))
            (joined-nil_left (tokens_of ts))))
