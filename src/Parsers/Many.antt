-- ===== src/Parsers/Many.antt =====
-- many.c: repetition with an optional separator, and a length before a repetition.
pub mod Sound
pub mod Laws
use hammer.Prelude.{
  ℕ, zero, suc, ◌+◌, Bool, true, false, ◌||◌, Option, none, some, ltb, leb, if◌then◌else◌,
}
use hammer.BitReader.{InputStream}
use hammer.Syntax.{Token, Tokens, nil, sequence, uint, Repeat}
use hammer.State.{
  M, ◌>>=◌, ◌>>◌, pure, stuck, get_stream, put_stream, make_result, load_result, done, fault,
  out_of_fuel,
}
use hammer.Parsers.Sequence.{append_ast}

-- The variables of parse_many where its loop is left, and whether that was by `goto err0`.
pub record ManyLoop : Type 0 where
  pub seq : Tokens
  pub count : ℕ
  pub bak : InputStream
  pub broken : Bool

-- The count of a length_value: the ast of the length's result. A NULL ast is dereferenced, and
-- another token exits.
pub length_count : Option Token → M ℕ
length_count (some (uint n)) = pure n
length_count _ = stuck

module _ (run : ℕ → M (Option ℕ)) where
  -- One separator, where one is due: whether the round goes on.
  pub many_sep : Option ℕ → ℕ → M Bool
  many_sep none count = pure true
  many_sep (some sep) zero = pure true
  many_sep (some sep) (suc count) = do
    res ← run sep
    elim res [ none ↦ pure false | some r ↦ pure true ]

  -- One element after the separator: the new sequence, or `none` for `goto err0`.
  pub many_elem : Repeat → ℕ → Tokens → M (Option Tokens)
  many_elem env count seq = do
    more ← many_sep env.sep count
    (if more
        then (run env.p >>= λ res. elim res [
          | none ↦ pure none
          | some r ↦ load_result r >>= λ x. pure (some (append_ast seq x.ast))
        ])
        else pure none)

  pub many_loop : ℕ → Repeat → ℕ → Tokens → InputStream → M ManyLoop
  many_loop zero env count seq bak = λ s. out_of_fuel
  many_loop (suc fuel) env count seq bak =
      let round : M ManyLoop = do
        here ← get_stream
        next ← many_elem env count seq
        elim next [
          | none ↦ pure (record { seq = seq; count = count; bak = here; broken = true })
          | some seq' ↦ many_loop fuel env (count + 1) seq' here
        ]
      in if env.min_p || ltb count env.count
        then round
        else pure (record { seq = seq; count = count; bak = bak; broken = false })

  -- From the loop's end to the three labels.
  pub many_end : Repeat → ManyLoop → M (Option ℕ)
  many_end env l =
      if ltb l.count env.count
      then (put_stream l.bak >> pure none)
      else (when_broken l >> (make_result (some (sequence l.seq)) >>= λ r. pure (some r)))
    where
      when_broken : ManyLoop → M (Unit {0})
      when_broken l = if l.broken then put_stream l.bak else pure tt

  pub parse_many : ℕ → Repeat → M (Option ℕ)
  parse_many fuel env = do i ← get_stream; l ← many_loop fuel env 0 nil i; many_end env l

  pub parse_length_value : ℕ → ℕ → ℕ → M (Option ℕ)
  parse_length_value fuel length value = do
    len ← run length
    elim len [
      | none ↦ pure none
      | some r ↦ load_result r >>= λ x. length_count x.ast >>= λ n.
          parse_many fuel (record { p = value; sep = none; count = n; min_p = false })
    ]
