-- ===== src/Parsers/Values.antt =====
-- action.c, attr_bool.c, int_range.c, value.c and bind.c: parsers that look at a result.
pub mod Sound
pub mod Laws
use hammer.Prelude.{
  ℕ, ◌+◌, ◌%◌, ◌^◌, Bool, true, false, ◌&&◌, Option, none, some, List, [], ◌∷◌, leb, ◌==◌,
  if◌then◌else◌,
}
use hammer.Syntax.{Token, ParseResult, sint, uint}
use hammer.State.{
  M, ◌>>=◌, ◌>>◌, pure, stuck, make_result, load_result, table_get, done, fault, out_of_fuel,
}

-- a <= b on the bit patterns of two int64_t.
pub le_signed : ℕ → ℕ → Bool
le_signed a b = leb ((a + 2 ^ 63) % 2 ^ 64) ((b + 2 ^ 63) % 2 ^ 64)

-- The switch of parse_int_range.
pub in_range : ℕ → ℕ → Option Token → Bool
in_range lower upper (some (sint n)) = le_signed lower n && le_signed n upper
in_range lower upper (some (uint n)) = leb lower n && leb n upper
in_range lower upper _ = false

-- h_symbol_get: the keys are compared as pointers.
pub symbol_get : ℕ → M (Option ℕ)
symbol_get key s = done (table_get ◌==◌ key s.symbol_table) s

-- h_symbol_put, with its assertion that the key is new.
pub symbol_put : ℕ → ℕ → M (Unit {0})
symbol_put key value = do
  old ← symbol_get key
  elim old [
    | none ↦ λ s. done tt (record s { symbol_table = (key, value) ∷ s.symbol_table })
    | some v ↦ stuck
  ]

-- A result with no ast fails without a look at the predicate.
pub accepts : (ParseResult → Bool) → ParseResult → Bool
accepts pred x = elim x.ast [ none ↦ false | some t ↦ pred x ]

module _ (run : ℕ → M (Option ℕ)) where
  pub parse_int_range : ℕ → ℕ → ℕ → M (Option ℕ)
  parse_int_range p lower upper = do
    ret ← run p
    elim ret [
      | none ↦ pure none
      | some r ↦
          load_result r >>= λ x. (if in_range lower upper x.ast then pure (some r) else pure none)
    ]

  pub parse_attr_bool : ℕ → (ParseResult → Bool) → M (Option ℕ)
  parse_attr_bool p pred = do
    res ← run p
    elim res [
      | none ↦ pure none
      | some r ↦ load_result r >>= λ x. (if accepts pred x then pure (some r) else pure none)
    ]

  pub parse_action : Option ℕ → Option (ParseResult → Option Token) → M (Option ℕ)
  parse_action none a = pure none
  parse_action (some p) none = pure none
  parse_action (some p) (some a) = do
    tmp ← run p
    elim tmp [
      | none ↦ pure none
      | some r ↦ load_result r >>= λ x. make_result (a x) >>= λ r'. pure (some r')
    ]

  pub parse_put : Option ℕ → Option ℕ → M (Option ℕ)
  parse_put none key = pure none
  parse_put (some p) none = pure none
  parse_put (some p) (some key) = do
    old ← symbol_get key
    elim old [
      | some v ↦ pure none
      | none ↦ run p >>= λ tmp. elim tmp [
        | none ↦ pure none
        | some r ↦ symbol_put key r >> pure (some r)
      ]
    ]

  -- The result of `p` goes to the continuation, and the parser that it makes goes on.
  pub parse_bind : ℕ → (Option Token → Option ℕ) → M (Option ℕ)
  parse_bind p k = do
    res ← run p
    elim res [
      | none ↦ pure none
      | some r ↦ load_result r >>= λ x. elim (k x.ast) [ none ↦ pure none | some kx ↦ run kx ]
    ]

pub parse_get : Option ℕ → Option ℕ → M (Option ℕ)
parse_get none (some key) = symbol_get key
parse_get none none = pure none
parse_get (some p) key = pure none
