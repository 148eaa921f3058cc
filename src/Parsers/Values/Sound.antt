-- ===== src/Parsers/Values/Sound.antt =====
-- The parsers that look at a result keep a sound state sound.
use hammer.Prelude.{ℕ, Bool, Option, none, some, List}
use hammer.Syntax.{Token, ParseResult}
use hammer.State.{M}
use hammer.State.Keeps.{
  Keeps, Any, Parses, Keeps-bind, Keeps-pure, Keeps-stuck, Keeps-option, Keeps-if,
  load_result-Keeps, returned-Keeps,
}
use hammer.State.Keeps.{holds}
use hammer.Parsers.Values.{
  symbol_get, symbol_put, parse_int_range, parse_attr_bool, parse_action, parse_put, parse_bind,
  parse_get,
}

module _ {input : List ℕ} where
  symbol_get-Keeps : (key : ℕ) → Keeps input Any (symbol_get key)
  unfolding symbol_get
  symbol_get-Keeps key = record { apply = λ s q. holds tt q }

  symbol_put-Keeps : (key value : ℕ) → Keeps input Any (symbol_put key value)
  unfolding symbol_put
  symbol_put-Keeps key value = Keeps-bind (symbol_get-Keeps key) (λ old _.
      Keeps-option old
        (record { apply = λ s q. holds tt (record { stream = q.stream; values = q.values }) })
        (λ v. Keeps-stuck))

  pub parse_get-Keeps : (p key : Option ℕ) → Parses input (parse_get p key)
  unfolding parse_get
  parse_get-Keeps none none = Keeps-pure tt
  parse_get-Keeps none (some key) = symbol_get-Keeps key
  parse_get-Keeps (some p) key = Keeps-pure tt

module _ {input : List ℕ} {run : ℕ → M (Option ℕ)} (h : (p : ℕ) → Parses input (run p)) where
  pub parse_int_range-Keeps : (p lower upper : ℕ) → Parses input (parse_int_range run p lower upper)
  unfolding parse_int_range
  parse_int_range-Keeps p lower upper = Keeps-bind (h p) (elim [
    | none ↦ λ _. Keeps-pure tt
    | some r ↦
        λ _. Keeps-bind (load_result-Keeps r) (λ x _. Keeps-if _ (Keeps-pure tt) (Keeps-pure tt))
  ])

  pub parse_attr_bool-Keeps :
      (p : ℕ) (pred : ParseResult → Bool) → Parses input (parse_attr_bool run p pred)
  unfolding parse_attr_bool
  parse_attr_bool-Keeps p pred = Keeps-bind (h p) (elim [
    | none ↦ λ _. Keeps-pure tt
    | some r ↦
        λ _. Keeps-bind (load_result-Keeps r) (λ x _. Keeps-if _ (Keeps-pure tt) (Keeps-pure tt))
  ])

  pub parse_action-Keeps :
      (p : Option ℕ) (a : Option (ParseResult → Option Token)) → Parses input (parse_action run p a)
  unfolding parse_action
  parse_action-Keeps none a = Keeps-pure tt
  parse_action-Keeps (some p) none = Keeps-pure tt
  parse_action-Keeps (some p) (some a) = Keeps-bind (h p) (elim [
    | none ↦ λ _. Keeps-pure tt
    | some r ↦ λ _. Keeps-bind (load_result-Keeps r) (λ x _. returned-Keeps (a x))
  ])

  pub parse_put-Keeps : (p key : Option ℕ) → Parses input (parse_put run p key)
  unfolding parse_put
  parse_put-Keeps none key = Keeps-pure tt
  parse_put-Keeps (some p) none = Keeps-pure tt
  parse_put-Keeps (some p) (some key) = Keeps-bind (symbol_get-Keeps key) (λ old _.
      Keeps-option old
        (Keeps-bind (h p) (λ tmp _.
          Keeps-option tmp (Keeps-pure tt)
            (λ r. Keeps-bind (symbol_put-Keeps key r) (λ _ _. Keeps-pure tt))))
        (λ v. Keeps-pure tt))

  pub parse_bind-Keeps : (p : ℕ) (k : Option Token → Option ℕ) → Parses input (parse_bind run p k)
  unfolding parse_bind
  parse_bind-Keeps p k = Keeps-bind (h p) (elim [
    | none ↦ λ _. Keeps-pure tt
    | some r ↦ λ _.
        Keeps-bind (load_result-Keeps r)
          (λ x _. Keeps-option (k x.ast) (Keeps-pure tt) (λ kx. h kx))
  ])
