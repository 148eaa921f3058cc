-- ===== src/Parsers/Values/Laws.antt =====
-- value.c: what is put under a name is what a get of that name returns.
use hammer.Prelude.{ℕ, ◌≡◌, refl, ap, Option, none, some, List, ◌∷◌, ◌==◌, if_same}
use hammer.State.{ParseState, M, continue_with, table_get, done}
use hammer.Parsers.Values.{symbol_get, symbol_put, parse_put, parse_get}

-- The state with one more symbol.
abbrev pub with_symbol : ParseState → ℕ → ℕ → ParseState
with_symbol s key r = record s { symbol_table = (key, r) ∷ s.symbol_table }

symbol_get-eq :
    (key : ℕ) (s : ParseState) {o : Option ℕ}
    → table_get ◌==◌ key s.symbol_table ≡ o
    → symbol_get key s ≡ done o s
unfolding symbol_get
symbol_get-eq key s e = ap (λ o. done o s) e

symbol_put-new :
    (key r : ℕ) (s : ParseState)
    → table_get ◌==◌ key s.symbol_table ≡ none
    → symbol_put key r s ≡ done tt (with_symbol s key r)
unfolding symbol_put
symbol_put-new key r s e = rw (symbol_get-eq key s e, symbol_put) refl

table_get-head : (key r : ℕ) (t : List (ℕ × ℕ)) → table_get ◌==◌ key ((key, r) ∷ t) ≡ some r
unfolding table_get
table_get-head key r t = if_same (some r) (table_get ◌==◌ key t) key key refl

module _ (run : ℕ → M (Option ℕ)) where
  -- If a name is new, before and after the parser of an h_put_value runs and succeeds, then an
  -- h_get_value of that name that follows returns the same result, and neither reads any further.
  pub parse_put-parse_get :
      {p r : ℕ} {s s' : ParseState} (key : ℕ)
      → table_get ◌==◌ key s.symbol_table ≡ none
      → run p s ≡ done (some r) s'
      → table_get ◌==◌ key s'.symbol_table ≡ none
      → continue_with (parse_put run (some p) (some key) s) (λ res. parse_get none (some key))
        ≡ done (some r) (with_symbol s' key r)
  unfolding parse_put parse_get
  parse_put-parse_get {r = r} {s = s} {s' = s'} key n e m =
      rw (symbol_get-eq key s n, parse_put)
        (rw e (
          rw (symbol_put-new key r s' m)
            (symbol_get-eq key (with_symbol s' key r) (table_get-head key r s'.symbol_table))))
