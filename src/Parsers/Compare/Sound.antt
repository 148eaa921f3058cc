-- ===== src/Parsers/Compare/Sound.antt =====
-- butnot.c, difference.c and xor.c keep a sound state sound.
use hammer.Prelude.{ℕ, Bool, leb, ltb, Option, none, some, List}
use hammer.State.{M}
use hammer.State.Keeps.{
  Parses, Keeps-bind, Keeps-pure, Keeps-option, Keeps-if, get_stream-Keeps, put_stream-Keeps,
  load_result-Keeps,
}
use hammer.Parsers.Compare.{parse_unless, parse_butnot, parse_difference, parse_xor}

module _ {input : List ℕ} {run : ℕ → M (Option ℕ)} (h : (p : ℕ) → Parses input (run p)) where
  parse_unless-Keeps :
      (loses : ℕ → ℕ → Bool) (p1 p2 : ℕ) → Parses input (parse_unless run loses p1 p2)
  unfolding parse_unless
  parse_unless-Keeps loses p1 p2 = Keeps-bind get_stream-Keeps (λ start q. Keeps-bind (h p1) (elim [
    | none ↦ λ _. Keeps-pure tt
    | some r1 ↦ λ _. Keeps-bind get_stream-Keeps (λ after q'.
        Keeps-bind (put_stream-Keeps q) (λ _ _. Keeps-bind (h p2) (λ res2 _.
          Keeps-bind (put_stream-Keeps q') (λ _ _. Keeps-option res2 (Keeps-pure tt) (λ r2.
            Keeps-bind (load_result-Keeps r1) (λ x1 _.
              Keeps-bind (load_result-Keeps r2)
                (λ x2 _. Keeps-if _ (Keeps-pure tt) (Keeps-pure tt))))))))
  ]))

  pub parse_butnot-Keeps : (p1 p2 : ℕ) → Parses input (parse_butnot run p1 p2)
  unfolding parse_butnot
  parse_butnot-Keeps p1 p2 = parse_unless-Keeps leb p1 p2

  pub parse_difference-Keeps : (p1 p2 : ℕ) → Parses input (parse_difference run p1 p2)
  unfolding parse_difference
  parse_difference-Keeps p1 p2 = parse_unless-Keeps ltb p1 p2

  pub parse_xor-Keeps : (p1 p2 : ℕ) → Parses input (parse_xor run p1 p2)
  unfolding parse_xor
  parse_xor-Keeps p1 p2 = Keeps-bind get_stream-Keeps (λ start q. Keeps-bind (h p1) (λ r1 _.
      Keeps-bind get_stream-Keeps (λ after q'. Keeps-bind (put_stream-Keeps q) (λ _ _.
        Keeps-bind (h p2) (λ r2 _. Keeps-option r1 (Keeps-pure tt) (λ x1.
          Keeps-option r2 (Keeps-bind (put_stream-Keeps q') (λ _ _. Keeps-pure tt))
            (λ x2. Keeps-pure tt)))))))
