-- ===== src/Parsers/Many/Sound.antt =====
-- The repetitions of many.c keep a sound state sound.
use hammer.Prelude.{ℕ, zero, suc, ◌+◌, false, Option, none, some, List}
use hammer.BitReader.{InputStream}
use hammer.Syntax.{Token, absent, bytes, sint, uint, err, user, sequence, Tokens, nil, Repeat}
use hammer.State.{M}
use hammer.State.Keeps.{
  IsStream, Keeps, Any, Parses, Keeps-bind, Keeps-pure, Keeps-stuck, Keeps-out_of_fuel, Keeps-if,
  get_stream-Keeps, put_stream-Keeps, load_result-Keeps, returned-Keeps,
}
use hammer.Parsers.Many.{
  ManyLoop, many_sep, many_elem, many_loop, many_end, parse_many, length_count, parse_length_value,
}

module _ {input : List ℕ} {run : ℕ → M (Option ℕ)} (h : (p : ℕ) → Parses input (run p)) where
  many_sep-Keeps : (sep : Option ℕ) (count : ℕ) → Keeps input Any (many_sep run sep count)
  unfolding many_sep
  many_sep-Keeps none count = Keeps-pure tt
  many_sep-Keeps (some sep) zero = Keeps-pure tt
  many_sep-Keeps (some sep) (suc count) =
      Keeps-bind (h sep) (elim [ none ↦ λ _. Keeps-pure tt | some r ↦ λ _. Keeps-pure tt ])

  many_elem-Keeps :
      (env : Repeat) (count : ℕ) (seq : Tokens) → Keeps input Any (many_elem run env count seq)
  unfolding many_elem
  many_elem-Keeps env count seq = Keeps-bind (many_sep-Keeps env.sep count) (λ more _.
      Keeps-if more
        (Keeps-bind (h env.p) (elim [
          | none ↦ λ _. Keeps-pure tt
          | some r ↦ λ _. Keeps-bind (load_result-Keeps r) (λ x _. Keeps-pure tt)
        ]))
        (Keeps-pure tt))

  many_loop-Keeps :
      (fuel : ℕ) (env : Repeat) (count : ℕ) (seq : Tokens) (bak : InputStream)
      → IsStream input bak
      → Keeps input (λ l. IsStream input l.bak) (many_loop run fuel env count seq bak)
  unfolding many_loop
  many_loop-Keeps zero env count seq bak q = Keeps-out_of_fuel
  many_loop-Keeps (suc fuel) env count seq bak q =
      Keeps-if _
        (Keeps-bind get_stream-Keeps (λ here q'. Keeps-bind (many_elem-Keeps env count seq) (elim [
          | none ↦ λ _. Keeps-pure q'
          | some seq' ↦ λ _. many_loop-Keeps fuel env (count + 1) seq' here q'
        ])))
        (Keeps-pure q)

  many_end-Keeps :
      (env : Repeat) (l : ManyLoop) → IsStream input l.bak → Parses input (many_end run env l)
  unfolding many_end
  many_end-Keeps env l q = Keeps-if _ (Keeps-bind (put_stream-Keeps q) (λ _ _. Keeps-pure tt)) (
      Keeps-bind {P = Any} (Keeps-if l.broken (put_stream-Keeps q) (Keeps-pure tt))
        (λ _ _. returned-Keeps (some (sequence l.seq))))

  pub parse_many-Keeps : (fuel : ℕ) (env : Repeat) → Parses input (parse_many run fuel env)
  unfolding parse_many
  parse_many-Keeps fuel env =
      Keeps-bind get_stream-Keeps
        (λ i q. Keeps-bind (many_loop-Keeps fuel env 0 nil i q) (λ l q'. many_end-Keeps env l q'))

  length_count-Keeps : (t : Option Token) → Keeps input Any (length_count t)
  unfolding length_count
  length_count-Keeps none = Keeps-stuck
  length_count-Keeps (some absent) = Keeps-stuck
  length_count-Keeps (some (bytes bs)) = Keeps-stuck
  length_count-Keeps (some (sint n)) = Keeps-stuck
  length_count-Keeps (some (uint n)) = Keeps-pure tt
  length_count-Keeps (some (sequence ts)) = Keeps-stuck
  length_count-Keeps (some err) = Keeps-stuck
  length_count-Keeps (some (user t p)) = Keeps-stuck

  pub parse_length_value-Keeps :
      (fuel length value : ℕ) → Parses input (parse_length_value run fuel length value)
  unfolding parse_length_value
  parse_length_value-Keeps fuel length value = Keeps-bind (h length) (elim [
    | none ↦ λ _. Keeps-pure tt
    | some r ↦ λ _. Keeps-bind (load_result-Keeps r) (λ x _.
        Keeps-bind (length_count-Keeps x.ast) (λ n _.
          parse_many-Keeps fuel (record { p = value; sep = none; count = n; min_p = false })))
  ])
