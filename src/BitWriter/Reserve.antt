-- ===== src/BitWriter/Reserve.antt =====
-- h_bit_writer_reserve, in src/bitwriter.c: the buffer keeps its bytes and grows by zeros.
use hammer.Prelude.{
  subst, length-replicate, ℕ, zero, suc, ◌+◌, ◌-◌, ◌*◌, ◌^◌, ◌≤◌, ◌<◌, ◌≡◌, refl, sym, ap, ap₂, ◌∙◌,
  true, Option, some, none, List, [], ◌∷◌, ◌++◌, arith, length, length-append, replicate, take,
  drop, append_assoc, append-nil, le_or_lt, inl, inr, leb, le→leb, lt→leb_false, if_same, if_less,
  if_true,
}
use hammer.BitReader.{u64, ◌>>=◌}
use hammer.BitReader.Pending.{take-append_left, take_all}
use hammer.BitReader.Loops.{drop-past}
use hammer.BitWriter.{
  Writer, Growth, grown, failed, clear_from, reserve_loop, after_growth, bytes_needed,
  h_bit_writer_reserve,
}

-- A realloc that succeeds, as documented: the block has the size asked for and keeps its bytes.
abbrev pub IsRealloc : (List ℕ → ℕ → Option (List ℕ)) → Type 0
IsRealloc realloc =
    (buf : List ℕ) (n : ℕ)
    → length buf ≤ n
    → (more : List ℕ) × (realloc buf n ≡ some (buf ++ more)) × (length buf + length more ≡ n)

abbrev pub longer : Writer → List ℕ → Writer
longer w more = record w { buf = w.buf ++ more; capacity = w.capacity + length more }

longer-nil : (w : Writer) → longer w [] ≡ w
longer-nil w = ap₂ (λ b c. record w { buf = b; capacity = c }) (append-nil w.buf) (omega arith)

longer-append : (w : Writer) (xs ys : List ℕ) → longer (longer w xs) ys ≡ longer w (xs ++ ys)
longer-append w xs ys =
    ap₂ (λ b c. record w { buf = b; capacity = c }) (append_assoc w.buf xs ys)
      (omega (arith, length-append xs ys))

record IsGrown (needed : ℕ) (w : Writer) (r : Option Growth) : Type 0 where
  pub more : List ℕ
  pub returns : r ≡ some (grown (longer w more))
  pub enough : needed < w.capacity + length more

-- A buffer with `more` cleared.
clear_from-append :
    (buf more : List ℕ)
    → clear_from (buf ++ more) (length buf) (length buf + length more)
      ≡ some (buf ++ replicate (length more) 0)
unfolding clear_from
clear_from-append buf more =
    let size = length buf + length more in
    let l : length (buf ++ more) ≡ size = length-append buf more in
    let kept : take (length buf) (buf ++ more) ≡ buf =
      take-append_left buf more (length buf) (omega arith) ∙ take_all buf in
    let gone : drop size (buf ++ more) ≡ [] = drop-past (buf ++ more) size (omega (arith, l)) in
    let width : size - length buf ≡ length more = omega arith in
    if_true _ _ (leb size (length (buf ++ more)))
      (le→leb size (length (buf ++ more)) (omega (arith, l)))
    ∙ rw (kept, gone, width) (ap (λ t. some (buf ++ t)) (append-nil (replicate (length more) 0)))

after_longer :
    (w : Writer) (more : List ℕ)
    → length w.buf ≡ w.capacity
    → after_growth w.capacity (grown (longer w more)) ≡ some (longer w (replicate (length more) 0))
unfolding after_growth
after_longer w [] e = if_same _ _ w.capacity (w.capacity + 0) (omega arith)
after_longer w (x ∷ more) e =
    let size = length (x ∷ more) in
    let cleared : clear_from (w.buf ++ x ∷ more) w.capacity (w.capacity + size)
        ≡ some (w.buf ++ replicate size 0) =
      subst (λ c. clear_from (w.buf ++ x ∷ more) c (c + size) ≡ some (w.buf ++ replicate size 0)) e
        (clear_from-append w.buf (x ∷ more)) in
    if_less _ _ w.capacity (w.capacity + size) (omega arith)
    ∙ ap (λ r. r >>= (λ buf. some (record w { buf = buf; capacity = w.capacity + size }))) cleared
    ∙ ap (λ k. some (record w { buf = w.buf ++ replicate size 0; capacity = w.capacity + k }))
        (sym (length-replicate size 0))

module _ (realloc : List ℕ → ℕ → Option (List ℕ)) where
  loop_stops :
      (fuel needed : ℕ) (w : Writer)
      → needed < w.capacity
      → reserve_loop realloc (suc fuel) needed w ≡ some (grown w)
  unfolding reserve_loop
  loop_stops fuel needed w h = rw (reserve_loop, lt→leb_false w.capacity needed h) refl

  pub loop_fails :
      (fuel needed : ℕ) (w : Writer)
      → w.capacity ≤ needed
      → realloc w.buf (u64 (w.capacity * 2)) ≡ none
      → reserve_loop realloc (suc fuel) needed w
        ≡ some (failed (record w { buf = []; capacity = u64 (w.capacity * 2); error = true }))
  unfolding reserve_loop
  loop_fails fuel needed w h e = rw (reserve_loop, le→leb w.capacity needed h, e) refl

  large_enough :
      (fuel needed : ℕ) (w : Writer)
      → needed < w.capacity
      → IsGrown needed w (reserve_loop realloc (suc fuel) needed w)
  large_enough fuel needed w h = record {
    more = [];
    returns = loop_stops fuel needed w h ∙ ap (λ v. some (grown v)) (sym (longer-nil w));
    enough = omega arith;
  }

  loop_grows :
      (fuel needed : ℕ) (w : Writer) (block : List ℕ)
      → w.capacity ≤ needed
      → realloc w.buf (u64 (w.capacity * 2)) ≡ some block
      → reserve_loop realloc (suc fuel) needed w
        ≡ reserve_loop realloc fuel needed
            (record w { buf = block; capacity = u64 (w.capacity * 2) })
  unfolding reserve_loop
  loop_grows fuel needed w block h e = rw (reserve_loop, le→leb w.capacity needed h, e) refl

  module _ (law : IsRealloc realloc) where
    more_rounds :
        (fuel needed : ℕ) (w : Writer)
        → length w.buf ≡ w.capacity
        → 0 < w.capacity
        → needed < 2 ^ 63
        → needed < suc fuel + w.capacity
        → w.capacity ≤ needed
        → ((v : Writer)
            → length v.buf ≡ v.capacity
            → 0 < v.capacity
            → needed < 2 ^ 63
            → needed < fuel + v.capacity
            → IsGrown needed v (reserve_loop realloc (suc fuel) needed v))
        → IsGrown needed w (reserve_loop realloc (suc (suc fuel)) needed w)
    more_rounds fuel needed w e pos small h le next =
        let double : u64 (w.capacity * 2) ≡ w.capacity * 2 = omega arith in
        let (more, got, size) = law w.buf (u64 (w.capacity * 2)) (omega (arith, double, e)) in
        let wider : u64 (w.capacity * 2) ≡ w.capacity + length more = omega (arith, size, e) in
        let rest =
          next (longer w more) (omega (arith, e, length-append w.buf more)) (omega arith) small
            (omega (arith, size, double, e)) in
        record {
          more = more ++ rest.more;
          returns =
              loop_grows (suc fuel) needed w (w.buf ++ more) le got
              ∙ ap
                  (λ c.
                    reserve_loop realloc (suc fuel) needed
                      (record w { buf = w.buf ++ more; capacity = c }))
                  wider
              ∙ rest.returns
              ∙ ap (λ v. some (grown v)) (longer-append w more rest.more);
          enough = omega (arith, rest.enough, length-append more rest.more);
        }

    reserve_loop-IsGrown :
        (fuel needed : ℕ) (w : Writer)
        → length w.buf ≡ w.capacity
        → 0 < w.capacity
        → needed < 2 ^ 63
        → needed < fuel + w.capacity
        → IsGrown needed w (reserve_loop realloc (suc fuel) needed w)
    reserve_loop-IsGrown zero needed w e pos small h = large_enough zero needed w (omega arith)
    reserve_loop-IsGrown (suc fuel) needed w e pos small h = elim (le_or_lt w.capacity needed) [
      | inl le ↦ more_rounds fuel needed w e pos small h le (reserve_loop-IsGrown fuel needed)
      | inr lt ↦ large_enough (suc fuel) needed w lt
    ]

    -- A writer with a sound buffer gets room for `nbits` more bits, all of it cleared.
    pub h_bit_writer_reserve-grows :
        (nbits : ℕ) (w : Writer)
        → length w.buf ≡ w.capacity
        → 0 < w.capacity
        → w.index + bytes_needed nbits w < 2 ^ 63
        → (k : ℕ) × (h_bit_writer_reserve realloc nbits w ≡ some (longer w (replicate k 0)))
          × (w.index + bytes_needed nbits w < w.capacity + k)
    unfolding h_bit_writer_reserve
    h_bit_writer_reserve-grows nbits w e pos small =
        let needed = u64 (w.index + bytes_needed nbits w) in
        let grown = reserve_loop-IsGrown needed needed w e pos (omega arith) (omega arith) in
        (
          length grown.more,
          ap (λ r. r >>= after_growth w.capacity) grown.returns ∙ after_longer w grown.more e,
          omega (arith, grown.enough),
        )
