-- ===== src/Packrat/Sound.antt =====
-- A packrat parse never reads outside the input, whatever the grammar, its left recursions included.
use hammer.Prelude.{ℕ, zero, suc, ◌≡◌, ◌≢◌, refl, Option, none, some, List, [], ◌∷◌}
use hammer.BitReader.{InputStream}
use hammer.BitReader.Pending.{IsValid}
use hammer.Syntax.{Parser, Heap, higher}
use hammer.State.{
  LeftRec, RecursionHead, CacheUnion, CacheKey, ParseState, Outcome, M, ◌>>=◌, ◌>>◌, left, right,
  fault,
}
use hammer.State.Keeps.{
  IsStream, Ensures, holds, was_halted, was_unfinished, Keeps, Any, Parses, Keeps-bind, Keeps-pure,
  Keeps-stuck, Keeps-out_of_fuel, Keeps-if, Keeps-elim, Keeps-option, Keeps-found, get_stream-Keeps,
  put_stream-Keeps, load_result-Keeps, store_result-Keeps,
}
use hammer.Packrat.Dispatch.Sound.{Fits, parse_vtable-Keeps}
use hammer.Packrat.{
  cache_put, cached_result, after_parse, pos_lt, perform_lowlevel_parse, evaluate, not_involved,
  recall, grown, grow_round, grow, after_first, lr_answer, first_primitive, first_higher, involve,
  head_of, setup_lr, from_cache, do_parse_with, h_do_parse, start_state, h_packrat_parse,
}
use hammer.Packrat.Stores.{
  new_value-Keeps, store_value-Keeps, load_value-Keeps, load_left_rec-Keeps, load_head-Keeps,
  new_left_rec-Keeps, store_left_rec-Keeps, new_head-Keeps, store_head-Keeps, cache_get-Keeps,
  cache_put-Keeps, recursion_get-Keeps, recursion_put-Keeps, recursion_del-Keeps,
  get_lr_stack-Keeps, lr_push-Keeps, lr_pop-Keeps, cached_result-Keeps, cached_lr-Keeps,
}

module _ {input : List ℕ} where
  after_parse-Keeps : (bak : InputStream) (r : Option ℕ) → Parses input (after_parse bak r)
  unfolding after_parse
  after_parse-Keeps bak none = Keeps-pure tt
  after_parse-Keeps bak (some r) = Keeps-bind get_stream-Keeps (λ after _.
      Keeps-bind (load_result-Keeps r) (λ x _.
        Keeps-bind (store_result-Keeps r _) (λ _ _. Keeps-if _ (Keeps-pure tt) (Keeps-pure tt))))

  involve-Keeps : (p h : ℕ) (stack : List ℕ) → Keeps input Any (involve p h stack)
  unfolding involve
  involve-Keeps p h [] = Keeps-pure tt
  involve-Keeps p h (l ∷ stack) = Keeps-bind (load_left_rec-Keeps l) (λ lr _.
      Keeps-if _ (Keeps-pure tt) (
        Keeps-bind (store_left_rec-Keeps l _) (λ _ _.
          Keeps-bind (load_head-Keeps h)
            (λ head _. Keeps-bind (store_head-Keeps h _) (λ _ _. involve-Keeps p h stack)))))

  head_of-Keeps : (p rec : ℕ) (lr : LeftRec) → Keeps input Any (head_of p rec lr)
  unfolding head_of
  head_of-Keeps p rec lr =
      Keeps-option lr.head
        (Keeps-bind (new_head-Keeps _)
          (λ h _. Keeps-bind (store_left_rec-Keeps rec _) (λ _ _. Keeps-pure tt)))
        (λ h. Keeps-pure tt)

  setup_lr-Keeps : (p rec : ℕ) → Keeps input Any (setup_lr p rec)
  unfolding setup_lr
  setup_lr-Keeps p rec = Keeps-bind (load_left_rec-Keeps rec) (λ lr _.
      Keeps-bind (head_of-Keeps p rec lr)
        (λ h _. Keeps-bind get_lr_stack-Keeps (λ stack _. involve-Keeps p h stack)))

  Keeps-union :
      {A : Type 0} (u : CacheUnion) {f : ℕ → M A} {g : Option ℕ → M A}
      → ((l : ℕ) → Keeps input Any (f l))
      → ((r : Option ℕ) → Keeps input Any (g r))
      → Keeps input Any (elim u [ left l ↦ f l | right r ↦ g r ])
  Keeps-union (left l) h k = h l
  Keeps-union (right r) h k = k r

  from_cache-Keeps : (p c : ℕ) → Parses input (from_cache p c)
  unfolding from_cache
  from_cache-Keeps p c = Keeps-bind (load_value-Keeps c) (λ m q.
      Keeps-bind (put_stream-Keeps q) (λ _ _.
        Keeps-union m.value
          (λ rec.
            Keeps-bind (setup_lr-Keeps p rec)
              (λ _ _. Keeps-bind (load_left_rec-Keeps rec) (λ lr _. Keeps-pure tt)))
          (λ r. Keeps-pure tt)))

  cached_put-Keeps :
      (k : CacheKey) (r : Option ℕ) {f : ℕ → M (Option ℕ)}
      → ((c : ℕ) → Parses input (f c))
      → Parses input (cached_result r >>= λ c. cache_put k c >> f c)
  cached_put-Keeps k r h =
      Keeps-bind (cached_result-Keeps r) (λ c _. Keeps-bind (cache_put-Keeps k c) (λ _ _. h c))

module _ {input : List ℕ} {low : ℕ → M (Option ℕ)} (h : (p : ℕ) → Parses input (low p)) where
  evaluate-Keeps :
      (k : CacheKey) (hd : ℕ) (head : RecursionHead) (eval : List ℕ) (cached : Option ℕ)
      → Parses input (evaluate low k hd head eval cached)
  unfolding evaluate
  evaluate-Keeps k hd head eval cached = Keeps-bind (store_head-Keeps hd _) (λ _ _.
      Keeps-bind (h k.parser) (λ tmp _.
        Keeps-option cached
          (Keeps-bind (cached_result-Keeps tmp)
            (λ c _. Keeps-bind (cache_put-Keeps k c) (λ _ _. Keeps-pure tt)))
          (λ c. Keeps-bind get_stream-Keeps (λ i q.
            Keeps-bind (store_value-Keeps c (record { value = right tmp; input_stream = i }) q)
              (λ _ _. Keeps-pure tt)))))

  not_involved-Keeps :
      (k : CacheKey)
      → IsStream input k.input_pos
      → (head : RecursionHead) (cached : Option ℕ) → Parses input (not_involved k head cached)
  unfolding not_involved
  not_involved-Keeps k q head (some c) = Keeps-pure tt
  not_involved-Keeps k q head none = Keeps-if _ (Keeps-pure tt) (
      Keeps-bind (new_value-Keeps (record { value = right none; input_stream = k.input_pos }) q)
        (λ c _. Keeps-pure tt))

  recall-Keeps : (k : CacheKey) → IsStream input k.input_pos → Parses input (recall low k)
  unfolding recall
  recall-Keeps k q = Keeps-bind (cache_get-Keeps k) (λ cached _.
      Keeps-bind (recursion_get-Keeps k.input_pos) (λ found _.
        Keeps-option found (Keeps-pure tt) (λ hd. Keeps-bind (load_head-Keeps hd) (λ head _.
          Keeps-bind (not_involved-Keeps k q head cached) (λ cached' _.
            Keeps-option head.eval_set Keeps-stuck
              (λ eval. Keeps-if _ (evaluate-Keeps k hd head eval cached') (Keeps-pure tt)))))))

  grown-Keeps : (k : CacheKey) → Parses input (grown k)
  unfolding grown
  grown-Keeps k = Keeps-bind (recursion_del-Keeps k.input_pos) (λ _ _.
      Keeps-bind (cache_get-Keeps k) (λ found _. Keeps-option found Keeps-stuck (λ c.
        Keeps-bind (load_value-Keeps c) (λ v q.
          Keeps-union v.value (λ l. Keeps-stuck)
            (λ r. Keeps-bind (put_stream-Keeps q) (λ _ _. Keeps-pure tt))))))

  grow_round-Keeps :
      (k : CacheKey) → IsStream input k.input_pos → (hd : ℕ) → Keeps input Any (grow_round low k hd)
  unfolding grow_round
  grow_round-Keeps k q hd = Keeps-bind (recursion_put-Keeps k.input_pos hd) (λ _ _.
      Keeps-bind (cache_get-Keeps k) (λ found _. Keeps-option found Keeps-stuck (λ c.
        Keeps-bind (load_value-Keeps c) (λ old _.
          Keeps-union old.value (λ l. Keeps-stuck)
            (λ old_res. Keeps-bind (put_stream-Keeps q) (λ _ _.
              Keeps-bind (load_head-Keeps hd) (λ head _.
                Keeps-bind (store_head-Keeps hd _)
                  (λ _ _. Keeps-bind (h k.parser) (λ tmp _. Keeps-pure tt)))))))))

  grow-Keeps :
      (fuel : ℕ) (k : CacheKey)
      → IsStream input k.input_pos
      → (hd : ℕ) → Parses input (grow low fuel k hd)
  unfolding grow
  grow-Keeps zero k q hd = Keeps-out_of_fuel
  grow-Keeps (suc fuel) k q hd = Keeps-bind (grow_round-Keeps k q hd) (λ x _.
      Keeps-bind (load_value-Keeps _) (λ old q'. Keeps-bind get_stream-Keeps (λ now _.
        Keeps-option x.2
          (Keeps-bind (recursion_del-Keeps k.input_pos)
            (λ _ _. Keeps-bind (put_stream-Keeps q') (λ _ _. Keeps-pure tt)))
          (λ r.
            Keeps-elim (pos_lt old.input_stream now)
              (Keeps-bind (cached_result-Keeps (some r))
                (λ c _. Keeps-bind (cache_put-Keeps k c) (λ _ _. grow-Keeps fuel k q hd)))
              (grown-Keeps k)))))

  lr_answer-Keeps :
      (fuel : ℕ) (k : CacheKey)
      → IsStream input k.input_pos
      → (growable : LeftRec) → Parses input (lr_answer low fuel k growable)
  unfolding lr_answer
  lr_answer-Keeps fuel k q growable = Keeps-option growable.head Keeps-stuck (λ hd.
      Keeps-bind (load_head-Keeps hd) (λ head _.
        Keeps-if _
          (Keeps-bind (cached_result-Keeps growable.seed) (λ c _.
            Keeps-bind (cache_put-Keeps k c)
              (λ _ _. Keeps-option growable.seed (Keeps-pure tt) (λ r. grow-Keeps fuel k q hd))))
          (Keeps-pure tt)))

  first_primitive-Keeps : (k : CacheKey) → Parses input (first_primitive low k)
  unfolding first_primitive
  first_primitive-Keeps k = Keeps-bind (h k.parser) (λ tmp _.
      Keeps-bind (cached_result-Keeps tmp)
        (λ c _. Keeps-bind (cache_put-Keeps k c) (λ _ _. Keeps-pure tt)))

  after_first-Keeps :
      (fuel : ℕ) (k : CacheKey)
      → IsStream input k.input_pos
      → (base c : ℕ) (tmp : Option ℕ) → Parses input (after_first low fuel k base c tmp)
  unfolding after_first
  after_first-Keeps fuel k q base c tmp = Keeps-bind (load_value-Keeps c) (λ v _.
      Keeps-bind get_stream-Keeps (λ i q'.
        Keeps-bind (store_value-Keeps c (record v { input_stream = i }) q') (λ _ _.
          Keeps-bind (load_left_rec-Keeps base) (λ b _.
            Keeps-option b.head (cached_put-Keeps k tmp (λ c'. Keeps-pure tt)) (λ hd.
              Keeps-bind (store_left_rec-Keeps base _)
                (λ _ _. lr_answer-Keeps fuel k q (record b { seed = tmp })))))))

  first_higher-Keeps :
      (fuel : ℕ) (k : CacheKey)
      → IsStream input k.input_pos
      → Parses input (first_higher low fuel k)
  unfolding first_higher
  first_higher-Keeps fuel k q = Keeps-bind (new_left_rec-Keeps _) (λ base _.
      Keeps-bind (lr_push-Keeps base) (λ _ _. Keeps-bind (cached_lr-Keeps base) (λ lr _.
        Keeps-bind (cache_put-Keeps k lr) (λ _ _. Keeps-bind (h k.parser) (λ tmp _.
          Keeps-bind lr_pop-Keeps (λ _ _. Keeps-bind (cache_get-Keeps k) (λ found _.
            Keeps-option found Keeps-stuck (λ c. after_first-Keeps fuel k q base c tmp))))))))

module _ {input : List ℕ} {heap : Heap}
    (fits : (p : ℕ) (v : Parser) → heap p ≡ some v → Fits v) where
  perform_lowlevel_parse-Keeps :
      {run : ℕ → M (Option ℕ)}
      → ((p : ℕ) → Parses input (run p))
      → (fuel p : ℕ) → Parses input (perform_lowlevel_parse heap run fuel p)
  unfolding perform_lowlevel_parse
  perform_lowlevel_parse-Keeps h fuel p = Keeps-bind get_stream-Keeps (λ bak _.
      Keeps-found (heap p) Keeps-stuck (λ v e.
        Keeps-bind (parse_vtable-Keeps h fuel v (fits p v e)) (λ r _. after_parse-Keeps bak r)))

  do_parse_with-Keeps :
      {low : ℕ → M (Option ℕ)}
      → ((p : ℕ) → Parses input (low p))
      → (fuel p : ℕ) (v : Parser) → Parses input (do_parse_with heap low fuel p v)
  unfolding do_parse_with
  do_parse_with-Keeps h fuel p v = Keeps-bind get_stream-Keeps (λ i q.
      Keeps-if (higher v)
        (Keeps-bind (recall-Keeps h _ q)
          (λ m _. Keeps-option m (first_higher-Keeps h fuel _ q) (λ c. from_cache-Keeps p c)))
        (first_primitive-Keeps h _))

  h_do_parse-Keeps : (fuel p : ℕ) → Parses input (h_do_parse heap fuel p)
  unfolding h_do_parse
  h_do_parse-Keeps zero p = Keeps-out_of_fuel
  h_do_parse-Keeps (suc fuel) p = Keeps-option (heap p) Keeps-stuck (λ v.
      do_parse_with-Keeps (perform_lowlevel_parse-Keeps (h_do_parse-Keeps fuel) fuel) fuel p v)

not_fault :
    {A : Type 0} {P : A → Type 0} {Q : ParseState → Type 0} {o : Outcome A}
    → Ensures P Q o
    → o ≢ fault
not_fault (holds p q) e = cc
not_fault was_halted e = cc
not_fault was_unfinished e = cc

-- On a valid input, h_packrat_parse reads no byte outside the input, and none of its reads makes an
-- undefined shift, whatever the grammar, as long as its h_bits fields have 1 to 63 bits and it has no
-- h_whitespace. Failed assertions, exits and uses of a NULL or dangling pointer are not excluded.
pub h_packrat_parse-never_faults :
    {heap : Heap}
    → ((p : ℕ) (v : Parser) → heap p ≡ some v → Fits v)
    → (fuel p : ℕ) (input : InputStream) → IsValid input
    → h_packrat_parse heap fuel p input ≢ fault
unfolding h_packrat_parse start_state
h_packrat_parse-never_faults {heap} fits fuel p input v = not_fault {P = Any} (
    (Keeps-bind (h_do_parse-Keeps {heap = heap} fits fuel p) (λ r _.
        Keeps-option r (Keeps-pure tt)
          (λ x. Keeps-bind (load_result-Keeps x) (λ y _. Keeps-pure tt)))).apply
      (start_state input) (record { stream = record { valid = v; same = refl }; values = tt }))
