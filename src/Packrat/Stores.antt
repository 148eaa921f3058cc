-- ===== src/Packrat/Stores.antt =====
-- The stores and tables of packrat.c keep a sound state sound.
use hammer.Prelude.{ℕ, Option, none, some, List, [], ◌∷◌, get_elem?}
use hammer.BitReader.{InputStream}
use hammer.State.{
  LeftRec, RecursionHead, CacheValue, CacheKey, ParseState, load_outcome, left, right, done,
}
use hammer.State.Keeps.{
  IsStream, IsSound, All-append, All-set, Ensures, holds, was_halted, Keeps, Any, Whenever, All-get,
  Keeps-bind, get_stream-Keeps,
}
use hammer.Packrat.{
  new_value, load_value, store_value, new_left_rec, load_left_rec, store_left_rec, new_head,
  load_head, store_head, cache_get, cache_put, recursion_get, recursion_put, recursion_del,
  get_lr_stack, lr_push, lr_pop, cached_result, cached_lr,
}

-- Every cache value has a stream over the input.
abbrev pub IsCached : List ℕ → CacheValue → Type 0
IsCached input v = IsStream input v.input_stream

anything : {A : Type 0} (o : Option A) → Whenever Any o
anything none = tt
anything (some x) = tt

module _ {input : List ℕ} where
  pub new_value-Keeps : (v : CacheValue) → IsCached input v → Keeps input Any (new_value v)
  unfolding new_value
  new_value-Keeps v h = record {
    apply = λ s q.
        holds tt
          (record { stream = q.stream; values = All-append (IsCached input) s.values q.values h });
  }

  pub store_value-Keeps :
      (c : ℕ) (v : CacheValue) → IsCached input v → Keeps input Any (store_value c v)
  unfolding store_value
  store_value-Keeps c v h = record {
    apply = λ s q.
        holds tt
          (record { stream = q.stream; values = All-set (IsCached input) s.values c q.values h });
  }

  loaded :
      {A : Type 0} (P : A → Type 0) (s : ParseState) (o : Option A)
      → Whenever P o
      → IsSound input s
      → Ensures P (IsSound input) (load_outcome s o)
  loaded P s none h q = was_halted
  loaded P s (some x) h q = holds h q

  pub load_value-Keeps : (c : ℕ) → Keeps input (IsCached input) (load_value c)
  unfolding load_value
  load_value-Keeps c = record {
    apply = λ s q.
        loaded (IsCached input) s (get_elem? s.values c)
          (All-get (IsCached input) s.values c q.values) q;
  }

  pub load_left_rec-Keeps : (l : ℕ) → Keeps input Any (load_left_rec l)
  unfolding load_left_rec
  load_left_rec-Keeps l = record {
    apply = λ s q. loaded Any s (get_elem? s.left_recs l) (anything _) q;
  }

  pub load_head-Keeps : (h : ℕ) → Keeps input Any (load_head h)
  unfolding load_head
  load_head-Keeps h = record { apply = λ s q. loaded Any s (get_elem? s.heads h) (anything _) q }

  pub new_left_rec-Keeps : (l : LeftRec) → Keeps input Any (new_left_rec l)
  unfolding new_left_rec
  new_left_rec-Keeps l = record {
    apply = λ s q. holds tt (record { stream = q.stream; values = q.values });
  }

  pub store_left_rec-Keeps : (l : ℕ) (x : LeftRec) → Keeps input Any (store_left_rec l x)
  unfolding store_left_rec
  store_left_rec-Keeps l x = record {
    apply = λ s q. holds tt (record { stream = q.stream; values = q.values });
  }

  pub new_head-Keeps : (h : RecursionHead) → Keeps input Any (new_head h)
  unfolding new_head
  new_head-Keeps h = record {
    apply = λ s q. holds tt (record { stream = q.stream; values = q.values });
  }

  pub store_head-Keeps : (h : ℕ) (x : RecursionHead) → Keeps input Any (store_head h x)
  unfolding store_head
  store_head-Keeps h x = record {
    apply = λ s q. holds tt (record { stream = q.stream; values = q.values });
  }

  pub cache_get-Keeps : (k : CacheKey) → Keeps input Any (cache_get k)
  unfolding cache_get
  cache_get-Keeps k = record {
    apply = λ s q. holds tt (record { stream = q.stream; values = q.values });
  }

  pub cache_put-Keeps : (k : CacheKey) (c : ℕ) → Keeps input Any (cache_put k c)
  unfolding cache_put
  cache_put-Keeps k c = record {
    apply = λ s q. holds tt (record { stream = q.stream; values = q.values });
  }

  pub recursion_get-Keeps : (i : InputStream) → Keeps input Any (recursion_get i)
  unfolding recursion_get
  recursion_get-Keeps i = record {
    apply = λ s q. holds tt (record { stream = q.stream; values = q.values });
  }

  pub recursion_put-Keeps : (i : InputStream) (h : ℕ) → Keeps input Any (recursion_put i h)
  unfolding recursion_put
  recursion_put-Keeps i h = record {
    apply = λ s q. holds tt (record { stream = q.stream; values = q.values });
  }

  pub recursion_del-Keeps : (i : InputStream) → Keeps input Any (recursion_del i)
  unfolding recursion_del
  recursion_del-Keeps i = record {
    apply = λ s q. holds tt (record { stream = q.stream; values = q.values });
  }

  pub get_lr_stack-Keeps : Keeps input Any (get_lr_stack)
  unfolding get_lr_stack
  get_lr_stack-Keeps = record {
    apply = λ s q. holds tt (record { stream = q.stream; values = q.values });
  }

  pub lr_push-Keeps : (l : ℕ) → Keeps input Any (lr_push l)
  unfolding lr_push
  lr_push-Keeps l = record {
    apply = λ s q. holds tt (record { stream = q.stream; values = q.values });
  }

  popped :
      (s : ParseState) (ls : List ℕ)
      → IsSound input s
      → Ensures {A = Unit {0}} Any
          (IsSound input)
          (elim ls [ [] ↦ done tt s | l ∷ ls' ↦ done tt (record s { lr_stack = ls' }) ])
  popped s [] q = holds tt q
  popped s (l ∷ ls) q = holds tt (record { stream = q.stream; values = q.values })

  pub lr_pop-Keeps : Keeps input Any lr_pop
  unfolding lr_pop
  lr_pop-Keeps = record { apply = λ s q. popped s s.lr_stack q }

  pub cached_result-Keeps : (r : Option ℕ) → Keeps input Any (cached_result r)
  unfolding cached_result
  cached_result-Keeps r =
      Keeps-bind get_stream-Keeps
        (λ i q. new_value-Keeps (record { value = right r; input_stream = i }) q)

  pub cached_lr-Keeps : (l : ℕ) → Keeps input Any (cached_lr l)
  unfolding cached_lr
  cached_lr-Keeps l =
      Keeps-bind get_stream-Keeps
        (λ i q. new_value-Keeps (record { value = left l; input_stream = i }) q)
