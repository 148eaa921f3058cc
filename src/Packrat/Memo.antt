-- ===== src/Packrat/Memo.antt =====
-- The cache of packrat.c: what is put at a key is what the next visit at that key returns.
use hammer.Prelude.{
  ℕ, suc, ◌≡◌, refl, ap, ◌∙◌, Bool, true, false, Option, none, some, List, [], ◌∷◌, ◌++◌, length,
  get_elem?, ◌==◌, ==_iff, if_true,
}
use hammer.BitReader.{InputStream}
use hammer.Syntax.{Parser, Heap, higher}
use hammer.State.{
  CacheValue, CacheKey, ParseState, M, at, load_outcome, continue_with, ◌>>=◌, ◌>>◌, get_stream,
  put_stream, bool_eq, pos_equal, cache_key_equal, table_get, right, done,
}
use hammer.Packrat.{
  new_value, load_value, cache_get, cache_put, recursion_get, cached_result, recall, from_cache,
  do_parse_with, h_do_parse, first_higher, perform_lowlevel_parse,
}

get_elem?-last : {A : Type 0} (xs : List A) (x : A) → get_elem? (xs ++ x ∷ []) (length xs) ≡ some x
get_elem?-last [] x = refl
get_elem?-last (y ∷ xs) x = get_elem?-last xs x

bool_eq_refl : (b : Bool) → bool_eq b b ≡ true
bool_eq_refl true = refl
bool_eq_refl false = refl

==-refl : (n : ℕ) → (n == n) ≡ true
==-refl n = (==_iff n n).1 refl

-- A stream is equal to itself, and so is a key.
pos_equal_refl : (i : InputStream) → pos_equal i i ≡ true
unfolding pos_equal
pos_equal_refl i =
    rw
      (
        ==-refl i.pos,
        ==-refl i.index,
        ==-refl i.bit_offset,
        ==-refl i.margin,
        bool_eq_refl i.endianness.byte_big,
        bool_eq_refl i.endianness.bit_big,
        bool_eq_refl i.overrun,
        bool_eq_refl i.last_chunk,
        pos_equal,
      )
      refl

cache_key_equal_refl : (k : CacheKey) → cache_key_equal k k ≡ true
unfolding cache_key_equal
cache_key_equal_refl k = rw (pos_equal_refl k.input_pos, ==-refl k.parser, cache_key_equal) refl

load_value-eq :
    (s : ParseState) (c : ℕ) {v : CacheValue}
    → get_elem? s.values c ≡ some v
    → load_value c s ≡ done v s
unfolding load_value
load_value-eq s c e = ap (load_outcome s) e

recall-hit :
    (low : ℕ → M (Option ℕ)) (k : CacheKey) (s : ParseState)
    → table_get pos_equal k.input_pos s.recursion_heads ≡ none
    → recall low k s ≡ done (table_get cache_key_equal k s.cache) s
unfolding recall cache_get recursion_get
recall-hit low k s g = rw (g, recall) refl

from_cache-hit :
    (p c : ℕ) (s : ParseState) {r : Option ℕ} {i : InputStream}
    → get_elem? s.values c ≡ some (record { value = right r; input_stream = i })
    → from_cache p c s ≡ done r (at s i)
unfolding from_cache put_stream load_value
from_cache-hit p c s l = rw (load_value-eq s c l, from_cache) refl

module _ (heap : Heap) where
  do_parse_with-hit :
      (low : ℕ → M (Option ℕ)) (fuel p c : ℕ) (s : ParseState) (v : Parser) {r : Option ℕ}
      {i : InputStream}
      → higher v ≡ true
      → table_get pos_equal s.input_stream s.recursion_heads ≡ none
      → table_get cache_key_equal (record { input_pos = s.input_stream; parser = p }) s.cache
        ≡ some c
      → get_elem? s.values c ≡ some (record { value = right r; input_stream = i })
      → do_parse_with heap low fuel p v s ≡ done r (at s i)
  unfolding do_parse_with get_stream
  do_parse_with-hit low fuel p c s v h g k l =
      rw (h, do_parse_with)
        (ap (λ o. continue_with o answer) (recall-hit low key s g)
          ∙ ap (λ o. answer o s) k
          ∙ from_cache-hit p c s l)
    where
      key : CacheKey
      key = record { input_pos = s.input_stream; parser = p }

      answer : Option ℕ → M (Option ℕ)
      answer m = elim m [ none ↦ first_higher low fuel key | some c ↦ from_cache p c ]

  -- A visit of a higher parser that has a result in the cache, where no left recursion grows at this
  -- position, returns that result and its stream, and changes nothing else.
  h_do_parse-cached :
      (fuel p c : ℕ) (s : ParseState) {v : Parser} {r : Option ℕ} {i : InputStream}
      → heap p ≡ some v
      → higher v ≡ true
      → table_get pos_equal s.input_stream s.recursion_heads ≡ none
      → table_get cache_key_equal (record { input_pos = s.input_stream; parser = p }) s.cache
        ≡ some c
      → get_elem? s.values c ≡ some (record { value = right r; input_stream = i })
      → h_do_parse heap (suc fuel) p s ≡ done r (at s i)
  unfolding h_do_parse
  h_do_parse-cached fuel p c s {v = v} e h g k l =
      rw (e, h_do_parse)
        (do_parse_with-hit (perform_lowlevel_parse heap (h_do_parse heap fuel) fuel) fuel p c s v h
          g k l)

  -- What is cached for a higher parser at a position is what its next visit there returns, with the
  -- stream that it was cached with, where no left recursion grows at that position.
  pub cached_result-visit :
      (fuel : ℕ) (k : CacheKey) (r : Option ℕ) (s : ParseState) {v : Parser}
      → heap k.parser ≡ some v
      → higher v ≡ true
      → table_get pos_equal k.input_pos s.recursion_heads ≡ none
      → continue_with
          ((cached_result r >>= λ c. cache_put k c) s)
          (λ u. put_stream k.input_pos >> h_do_parse heap (suc fuel) k.parser)
        ≡ done r (record s {
          values = s.values ++ record { value = right r; input_stream = s.input_stream } ∷ [];
          cache = (k, length s.values) ∷ s.cache;
        })
  unfolding cached_result new_value cache_put get_stream put_stream table_get
  cached_result-visit fuel k r s e h g =
      h_do_parse-cached fuel k.parser (length s.values) _ e h g
        (if_true _ _ _ (cache_key_equal_refl k)) (get_elem?-last s.values _)
