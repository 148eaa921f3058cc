-- ===== src/Packrat.antt =====
-- src/backends/packrat.c: parsing with memoization and left recursion after Warth.
--
-- Recursion takes fuel: one unit for each level of h_do_parse and for each round of grow or of a
-- repetition. `out_of_fuel` has no counterpart in the source, where such a run goes on.
pub mod Dispatch
pub mod Memo
pub mod Overrun
pub mod Sound
pub mod Stores
mod Tests
use hammer.Prelude.{
  ℕ, zero, suc, ◌+◌, ◌-◌, ◌*◌, ◌%◌, ◌^◌, Bool, true, false, not, ◌&&◌, ◌||◌, Option, none, some,
  List, [], ◌∷◌, ◌++◌, length, get_elem?, set, ltb, leb, ◌==◌, if◌then◌else◌,
}
use hammer.BitReader.{Endianness, InputStream, h_input_stream_pos}
use hammer.Syntax.{Parser, ParseResult, Heap, higher, err}
use hammer.State
use hammer.State.{
  LeftRec, RecursionHead, CacheUnion, CacheValue, CacheKey, ParseState, Outcome, M, ◌>>=◌, ◌>>◌,
  pure, stuck, get_stream, put_stream, load_outcome, load_result, store_result, pos_equal,
  cache_key_equal, table_get, table_del, left, right, done, halted, out_of_fuel,
}
use Dispatch.{parse_vtable}

-- Allocation in the stores, and reads and writes through a pointer.
pub new_value : CacheValue → M ℕ
new_value v s = done (length s.values) (record s { values = s.values ++ v ∷ [] })

pub load_value : ℕ → M CacheValue
load_value c s = load_outcome s (get_elem? s.values c)

pub store_value : ℕ → CacheValue → M (Unit {0})
store_value c v s = done tt (record s { values = set s.values c v })

pub new_left_rec : LeftRec → M ℕ
new_left_rec l s = done (length s.left_recs) (record s { left_recs = s.left_recs ++ l ∷ [] })

pub load_left_rec : ℕ → M LeftRec
load_left_rec l s = load_outcome s (get_elem? s.left_recs l)

pub store_left_rec : ℕ → LeftRec → M (Unit {0})
store_left_rec l x s = done tt (record s { left_recs = set s.left_recs l x })

pub new_head : RecursionHead → M ℕ
new_head h s = done (length s.heads) (record s { heads = s.heads ++ h ∷ [] })

pub load_head : ℕ → M RecursionHead
load_head h s = load_outcome s (get_elem? s.heads h)

pub store_head : ℕ → RecursionHead → M (Unit {0})
store_head h x s = done tt (record s { heads = set s.heads h x })

-- The tables of the state. A put hides what was there under an equal key.
pub cache_get : CacheKey → M (Option ℕ)
cache_get k s = done (table_get cache_key_equal k s.cache) s

pub cache_put : CacheKey → ℕ → M (Unit {0})
cache_put k c s = done tt (record s { cache = (k, c) ∷ s.cache })

pub recursion_get : InputStream → M (Option ℕ)
recursion_get i s = done (table_get pos_equal i s.recursion_heads) s

pub recursion_put : InputStream → ℕ → M (Unit {0})
recursion_put i h s = done tt (record s { recursion_heads = (i, h) ∷ s.recursion_heads })

pub recursion_del : InputStream → M (Unit {0})
recursion_del i s = done tt (record s { recursion_heads = table_del pos_equal i s.recursion_heads })

pub get_lr_stack : M (List ℕ)
get_lr_stack s = done s.lr_stack s

pub lr_push : ℕ → M (Unit {0})
lr_push l s = done tt (record s { lr_stack = l ∷ s.lr_stack })

pub lr_pop : M (Unit {0})
lr_pop s = elim s.lr_stack [ [] ↦ done tt s | l ∷ ls ↦ done tt (record s { lr_stack = ls }) ]

-- h_slist_find, and h_slist_remove_all.
pub find : List ℕ → ℕ → Bool
find [] x = false
find (y ∷ ys) x = if y == x then true else find ys x

pub remove_all : List ℕ → ℕ → List ℕ
remove_all [] x = []
remove_all (y ∷ ys) x = if y == x then remove_all ys x else y ∷ remove_all ys x

-- cached_result and cached_lr
pub cached_result : Option ℕ → M ℕ
cached_result result = do
  i ← get_stream
  new_value (record { value = right result; input_stream = i })

pub cached_lr : ℕ → M ℕ
cached_lr lr = do i ← get_stream; new_value (record { value = left lr; input_stream = i })

-- The bit_length that perform_lowlevel_parse gives to a result.
pub measured : InputStream → InputStream → ParseResult → ParseResult
measured bak after x =
    if after.overrun
    then record x { bit_length = 0 }
    else (if x.bit_length == 0
        then record x {
          bit_length = (h_input_stream_pos after + 2 ^ 64 - h_input_stream_pos bak) % 2 ^ 64;
        }
        else x)

-- After the call of vtable->parse: the length is set, and an overrun is always a failure.
pub after_parse : InputStream → Option ℕ → M (Option ℕ)
after_parse bak none = pure none
after_parse bak (some r) = do
  after ← get_stream
  x ← load_result r
  store_result r (measured bak after x)
  (if after.overrun then pure none else pure (some r))

-- pos_lt
pub pos_lt : InputStream → InputStream → Bool
pos_lt a b = ltb a.index b.index || a.index == b.index && ltb a.bit_offset b.bit_offset

module _ (heap : Heap) where
  -- perform_lowlevel_parse, where `run` is h_do_parse
  pub perform_lowlevel_parse : (ℕ → M (Option ℕ)) → ℕ → ℕ → M (Option ℕ)
  perform_lowlevel_parse run fuel p = do
    bak ← get_stream
    elim (heap p) [ none ↦ stuck | some v ↦ parse_vtable run fuel v >>= λ r. after_parse bak r ]

-- A parser that is neither cached nor involved fails at the head's position.
pub not_involved : CacheKey → RecursionHead → Option ℕ → M (Option ℕ)
not_involved k head (some c) = pure (some c)
not_involved k head none =
    if head.head_parser == k.parser || find head.involved_set k.parser
    then pure none
    else (new_value (record { value = right none; input_stream = k.input_pos }) >>= λ c.
        pure (some c))

-- The end of grow: the recursion head goes, and the last result that grew is the answer.
pub grown : CacheKey → M (Option ℕ)
grown k = do
  recursion_del k.input_pos
  found ← cache_get k
  elim found [
    | none ↦ stuck
    | some c ↦ load_value c >>= λ v. elim v.value [
      | left l ↦ stuck
      | right r ↦ put_stream v.input_stream >> pure r
    ]
  ]

module _ (low : ℕ → M (Option ℕ)) where
  -- The second part of recall: the parser is in the eval_set and is run once more.
  pub evaluate : CacheKey → ℕ → RecursionHead → List ℕ → Option ℕ → M (Option ℕ)
  evaluate k h head eval cached = do
    store_head h (record head { eval_set = some (remove_all eval k.parser) })
    tmp_res ← low k.parser
    elim cached [
      | none ↦ cached_result tmp_res >>= λ c. cache_put k c >> pure (some c)
      | some c ↦ get_stream >>= λ i.
          store_value c (record { value = right tmp_res; input_stream = i }) >> pure (some c)
    ]

  pub recall : CacheKey → M (Option ℕ)
  recall k = do
    cached ← cache_get k
    found ← recursion_get k.input_pos
    elim found [
      | none ↦ pure cached
      | some h ↦ load_head h >>= λ head. not_involved k head cached >>= λ cached'.
          elim head.eval_set [
            | none ↦ stuck
            | some eval ↦
                (if find eval k.parser then evaluate k h head eval cached' else pure cached')
          ]
    ]

  -- One round of grow before its recursive call: the address of the seed's cache value, the seed's
  -- result, and the new result.
  pub grow_round : CacheKey → ℕ → M (ℕ × Option ℕ × Option ℕ)
  grow_round k h = do
    recursion_put k.input_pos h
    found ← cache_get k
    elim found [
      | none ↦ stuck
      | some c ↦ load_value c >>= λ old. elim old.value [
        | left l ↦ stuck
        | right old_res ↦
            put_stream k.input_pos
            >> (load_head h >>= λ head.
                store_head h (record head { eval_set = some head.involved_set })
                >> (low k.parser >>= λ tmp. pure (c, old_res, tmp)))
      ]
    ]

  pub grow : ℕ → CacheKey → ℕ → M (Option ℕ)
  grow zero k h = λ s. out_of_fuel
  grow (suc fuel) k h = do
    (c, old_res, tmp_res) ← grow_round k h
    old_cached ← load_value c
    now ← get_stream
    elim tmp_res [
      | none ↦ recursion_del k.input_pos >> (put_stream old_cached.input_stream >> pure old_res)
      | some r ↦ elim (pos_lt old_cached.input_stream now) [
        | true ↦ cached_result (some r) >>= λ c. cache_put k c >> grow fuel k h
        | false ↦ grown k
      ]
    ]

  -- `growable` is the left recursion with the seed already set.
  pub lr_answer : ℕ → CacheKey → LeftRec → M (Option ℕ)
  lr_answer fuel k growable = elim growable.head [
    | none ↦ stuck
    | some h ↦ load_head h >>= λ head.
        (if head.head_parser == k.parser
          then (cached_result growable.seed >>= λ c.
              cache_put k c >> elim growable.seed [ none ↦ pure none | some r ↦ grow fuel k h ])
          else pure growable.seed)
  ]

  -- A first visit of a primitive parser, which cannot grow.
  pub first_primitive : CacheKey → M (Option ℕ)
  first_primitive k = do
    tmp_res ← low k.parser
    c ← cached_result tmp_res
    cache_put k c
    pure tmp_res

  -- The end of a first visit: the cache value is moved on, and a recursion that was detected in
  -- between has its answer grown.
  pub after_first : ℕ → CacheKey → ℕ → ℕ → Option ℕ → M (Option ℕ)
  after_first fuel k base c tmp_res = do
    v ← load_value c
    i ← get_stream
    store_value c (record v { input_stream = i })
    b ← load_left_rec base
    elim b.head [
      | none ↦ cached_result tmp_res >>= λ c'. cache_put k c' >> pure tmp_res
      | some h ↦
          store_left_rec base (record b { seed = tmp_res })
          >> lr_answer fuel k (record b { seed = tmp_res })
    ]

  -- A first visit of a higher parser: a left recursion is cached as the seed of the parse.
  pub first_higher : ℕ → CacheKey → M (Option ℕ)
  first_higher fuel k = do
    base ← new_left_rec (record { seed = none; rule = k.parser; head = none })
    lr_push base
    lr ← cached_lr base
    cache_put k lr
    tmp_res ← low k.parser
    lr_pop
    found ← cache_get k
    elim found [ none ↦ stuck | some c ↦ after_first fuel k base c tmp_res ]

-- The loop of setupLR: every left recursion above the one for `p` gets the head and joins it.
pub involve : ℕ → ℕ → List ℕ → M (Unit {0})
involve p h [] = pure tt
involve p h (l ∷ stack) = do
  lr ← load_left_rec l
  (if lr.rule == p
      then pure tt
      else (store_left_rec l (record lr { head = some h })
          >> (load_head h >>= λ head.
              store_head h (record head { involved_set = lr.rule ∷ head.involved_set })
              >> involve p h stack)))

-- The head of a detected recursion, made if it has none.
pub head_of : ℕ → ℕ → LeftRec → M ℕ
head_of p rec lr = elim lr.head [
  | some h ↦ pure h
  | none ↦ new_head (record { head_parser = p; involved_set = []; eval_set = none }) >>= λ h.
      store_left_rec rec (record lr { head = some h }) >> pure h
]

pub setup_lr : ℕ → ℕ → M (Unit {0})
setup_lr p rec = do
  lr ← load_left_rec rec
  h ← head_of p rec lr
  stack ← get_lr_stack
  involve p h stack

-- A visit whose answer is in the cache.
pub from_cache : ℕ → ℕ → M (Option ℕ)
from_cache p c = do
  m ← load_value c
  put_stream m.input_stream
  elim m.value [
    | left rec ↦ setup_lr p rec >> (load_left_rec rec >>= λ lr. pure lr.seed)
    | right r ↦ pure r
  ]

-- The state that h_packrat_parse starts from.
pub start_state : InputStream → ParseState
start_state input = record {
  input_stream = input;
  results = record { ast = some err; bit_length = 0 } ∷ [];
  values = [];
  left_recs = [];
  heads = [];
  cache = [];
  lr_stack = [];
  recursion_heads = [];
  symbol_table = [];
}

module _ (heap : Heap) where
  -- The body of h_do_parse over perform_lowlevel_parse.
  pub do_parse_with : (ℕ → M (Option ℕ)) → ℕ → ℕ → Parser → M (Option ℕ)
  do_parse_with low fuel p v = do
    i ← get_stream
    let key : CacheKey = record { input_pos = i; parser = p }
    (if higher v
        then (recall low key >>= λ m. elim m [
          | none ↦ first_higher low fuel key
          | some c ↦ from_cache p c
        ])
        else first_primitive low key)

  pub h_do_parse : ℕ → ℕ → M (Option ℕ)
  h_do_parse zero p = λ s. out_of_fuel
  h_do_parse (suc fuel) p = elim (heap p) [
    | none ↦ stuck
    | some v ↦ do_parse_with (perform_lowlevel_parse heap (h_do_parse fuel) fuel) fuel p v
  ]

  -- h_packrat_parse, up to the release of the arena.
  pub h_packrat_parse : ℕ → ℕ → InputStream → Outcome (Option ParseResult)
  h_packrat_parse fuel p input =
      (do
        r ← h_do_parse fuel p
        elim r [ none ↦ pure none | some x ↦ load_result x >>= λ y. pure (some y) ])
        (start_state input)
