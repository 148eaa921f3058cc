-- ===== src/State/Keeps.antt =====
-- Soundness of a parse state: every stream in it is a consistent position in the one input. `Keeps`
-- says that a run from a sound state never reads outside the input and ends in a sound state.
use hammer.Prelude.{
  ◌<◌, arith, ℕ, zero, suc, ◌≡◌, refl, ◌∙◌, Bool, true, false, Option, none, some, List, [], ◌∷◌,
  ◌++◌, get_elem?, set, if◌then◌else◌,
}
use hammer.BitReader.{InputStream}
use hammer.BitReader.Pending.{IsValid}
use hammer.BitReader.Laws.{shifts_enough, h_read_bits-IsReadOf}
use hammer.Syntax.{Token, ParseResult}
use hammer.State.{
  ParseState, Outcome, M, load_outcome, continue_with, ◌>>=◌, pure, stuck, get_stream, put_stream,
  read_bits, make_result, load_result, store_result, done, halted, out_of_fuel,
}

-- A consistent stream over the bytes `input`.
pub record IsStream (input : List ℕ) (i : InputStream) : Type 0 where
  pub valid : IsValid i
  pub same : i.input ≡ input

abbrev pub All {ℓ κ} : {A : Type ℓ} → (A → Type κ) → List A → Type κ
All P [] = Unit
All P (x ∷ xs) = P x × All P xs

pub All-append {ℓ κ} :
    {A : Type ℓ} (P : A → Type κ) (xs : List A) {y : A} → All P xs → P y → All P (xs ++ y ∷ [])
All-append P [] h k = (k, tt)
All-append P (x ∷ xs) h k = (h.0, All-append P xs h.1 k)

pub All-set {ℓ κ} :
    {A : Type ℓ} (P : A → Type κ) (xs : List A) (i : ℕ) {y : A}
    → All P xs
    → P y
    → All P (set xs i y)
All-set P [] i h k = h
All-set P (x ∷ xs) zero h k = (k, h.1)
All-set P (x ∷ xs) (suc i) h k = (h.0, All-set P xs i h.1 k)

-- `P` of what an option holds.
abbrev pub Whenever {ℓ κ} : {A : Type ℓ} → (A → Type κ) → Option A → Type κ
Whenever P none = Unit
Whenever P (some x) = P x

pub All-get {ℓ κ} :
    {A : Type ℓ} (P : A → Type κ) (xs : List A) (i : ℕ) → All P xs → Whenever P (get_elem? xs i)
All-get P [] i h = tt
All-get P (x ∷ xs) zero h = h.0
All-get P (x ∷ xs) (suc i) h = All-get P xs i h.1

pub record IsSound (input : List ℕ) (s : ParseState) : Type 0 where
  pub stream : IsStream input s.input_stream
  pub values : All (λ v. IsStream input v.input_stream) s.values

-- An outcome that is no fault, and whose value and state satisfy `P` and `Q` if there is one.
pub data Ensures {ℓ κ λ'} {A : Type ℓ} (P : A → Type κ) (Q : ParseState → Type λ')
    : Outcome A → Type (ℓ ⊔ κ ⊔ λ') where
  holds : {a : A} {s : ParseState} → P a → Q s → Ensures P Q (done a s)
  was_halted : Ensures P Q halted
  was_unfinished : Ensures P Q out_of_fuel

pub record Keeps {ℓ κ} (input : List ℕ) {A : Type ℓ} (P : A → Type κ) (m : M A) : Type (ℓ ⊔ κ) where
  pub apply : (s : ParseState) → IsSound input s → Ensures P (IsSound input) (m s)

-- No more is said of the value.
abbrev pub Any {ℓ} : {A : Type ℓ} → A → Type 0
Any a = Unit {0}

module _ {ℓ κ ℓ' κ'} {input : List ℕ} {A : Type ℓ} {P : A → Type κ} {B : Type ℓ'}
    {Q : B → Type κ'} where
  bind_outcome :
      {o : Outcome A} {f : A → M B}
      → Ensures P (IsSound input) o
      → ((a : A) → P a → Keeps input Q (f a))
      → Ensures Q (IsSound input) (continue_with o f)
  bind_outcome (holds {a} {s} p q) k = (k a p).apply s q
  bind_outcome was_halted k = was_halted
  bind_outcome was_unfinished k = was_unfinished

  pub Keeps-bind :
      {m : M A} {f : A → M B}
      → Keeps input P m
      → ((a : A) → P a → Keeps input Q (f a))
      → Keeps input Q (m >>= f)
  Keeps-bind h k = record { apply = λ s q. bind_outcome (h.apply s q) k }

module _ {ℓ κ} {input : List ℕ} {A : Type ℓ} {P : A → Type κ} where
  pub Keeps-pure : {a : A} → P a → Keeps input P (pure a)
  Keeps-pure p = record { apply = λ s q. holds p q }

  pub Keeps-stuck : Keeps input P stuck
  Keeps-stuck = record { apply = λ s q. was_halted }

  pub Keeps-out_of_fuel : Keeps input P (λ s. out_of_fuel)
  Keeps-out_of_fuel = record { apply = λ s q. was_unfinished }

  pub Keeps-if :
      (b : Bool) {m n : M A}
      → Keeps input P m
      → Keeps input P n
      → Keeps input P (if b then m else n)
  Keeps-if true h k = h
  Keeps-if false h k = k

  pub Keeps-elim :
      (b : Bool) {m n : M A}
      → Keeps input P m
      → Keeps input P n
      → Keeps input P (elim b [ true ↦ m | false ↦ n ])
  Keeps-elim true h k = h
  Keeps-elim false h k = k

module _ {ℓ κ ℓ'} {input : List ℕ} {A : Type ℓ} {P : A → Type κ} {B : Type ℓ'} where
  pub Keeps-option :
      (o : Option B) {m : M A} {f : B → M A}
      → Keeps input P m
      → ((b : B) → Keeps input P (f b))
      → Keeps input P (elim o [ none ↦ m | some b ↦ f b ])
  Keeps-option none h k = h
  Keeps-option (some b) h k = k b

  -- The same, where the branch may use what the option is.
  pub Keeps-found :
      (o : Option B) {m : M A} {f : B → M A}
      → Keeps input P m
      → ((b : B) → o ≡ some b → Keeps input P (f b))
      → Keeps input P (elim o [ none ↦ m | some b ↦ f b ])
  Keeps-found none h k = h
  Keeps-found (some b) h k = k b refl

module _ {input : List ℕ} where
  pub get_stream-Keeps : Keeps input (IsStream input) get_stream
  unfolding get_stream
  get_stream-Keeps = record { apply = λ s q. holds q.stream q }

  pub put_stream-Keeps : {i : InputStream} → IsStream input i → Keeps input Any (put_stream i)
  unfolding put_stream
  put_stream-Keeps h = record { apply = λ s q. holds tt (record { stream = h; values = q.values }) }

  -- A read of fewer than 64 bits. One of 64 is undefined where none is left.
  pub read_bits-Keeps :
      (count : ℕ) (signed : Bool)
      → 0 < count
      → count < 64
      → Keeps input Any (read_bits count signed)
  unfolding read_bits
  read_bits-Keeps count signed pos h = record {
    apply = λ s q.
        let r = h_read_bits-IsReadOf s.input_stream count signed q.stream.valid (omega arith) in
        rw
          (r.returns, shifts_enough s.input_stream count pos (omega arith) (omega arith), read_bits)
          (holds tt (record {
            stream = record { valid = r.valid; same = r.input ∙ q.stream.same };
            values = q.values;
          }));
  }

  pub make_result-Keeps : (ast : Option Token) → Keeps input Any (make_result ast)
  unfolding make_result
  make_result-Keeps ast = record {
    apply = λ s q. holds tt (record { stream = q.stream; values = q.values });
  }

  loaded :
      (s : ParseState) (o : Option ParseResult)
      → IsSound input s
      → Ensures {A = ParseResult} Any (IsSound input) (load_outcome s o)
  loaded s none q = was_halted
  loaded s (some x) q = holds tt q

  pub load_result-Keeps : (r : ℕ) → Keeps input Any (load_result r)
  unfolding load_result
  load_result-Keeps r = record { apply = λ s q. loaded s (get_elem? s.results r) q }

  pub store_result-Keeps : (r : ℕ) (x : ParseResult) → Keeps input Any (store_result r x)
  unfolding store_result
  store_result-Keeps r x = record {
    apply = λ s q. holds tt (record { stream = q.stream; values = q.values });
  }

-- A parse function: whatever result it names.
abbrev pub Parses : List ℕ → M (Option ℕ) → Type 0
Parses input m = Keeps input Any m

-- A new result is what a parser returns.
pub returned-Keeps :
    {input : List ℕ} (ast : Option Token) → Parses input (make_result ast >>= λ r. pure (some r))
returned-Keeps ast = Keeps-bind (make_result-Keeps ast) (λ r _. Keeps-pure tt)
