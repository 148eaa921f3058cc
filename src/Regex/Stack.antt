-- ===== src/Regex/Stack.antt =====
-- The stack of HSVMContext, its top first, and the actions of src/backends/regex.c on it. No item is
-- aliased, as the comment in src/backends/regex.h assumes.
use hammer.Prelude.{
  ℕ, zero, suc, ◌+◌, ◌≡◌, refl, ap, ◌∙◌, Bool, true, false, Option, none, some, List, [], ◌∷◌,
  arith, length, get_elem?, drop,
}
use hammer.Syntax.{Token, sequence, Tokens, nil, elem}

-- A mark (TT_MARK) or another token, with its index.
pub data Slot : Type 0 where
  mark : ℕ → Slot
  item : ℕ → Token → Slot

abbrev pub Stack : Type 0
Stack = List Slot

-- The number of items above the topmost mark, or of all items.
unfoldable pub h_svm_count_to_mark : Stack → ℕ
h_svm_count_to_mark [] = 0
h_svm_count_to_mark (mark i ∷ stack) = 0
h_svm_count_to_mark (item i t ∷ stack) = suc (h_svm_count_to_mark stack)

-- The `n` topmost tokens, the lowest first, before `above`. There is no mark among them.
unfoldable pub top_items : ℕ → Stack → Tokens → Option Tokens
top_items zero stack above = some above
top_items (suc n) (item i t ∷ stack) above = top_items n stack (elem t above)
top_items (suc n) (mark i ∷ stack) above = none
top_items (suc n) [] above = none

-- The mark becomes the sequence; `none` is a failed assertion.
unfoldable pub sequence_at : Option Slot → Option Tokens → Stack → Option Stack
sequence_at (some (mark i)) (some seq) below = some (item i (sequence seq) ∷ below)
sequence_at _ _ below = none

unfoldable pub h_svm_action_make_sequence : Stack → Option Stack
h_svm_action_make_sequence stack =
    let n_items : ℕ = h_svm_count_to_mark stack in
    sequence_at (get_elem? stack n_items) (top_items n_items stack nil) (drop (suc n_items) stack)

-- Whether a mark was found, and what is left.
unfoldable pub h_svm_action_clear_to_mark : Stack → Bool × Stack
h_svm_action_clear_to_mark [] = (false, [])
h_svm_action_clear_to_mark (mark i ∷ stack) = (true, stack)
h_svm_action_clear_to_mark (item i t ∷ stack) = h_svm_action_clear_to_mark stack

-- Tokens pushed one after the other.
abbrev pub pushed : List (ℕ × Token) → Stack → Stack
pushed [] stack = stack
pushed ((i, t) ∷ ts) stack = pushed ts (item i t ∷ stack)

abbrev pub in_order : List (ℕ × Token) → Tokens → Tokens
in_order [] rest = rest
in_order ((i, t) ∷ ts) rest = elem t (in_order ts rest)

count-pushed :
    (ts : List (ℕ × Token)) (stack : Stack)
    → h_svm_count_to_mark (pushed ts stack) ≡ length ts + h_svm_count_to_mark stack
unfolding h_svm_count_to_mark
count-pushed [] stack = omega arith
count-pushed ((i, t) ∷ ts) stack = omega (arith, count-pushed ts (item i t ∷ stack))

get_elem?-pushed :
    (ts : List (ℕ × Token)) (stack : Stack) (n k : ℕ)
    → n ≡ length ts + k
    → get_elem? (pushed ts stack) n ≡ get_elem? stack k
get_elem?-pushed [] stack n k e = let same : n ≡ k = omega (arith, e) in ap (get_elem? stack) same
get_elem?-pushed ((i, t) ∷ ts) stack n k e =
    get_elem?-pushed ts (item i t ∷ stack) n (suc k) (omega (arith, e))

drop-pushed :
    (ts : List (ℕ × Token)) (stack : Stack) (n k : ℕ)
    → n ≡ length ts + k
    → drop n (pushed ts stack) ≡ drop k stack
drop-pushed [] stack n k e = let same : n ≡ k = omega (arith, e) in ap (λ m. drop m stack) same
drop-pushed ((i, t) ∷ ts) stack n k e =
    drop-pushed ts (item i t ∷ stack) n (suc k) (omega (arith, e))

top_items-pushed :
    (ts : List (ℕ × Token)) (stack : Stack) (above : Tokens) (n k : ℕ)
    → n ≡ length ts + k
    → top_items n (pushed ts stack) above ≡ top_items k stack (in_order ts above)
unfolding top_items
top_items-pushed [] stack above n k e =
    let same : n ≡ k = omega (arith, e) in ap (λ m. top_items m stack above) same
top_items-pushed ((i, t) ∷ ts) stack above n k e =
    top_items-pushed ts (item i t ∷ stack) above n (suc k) (omega (arith, e))

clear-pushed :
    (ts : List (ℕ × Token)) (stack : Stack)
    → h_svm_action_clear_to_mark (pushed ts stack) ≡ h_svm_action_clear_to_mark stack
unfolding h_svm_action_clear_to_mark
clear-pushed [] stack = refl
clear-pushed ((i, t) ∷ ts) stack = clear-pushed ts (item i t ∷ stack)

-- After a mark and any tokens have been pushed on a stack, h_svm_action_make_sequence succeeds and
-- leaves, on that stack, the sequence of these tokens in the order in which they were pushed, with the
-- index of the mark; h_svm_action_clear_to_mark finds the mark and leaves the stack as it was before.
pub make_sequence-pushed :
    (ts : List (ℕ × Token)) (i : ℕ) (stack : Stack)
    → (h_svm_action_make_sequence (pushed ts (mark i ∷ stack))
        ≡ some (item i (sequence (in_order ts nil)) ∷ stack))
      × (h_svm_action_clear_to_mark (pushed ts (mark i ∷ stack)) ≡ (true, stack))
unfolding h_svm_action_make_sequence h_svm_action_clear_to_mark h_svm_count_to_mark sequence_at
    top_items
make_sequence-pushed ts i stack = (makes, clear-pushed ts (mark i ∷ stack))
  where
    n : ℕ
    n = h_svm_count_to_mark (pushed ts (mark i ∷ stack))

    counted : n ≡ length ts + 0
    counted = count-pushed ts (mark i ∷ stack)

    counted_more : suc n ≡ length ts + 1
    counted_more = omega (arith, counted)

    makes :
        sequence_at
          (get_elem? (pushed ts (mark i ∷ stack)) n)
          (top_items n (pushed ts (mark i ∷ stack)) nil)
          (drop (suc n) (pushed ts (mark i ∷ stack)))
        ≡ some (item i (sequence (in_order ts nil)) ∷ stack)
    makes =
        ap
          (λ o.
            sequence_at o (top_items n (pushed ts (mark i ∷ stack)) nil)
              (drop (suc n) (pushed ts (mark i ∷ stack))))
          (get_elem?-pushed ts (mark i ∷ stack) n 0 counted)
        ∙ ap (λ o. sequence_at (some (mark i)) o (drop (suc n) (pushed ts (mark i ∷ stack))))
            (top_items-pushed ts (mark i ∷ stack) nil n 0 counted)
        ∙ ap (λ s. sequence_at (some (mark i)) (some (in_order ts nil)) s)
            (drop-pushed ts (mark i ∷ stack) (suc n) 1 counted_more)
