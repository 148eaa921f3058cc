-- ===== src/Regex/Backend.antt =====
-- The functions `isValidRegular` of the vtables in src/parsers/, and h_regex_compile of
-- src/backends/regex.c.
use hammer.Prelude.{
  ℕ, zero, suc, Bool, true, false, Option, none, some, List, [], ◌∷◌, ◌++◌, length,
}
use hammer.Syntax.{Repeat, Parser, Heap}
use hammer.Regex.{rvm_accept, Prog}
use hammer.Regex.Compile.{h_compile_regex}

-- The field `isValidRegular` of the vtables; `none` is a grammar that is deeper than `fuel`.
module _ (valid : ℕ → Option Bool) where
  unfoldable pub all_valid : List ℕ → Option Bool
  all_valid [] = some true
  all_valid (p ∷ ps) = elim (valid p) [
    | none ↦ none
    | some true ↦ all_valid ps
    | some false ↦ some false
  ]

  unfoldable pub many_is_valid_regular : Repeat → Option Bool
  many_is_valid_regular repeat = elim (valid repeat.p) [
    | none ↦ none
    | some true ↦ elim repeat.sep [ none ↦ some true | some sep ↦ valid sep ]
    | some false ↦ some false
  ]

  unfoldable pub is_valid_regular_by : Parser → Option Bool
  is_valid_regular_by Parser.nothing = some true
  is_valid_regular_by Parser.epsilon = some true
  is_valid_regular_by Parser.end = some true
  is_valid_regular_by (Parser.ch c) = some true
  is_valid_regular_by (Parser.charset cs) = some true
  is_valid_regular_by (Parser.token str) = some true
  is_valid_regular_by (Parser.bits length sign) = some true
  is_valid_regular_by (Parser.int_range p lower upper) = some true
  is_valid_regular_by (Parser.whitespace p) = valid p
  is_valid_regular_by (Parser.ignore p) = valid p
  is_valid_regular_by (Parser.optional p) = valid p
  is_valid_regular_by (Parser.sequence ps) = all_valid ps
  is_valid_regular_by (Parser.choice ps) = all_valid ps
  is_valid_regular_by (Parser.many repeat) = many_is_valid_regular repeat
  is_valid_regular_by (Parser.ignoreseq ps which) = all_valid ps
  is_valid_regular_by (Parser.attr_bool p pred) = valid p
  is_valid_regular_by (Parser.action none a) = none
  is_valid_regular_by (Parser.action (some p) a) = valid p
  is_valid_regular_by _ = some false

unfoldable pub is_valid_regular : ℕ → Heap → ℕ → Option Bool
is_valid_regular zero heap p = none
is_valid_regular (suc fuel) heap p = elim (heap p) [
  | none ↦ none
  | some v ↦ is_valid_regular_by (is_valid_regular fuel heap) v
]

-- What h_regex_compile returns, with the program where it is 0.
pub data Compilation : Type 0 where
  not_regular not_compiled : Compilation
  compiled : Prog → Compilation

unfoldable pub h_regex_compile : ℕ → Heap → ℕ → Option Compilation
h_regex_compile fuel heap p =
    let build = h_compile_regex fuel heap p (record { insns = []; actions = [] }) in
    elim (is_valid_regular fuel heap p) [
      | none ↦ none
      | some false ↦ some not_regular
      | some true ↦ elim build [
        | none ↦ none
        | some (false, prog) ↦ some not_compiled
        | some (true, prog) ↦ some (
            compiled
              (record prog { insns = prog.insns ++ record { op = rvm_accept; arg = 0 } ∷ [] }))
      ]
    ]
