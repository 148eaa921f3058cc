-- ===== src/Regex/Program.antt =====
-- Building a program: the functions of src/backends/regex.c that the compilation of a parser calls.
--
-- A step of the compilation takes the program built so far; `none` is a failed assertion. Memory for
-- the arrays is never short here, so the longjmp of h_rvm_insert_insn does not happen.
use hammer.Prelude.{
  ℕ, zero, suc, Bool, ◌&&◌, Option, none, some, List, [], ◌∷◌, ◌++◌, length, ltb, ◌==◌,
  if◌then◌else◌,
}
use hammer.Regex.{
  Op, Insn, Prog, Action, ActionFunc, u16, make_sequence, clear_to_mark, action_pop,
  action_optional, action_ch, action_charset, action_bits, action_ignoreseq, action_action,
  action_attr_bool, validate_int_range,
}

abbrev pub Build {ℓ} : Type ℓ → Type ℓ
Build A = Prog → Option (A × Prog)

infixl 5 ◌>>=◌
infixl 5 ◌>>◌
abbrev pub and_then {ℓ κ} :
    {A : Type ℓ} {B : Type κ} → Option (A × Prog) → (A → Build B) → Option (B × Prog)
and_then none f = none
and_then (some (a, prog)) f = f a prog

abbrev pub ◌>>=◌ {ℓ κ} : {A : Type ℓ} {B : Type κ} → Build A → (A → Build B) → Build B
(c >>= f) prog = and_then (c prog) f

abbrev pub ◌>>◌ {ℓ κ} : {A : Type ℓ} {B : Type κ} → Build A → Build B → Build B
(c >> d) prog = and_then (c prog) (λ a. d)

abbrev pub pure {ℓ} : {A : Type ℓ} → A → Build A
pure a prog = some (a, prog)

-- The address of the instruction just created.
unfoldable pub h_rvm_insert_insn : Op → ℕ → Build ℕ
h_rvm_insert_insn op arg prog = some (
  u16 (length prog.insns),
  record prog { insns = prog.insns ++ record { op = op; arg = arg } ∷ [] },
)

unfoldable pub h_rvm_get_ip : Build ℕ
h_rvm_get_ip prog = some (u16 (length prog.insns), prog)

abbrev pub patched : List Insn → ℕ → ℕ → List Insn
patched [] ip new_val = []
patched (insn ∷ insns) zero new_val = record insn { arg = new_val } ∷ insns
patched (insn ∷ insns) (suc ip) new_val = insn ∷ patched insns ip new_val

unfoldable pub h_rvm_patch_arg : ℕ → ℕ → Build (Unit {0})
h_rvm_patch_arg ip new_val prog =
    if ltb ip (length prog.insns)
    then some (tt, record prog { insns = patched prog.insns ip new_val })
    else none

-- The numbers stand for the addresses of the functions.
abbrev pub func_address : ActionFunc → ℕ
func_address make_sequence = 0
func_address clear_to_mark = 1
func_address action_pop = 2
func_address action_optional = 3
func_address action_ch = 4
func_address action_bits = 5
func_address action_ignoreseq = 6
func_address action_action = 7
func_address action_attr_bool = 8
func_address validate_int_range = 9
func_address action_charset = 10

abbrev pub same_action : Action → Action → Bool
same_action a b = func_address a.action == func_address b.action && a.env == b.env

-- The first action from `i` on that is the same.
unfoldable pub find_action : Action → ℕ → List Action → Option ℕ
find_action a i [] = none
find_action a i (b ∷ actions) = if same_action b a then some i else find_action a (suc i) actions

-- The action that was found, or a new one.
unfoldable pub action_at : Action → Option ℕ → Build ℕ
action_at a (some i) prog = some (u16 i, prog)
action_at a none prog =
    some (u16 (length prog.actions), record prog { actions = prog.actions ++ a ∷ [] })

unfoldable pub h_rvm_create_action : ActionFunc → ℕ → Build ℕ
h_rvm_create_action action_func env prog =
    let a : Action = record { action = action_func; env = env } in
    action_at a (find_action a 0 prog.actions) prog
