-- ===== src/Regex/Examples.antt =====
-- A grammar compiled: the character a, or a sequence of a and b. The laws of the compilation applied
-- to it, and those of the stack to two tokens.
use hammer.Prelude.{
  true, ℕ, zero, suc, ◌<◌, ◌≡◌, refl, Option, none, some, List, [], ◌∷◌, arith, replicate,
}
use hammer.Regex.Stack.{
  mark, item, h_svm_action_make_sequence, h_svm_action_clear_to_mark, make_sequence-pushed,
}
use hammer.Syntax.{uint, sequence, nil, elem, Parser, Heap}
use hammer.SparseArray.{Node}
use hammer.Regex.{
  Op, rvm_accept, rvm_goto, rvm_fork, rvm_push, rvm_action, rvm_capture, rvm_match, rvm_step, Insn,
  Prog, Trace, make_sequence, action_ch, find_trace,
}
use hammer.Regex.Program.{
  h_rvm_insert_insn, h_rvm_get_ip, h_rvm_patch_arg, find_action, action_at, h_rvm_create_action,
}
use hammer.Regex.Compile.{
  emit, emit_action, ch_ctrvm, if_compiled, sequence_ctrvm_loop, sequence_ctrvm, patch_all,
  choice_ctrvm_loop, choice_ctrvm, compile_to_rvm, h_compile_regex,
}
use hammer.Regex.Backend.{
  all_valid, is_valid_regular_by, is_valid_regular, compiled, h_regex_compile,
}
use hammer.Regex.Positions.{AcceptsFound}
use hammer.Regex.Closed.{
  IgnoresCompile, IsFinished, h_regex_compile-IsFinished, h_regex_compile-find_trace,
}

abbrev grammar : Heap
grammar zero = some (Parser.choice (1 ∷ 2 ∷ []))
grammar (suc zero) = some (Parser.ch 0x61)
grammar (suc (suc zero)) = some (Parser.sequence (1 ∷ 3 ∷ []))
grammar (suc (suc (suc zero))) = some (Parser.ch 0x62)
grammar (suc (suc (suc (suc env)))) = none

abbrev insn : Op → ℕ → Insn
insn op arg = record { op = op; arg = arg }

abbrev program : Prog
program = record {
  insns =
      insn rvm_fork 7
      ∷ insn rvm_push 0
      ∷ insn rvm_match 0x6161
      ∷ insn rvm_step 0
      ∷ insn rvm_capture 0
      ∷ insn rvm_action 0
      ∷ insn rvm_goto 22
      ∷ insn rvm_fork 21
      ∷ insn rvm_push 0
      ∷ insn rvm_push 0
      ∷ insn rvm_match 0x6161
      ∷ insn rvm_step 0
      ∷ insn rvm_capture 0
      ∷ insn rvm_action 0
      ∷ insn rvm_push 0
      ∷ insn rvm_match 0x6262
      ∷ insn rvm_step 0
      ∷ insn rvm_capture 0
      ∷ insn rvm_action 1
      ∷ insn rvm_action 2
      ∷ insn rvm_goto 22
      ∷ insn rvm_match 0x00ff
      ∷ insn rvm_accept 0
      ∷ [];
  actions =
      record { action = action_ch; env = 0x61 }
      ∷ record { action = action_ch; env = 0x62 }
      ∷ record { action = make_sequence; env = 0 }
      ∷ [];
}

compiles : h_regex_compile 4 grammar 0 ≡ some (compiled program)
unfolding h_rvm_insert_insn h_rvm_get_ip h_rvm_patch_arg find_action action_at h_rvm_create_action
    emit emit_action ch_ctrvm if_compiled sequence_ctrvm_loop sequence_ctrvm patch_all
    choice_ctrvm_loop choice_ctrvm compile_to_rvm h_compile_regex all_valid is_valid_regular_by
    is_valid_regular h_regex_compile
compiles = refl

-- No object is an h_ignore.
no_ignore : (env : ℕ) (p : ℕ) → grammar env ≡ some (Parser.ignore p) → 0 < 0
no_ignore zero p e = absurd (cc)
no_ignore (suc zero) p e = absurd (cc)
no_ignore (suc (suc zero)) p e = absurd (cc)
no_ignore (suc (suc (suc zero))) p e = absurd (cc)
no_ignore (suc (suc (suc (suc env)))) p e = absurd (cc)

grammar-IgnoresCompile : IgnoresCompile grammar
grammar-IgnoresCompile env p fuel before after here = absurd (omega (arith, no_ignore env p here))

abbrev garbage : List (Node Trace)
garbage = replicate 23 (record { elem = 0; index = 7; content = [] })

h_regex_compile-IsFinished_example : IsFinished program
h_regex_compile-IsFinished_example =
    h_regex_compile-IsFinished 4 grammar 0 program grammar-IgnoresCompile compiles (omega arith)

h_regex_compile-find_trace_example :
    (found : Option Trace) × (find_trace garbage garbage program (0x61 ∷ 0x62 ∷ []) ≡ some found)
    × AcceptsFound program (0x61 ∷ 0x62 ∷ []) found
h_regex_compile-find_trace_example =
    h_regex_compile-find_trace 4 grammar 0 program (0x61 ∷ 0x62 ∷ []) garbage garbage
      grammar-IgnoresCompile compiles (omega arith) refl refl

make_sequence-pushed_example :
    (h_svm_action_make_sequence (item 4 (uint 7) ∷ item 3 (uint 5) ∷ mark 3 ∷ mark 0 ∷ [])
      ≡ some (item 3 (sequence (elem (uint 5) (elem (uint 7) nil))) ∷ mark 0 ∷ []))
    × (h_svm_action_clear_to_mark (item 4 (uint 7) ∷ item 3 (uint 5) ∷ mark 3 ∷ mark 0 ∷ [])
        ≡ (true, mark 0 ∷ []))
make_sequence-pushed_example = make_sequence-pushed ((3, uint 5) ∷ (4, uint 7) ∷ []) 3 (mark 0 ∷ [])
