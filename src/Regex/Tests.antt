-- ===== src/Regex/Tests.antt =====
-- The thread machine on concrete programs, and its laws applied there.
use hammer.Prelude.{
  ℕ, zero, suc, ◌+◌, ◌≡◌, refl, subst, Option, none, some, List, [], ◌∷◌, arith, get_elem?,
  replicate,
}
use hammer.SparseArray.{
  Node, h_sarray_new, h_sarray_isset, isset_at, write_node, h_sarray_set, sarray_add,
  h_sarray_clear, read_entry, visit_from, sarray_foreach_kv,
}
use hammer.Regex.{
  Op, rvm_accept, rvm_goto, rvm_fork, rvm_match, rvm_step, svm_accept, svm_nop, svm_entry, Insn,
  Prog, Trace, mark, fork, save_thread, exec, thread_round, run_queue, queue_fuel, run_heads,
  run_position, run_positions, find_trace, invert_from, invert_trace,
}
use hammer.Regex.Threads.{IsInside, IsClosed}
use hammer.Regex.Reaches.{begins, forks_on, matches, steps, jumps, Accepts}
use hammer.Regex.Positions.{AcceptsFound, find_trace-Accepts}

-- Instruction after instruction.
abbrev AllInside : ℕ → ℕ → List Insn → Type 0
AllInside len ip [] = Unit {0}
AllInside len ip (insn ∷ insns) = IsInside len ip insn.op insn.arg × AllInside len (suc ip) insns

all_inside :
    (len i : ℕ) (insns : List Insn) (j : ℕ) (insn : Insn)
    → AllInside len i insns
    → get_elem? insns j ≡ some insn
    → IsInside len (i + j) insn.op insn.arg
all_inside len i [] j insn h e = absurd (cc)
all_inside len i (x ∷ insns) zero insn h e =
    let at : i ≡ i + 0 = omega arith in
    let same : x ≡ insn = cc in
    subst (λ k. IsInside len k insn.op insn.arg) at
      (subst (λ y. IsInside len i y.op y.arg) same (h.0))
all_inside len i (x ∷ insns) (suc j) insn h e =
    let at : suc i + j ≡ i + suc j = omega arith in
    subst (λ k. IsInside len k insn.op insn.arg) at (all_inside len (suc i) insns j insn h.1 e)

abbrev insn : Op → ℕ → Insn
insn op arg = record { op = op; arg = arg }

-- The character a, or the characters a and b.
abbrev a_or_ab : Prog
a_or_ab = record {
  insns =
      insn rvm_fork 4
      ∷ insn rvm_match 0x6161
      ∷ insn rvm_step 0
      ∷ insn rvm_goto 8
      ∷ insn rvm_match 0x6161
      ∷ insn rvm_step 0
      ∷ insn rvm_match 0x6262
      ∷ insn rvm_step 0
      ∷ insn rvm_accept 0
      ∷ [];
  actions = [];
}

abbrev garbage : List (Node Trace)
garbage = replicate 9 (record { elem = 0; index = 7; content = [] })

a_or_ab-AllInside : AllInside 9 0 a_or_ab.insns
a_or_ab-AllInside = omega arith

a_or_ab-IsClosed : IsClosed a_or_ab
a_or_ab-IsClosed = record {
  start = omega arith;
  small = omega arith;
  inside = λ ip insn e.
      let from_start : 0 + ip ≡ ip = omega arith in
      subst (λ k. IsInside 9 k insn.op insn.arg) from_start
        (all_inside 9 0 a_or_ab.insns ip insn a_or_ab-AllInside e);
}

-- Both characters are found.
finds_ab :
    find_trace garbage garbage a_or_ab (0x61 ∷ 0x62 ∷ [])
    ≡ some (some (svm_entry svm_accept 0 2 ∷ svm_entry svm_nop 0 0 ∷ []))
unfolding h_sarray_new h_sarray_isset isset_at write_node h_sarray_set sarray_add h_sarray_clear
    read_entry visit_from sarray_foreach_kv mark fork save_thread exec thread_round run_queue
    queue_fuel run_heads run_position run_positions find_trace
finds_ab = refl

-- One character is not found, though the program accepts it: of the two threads that go on after the
-- first character, the second one is never visited.
misses_a : find_trace garbage garbage a_or_ab (0x61 ∷ []) ≡ some none
unfolding h_sarray_new h_sarray_isset isset_at write_node h_sarray_set sarray_add h_sarray_clear
    read_entry visit_from sarray_foreach_kv mark fork save_thread exec thread_round run_queue
    queue_fuel run_heads run_position run_positions find_trace
misses_a = refl

Accepts-a : Accepts a_or_ab (0x61 ∷ []) (svm_entry svm_accept 0 1 ∷ svm_entry svm_nop 0 0 ∷ [])
Accepts-a = record {
  ip = 8;
  off = 1;
  arg = 0;
  before = svm_entry svm_nop 0 0 ∷ [];
  accept = refl;
  reached =
      jumps 8 refl
        (steps 0 refl (matches 0x6161 refl (omega arith) (omega arith) (forks_on 4 refl begins)));
  inside = omega arith;
  ended = refl;
}

inverted :
    invert_trace (svm_entry svm_accept 0 1 ∷ svm_entry svm_nop 0 0 ∷ [])
    ≡ svm_entry svm_nop 0 0 ∷ svm_entry svm_accept 0 1 ∷ []
unfolding invert_trace invert_from
inverted = refl

find_trace-Accepts_example :
    (found : Option Trace) × (find_trace garbage garbage a_or_ab (0x61 ∷ 0x62 ∷ []) ≡ some found)
    × AcceptsFound a_or_ab (0x61 ∷ 0x62 ∷ []) found
find_trace-Accepts_example =
    find_trace-Accepts a_or_ab (0x61 ∷ 0x62 ∷ []) garbage garbage a_or_ab-IsClosed refl refl
