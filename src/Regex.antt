-- ===== src/Regex.antt =====
-- Model of src/backends/regex.c and src/backends/regex.h: programs of the regular expression VM, and
-- the machine that runs the threads of a program over an input.
--
-- A trace is a list with its latest entry first, as the pointers of HRVMTrace run while a program
-- runs; an ip is a uint16_t. `none` is an access outside an array, a failed assertion, or a run that
-- has no rounds left.
pub mod Marks
pub mod Threads
pub mod Rounds
pub mod Runs
pub mod Reaches
pub mod Positions
pub mod Program
pub mod Compile
pub mod Backend
pub mod Holes
pub mod Continues
pub mod Compiled
pub mod Composed
pub mod Closed
pub mod Stack
mod Examples
mod Tests
use hammer.Prelude.{
  ℕ, zero, suc, ◌+◌, ◌*◌, ◌/◌, ◌%◌, ◌^◌, Bool, true, false, ◌||◌, Option, none, some, List, [], ◌∷◌,
  length, get_elem?, set, replicate, ltb, leb, ◌==◌, if◌then◌else◌,
}
use hammer.BitReader.{◌>>=◌}
use hammer.SparseArray.{
  Node, SparseArray, h_sarray_new, h_sarray_set, h_sarray_clear, sarray_foreach_kv,
}

-- HRVMOp
pub data Op : Type 0 where
  rvm_accept rvm_goto rvm_fork rvm_push rvm_action rvm_capture rvm_eof rvm_match rvm_step : Op

pub record Insn : Type 0 where
  pub op : Op
  pub arg : ℕ

-- HSVMActionFunc: the functions that the parsers of src/parsers/ install.
pub data ActionFunc : Type 0 where
  make_sequence clear_to_mark action_pop action_optional : ActionFunc
  action_ch action_charset action_bits action_ignoreseq action_action action_attr_bool
        validate_int_range :
      ActionFunc

-- HSVMAction: an env is the address of the parser that it belongs to, the character itself for
-- h_ch, and 0 for NULL.
pub record Action : Type 0 where
  pub action : ActionFunc
  pub env : ℕ

pub record Prog : Type 0 where
  pub insns : List Insn
  pub actions : List Action

-- HSVMOp
pub data StackOp : Type 0 where
  svm_push svm_nop svm_action svm_capture svm_accept : StackOp

pub record TraceEntry : Type 0 where
  pub opcode : StackOp
  pub arg : ℕ
  pub input_pos : ℕ

abbrev pub Trace : Type 0
Trace = List TraceEntry

pub record Thread : Type 0 where
  pub trace : Trace
  pub ip : ℕ

-- What the loop over the threads of one position changes: the queue, its top first (`ipq_top` is its
-- length), the marks of the instructions (1 processed, 2 queued), the threads of the next position,
-- the trace of the last accept, and the number of threads that go on.
pub record Machine : Type 0 where
  pub ip_queue : List Thread
  pub insn_seen : List ℕ
  pub heads_n : SparseArray Trace
  pub ret_trace : Option Trace
  pub live_threads : ℕ

abbrev pub u16 : ℕ → ℕ
u16 n = n % 2 ^ 16

-- THREAD.ip++
abbrev pub next_ip : Thread → Thread
next_ip t = record t { ip = u16 (t.ip + 1) }

abbrev pub svm_entry : StackOp → ℕ → ℕ → TraceEntry
svm_entry opcode arg off = record { opcode = opcode; arg = arg; input_pos = off }

-- PUSH_SVM
abbrev pub push_svm : StackOp → ℕ → ℕ → Thread → Thread
push_svm opcode arg off t = record t { trace = svm_entry opcode arg off ∷ t.trace }

-- A write to insn_seen.
unfoldable pub mark : ℕ → ℕ → Machine → Option Machine
mark ip v m =
    if ltb ip (length m.insn_seen)
    then some (record m { insn_seen = set m.insn_seen ip v })
    else none

-- RVM_FORK: the target is run first, and what follows the fork waits below it in the queue, which has
-- as many places as there are instructions.
unfoldable pub fork : ℕ → ℕ → Thread → List Thread → Machine → Option Machine
fork places arg t rest m = do
  seen ← get_elem? m.insn_seen arg
  (if seen == 0
      then (do
        m' ← mark (u16 (t.ip + 1)) 2 m
        (if ltb (suc (length rest)) places
            then some (record m' { ip_queue = record t { ip = arg } ∷ next_ip t ∷ rest })
            else none))
      else some (record m { ip_queue = next_ip t ∷ rest }))

-- RVM_STEP
unfoldable pub save_thread : Thread → List Thread → Machine → Option Machine
save_thread t rest m = do
  heads ← h_sarray_set m.heads_n ((next_ip t).ip) t.trace
  some (record m { heads_n = heads; live_threads = m.live_threads + 1; ip_queue = rest })

module _ (off len ch places : ℕ) where
  -- The switch on the instruction of the thread `t`, which is on top of `rest`.
  unfoldable pub exec : Op → ℕ → Thread → List Thread → Machine → Option Machine
  exec rvm_accept arg t rest m =
      some (record m { ret_trace = some ((push_svm svm_accept 0 off t).trace); ip_queue = rest })
  exec rvm_match arg t rest m = some (record m {
    ip_queue = if ltb ch (arg % 256) || ltb (arg / 256 % 256) ch then rest else next_ip t ∷ rest;
  })
  exec rvm_goto arg t rest m = some (record m { ip_queue = record t { ip = arg } ∷ rest })
  exec rvm_fork arg t rest m = fork places arg t rest m
  exec rvm_push arg t rest m =
      some (record m { ip_queue = next_ip (push_svm svm_push 0 off t) ∷ rest })
  exec rvm_action arg t rest m =
      some (record m { ip_queue = next_ip (push_svm svm_action arg off t) ∷ rest })
  exec rvm_capture arg t rest m =
      some (record m { ip_queue = next_ip (push_svm svm_capture 0 off t) ∷ rest })
  exec rvm_eof arg t rest m =
      some (record m { ip_queue = if off == len then next_ip t ∷ rest else rest })
  exec rvm_step arg t rest m = save_thread t rest m

module _ (off len ch : ℕ) (prog : Prog) where
  -- One round of the loop `while (ipq_top > 0)`.
  unfoldable pub thread_round : Thread → List Thread → Machine → Option Machine
  thread_round t rest m = do
    seen ← get_elem? m.insn_seen t.ip
    (if seen == 1 then some (record m { ip_queue = rest }) else (do
      m' ← mark t.ip 1 m
      insn ← get_elem? prog.insns t.ip
      exec off len ch (length prog.insns) insn.op insn.arg t rest m'))

  unfoldable pub run_queue : ℕ → Machine → Option Machine
  run_queue zero m = elim m.ip_queue [ [] ↦ some m | t ∷ rest ↦ none ]
  run_queue (suc fuel) m = elim m.ip_queue [
    | [] ↦ some m
    | t ∷ rest ↦ thread_round t rest m >>= run_queue fuel
  ]

  -- Every round marks an instruction, or ends a thread: three rounds for each instruction are enough.
  unfoldable pub queue_fuel : ℕ
  queue_fuel = 3 * length prog.insns + 1

  -- The loop over the threads of a position.
  unfoldable pub run_heads : List (ℕ × Trace) → Machine → Option Machine
  run_heads [] m = some m
  run_heads ((ip_s, tr_head) ∷ heads) m = do
    m' ←
        run_queue queue_fuel
          (record m { ip_queue = record { trace = tr_head; ip = u16 ip_s } ∷ [] })
    run_heads heads m'

  -- The body of the loop over the positions, where there are live threads: the arrays change places
  -- first. The result has the next position's `heads_n` and `heads_p`.
  unfoldable pub run_position : SparseArray Trace → Machine → Option (SparseArray Trace × Machine)
  run_position heads_p m = do
    heads ← sarray_foreach_kv m.heads_n
    m' ← run_heads heads (record m {
      heads_n = h_sarray_clear heads_p;
      insn_seen = replicate (length prog.insns) 0;
      live_threads = 0;
    })
    some (m.heads_n, m')

-- The loop over the positions: `rest` is the input from `off` on, and the character after its end is
-- taken to be 0.
unfoldable pub run_positions :
    Prog → ℕ → ℕ → List ℕ → SparseArray Trace → Machine → Option (Option Trace)
run_positions prog len off [] heads_p m =
    if m.live_threads == 0
    then some m.ret_trace
    else (do (heads_p', m') ← run_position off len 0 prog heads_p m; some m'.ret_trace)
run_positions prog len off (ch ∷ rest) heads_p m =
    let next = (do
      (heads_p', m') ← run_position off len ch prog heads_p m
      run_positions prog len (off + 1) rest heads_p' m') in
    if m.live_threads == 0 then some m.ret_trace else next

-- h_rvm_run__m up to `match_fail`: the trace of the last accept, the latest entry first. The arrays'
-- nodes are what the allocator gives.
unfoldable pub find_trace :
    List (Node Trace) → List (Node Trace) → Prog → List ℕ → Option (Option Trace)
find_trace block block' prog input = do
  heads_n ← h_sarray_set (h_sarray_new block) 0 (svm_entry svm_nop 0 0 ∷ [])
  run_positions prog (length input) 0 input (h_sarray_new block') (record {
    ip_queue = [];
    insn_seen = [];
    heads_n = heads_n;
    ret_trace = none;
    live_threads = 1;
  })

unfoldable pub invert_from : Trace → Trace → Trace
invert_from last [] = last
invert_from last (entry ∷ trace) = invert_from (entry ∷ last) trace

unfoldable pub invert_trace : Trace → Trace
invert_trace trace = invert_from [] trace
