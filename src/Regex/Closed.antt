-- ===== src/Regex/Closed.antt =====
-- h_regex_compile: the programs it makes.
use hammer.Prelude.{
  refl, ◌-◌, get_elem?, ℕ, zero, suc, ◌^◌, ◌<◌, ◌≡◌, ◌≢◌, refl, sym, subst, ap, ◌∙◌, Bool, true,
  false, Option, none, some, List, [], ◌∷◌, ◌++◌, arith, length, length-append, get_elem?-lt, inl,
  inr,
}
use hammer.Syntax.{Parser, Heap}
use hammer.Regex.{
  Op, rvm_accept, rvm_goto, rvm_fork, rvm_push, rvm_action, rvm_capture, rvm_eof, rvm_match,
  rvm_step, Insn, Prog, validate_int_range,
}
use hammer.Regex.Program.{Build, ◌>>◌, and_then, pure, h_rvm_insert_insn, h_rvm_create_action}
use hammer.Regex.Compile.{
  emit, emit_action, epsilon_ctrvm, ir_ctrvm, choice_ctrvm, stuck, h_not_regular, compile_to_rvm,
  h_compile_regex, action_ctrvm,
}
use hammer.Regex.Backend.{is_valid_regular, h_regex_compile, not_regular, not_compiled, compiled}
use hammer.Regex.Holes.{IsTarget, Grows, Grows-refl, get_elem?-last}
use hammer.Regex.Continues.{Continues, AreCompiled, Continues-true}
use hammer.Regex.Compiled.{
  nothing_ctrvm-Continues, end_ctrvm-Continues, ch_ctrvm-Continues, bits_ctrvm-Continues,
  token_ctrvm-Continues, cs_ctrvm-Continues,
}
use hammer.Regex.Composed.{
  ws_ctrvm-Continues, ignore_ctrvm-Continues, opt_ctrvm-Continues, sequence_ctrvm-Continues,
  is_ctrvm-Continues, ab_ctrvm-Continues, action_ctrvm-Continues, many_ctrvm-Continues,
  choice_ctrvm_loop-Continues,
}
use hammer.Regex.{Trace}
use hammer.SparseArray.{Node}
use hammer.Regex.Program.{find_action, action_at}
use hammer.Regex.Threads.{IsInside, IsClosed}
use hammer.Regex.Positions.{AcceptsFound, find_trace-Accepts}
use hammer.Regex.{find_trace}

-- What is not true in the end adds nothing that counts.
Continues-false :
    {holes : List ℕ} {known : List (ℕ × ℕ)} {xs : List Insn} → Continues holes known xs (pure false)
Continues-false = record { grows = λ before after g a e. absurd (cc) }

Continues-stuck :
    {holes : List ℕ} {known : List (ℕ × ℕ)} {xs : List Insn} → Continues holes known xs stuck
Continues-stuck = record { grows = λ before after g a e. absurd (cc) }

ends_false :
    (env : ℕ) (q after : Prog)
    → (emit_action validate_int_range env >> pure false) q ≢ some (true, after)
unfolding emit_action emit h_rvm_insert_insn h_rvm_create_action action_at
ends_false env q after =
    go (find_action (record { action = validate_int_range; env = env }) 0 q.actions)
  where
    go :
        (o : Option ℕ)
        → and_then
            (and_then
              (action_at (record { action = validate_int_range; env = env }) o q)
              (emit rvm_action))
            (λ u. pure false)
          ≢ some (true, after)
    go none e = absurd (cc)
    go (some i) e = absurd (cc)

ir_ctrvm-Continues :
    (run : ℕ → Build Bool) {xs : List Insn} (p env : ℕ) → Continues [] [] xs (ir_ctrvm run p env)
unfolding ir_ctrvm
ir_ctrvm-Continues run {xs = xs} p env = record {
  grows = λ before after g a e. go after (run p before) e;
}
  where
    go :
        (after : Prog) (o : Option (Bool × Prog))
        → and_then o (λ b. emit_action validate_int_range env >> pure false) ≡ some (true, after)
        → Grows [] xs after.insns
    go after none e = absurd (cc)
    go after (some (b, q)) e = absurd (ends_false env q after e)

compile_to_rvm-Continues :
    (run : ℕ → Build Bool)
    → AreCompiled run
    → (xs : List Insn) (env : ℕ) (v : Parser)
    → ((p : ℕ) → v ≡ Parser.ignore p → (before after : Prog) → run p before ≢ some (false, after))
    → Continues [] [] xs (compile_to_rvm run env v)
unfolding compile_to_rvm choice_ctrvm epsilon_ctrvm h_not_regular action_ctrvm emit
    h_rvm_insert_insn
compile_to_rvm-Continues run r xs env Parser.nothing ignored = nothing_ctrvm-Continues
compile_to_rvm-Continues run r xs env Parser.epsilon ignored = Continues-true
compile_to_rvm-Continues run r xs env Parser.end ignored = end_ctrvm-Continues
compile_to_rvm-Continues run r xs env (Parser.ch c) ignored = ch_ctrvm-Continues c
compile_to_rvm-Continues run r xs env (Parser.charset cs) ignored = cs_ctrvm-Continues cs env
compile_to_rvm-Continues run r xs env (Parser.token str) ignored = token_ctrvm-Continues str
compile_to_rvm-Continues run r xs env (Parser.bits len sign) ignored = bits_ctrvm-Continues len env
compile_to_rvm-Continues run r xs env (Parser.int_range p lower upper) ignored =
    ir_ctrvm-Continues run p env
compile_to_rvm-Continues run r xs env (Parser.whitespace p) ignored = ws_ctrvm-Continues run r p
compile_to_rvm-Continues run r xs env (Parser.ignore p) ignored =
    ignore_ctrvm-Continues run r p (ignored p refl)
compile_to_rvm-Continues run r xs env (Parser.optional p) ignored = opt_ctrvm-Continues run r p
compile_to_rvm-Continues run r xs env (Parser.sequence ps) ignored =
    sequence_ctrvm-Continues run r ps
compile_to_rvm-Continues run r xs env (Parser.choice ps) ignored =
    choice_ctrvm_loop-Continues run r ps []
compile_to_rvm-Continues run r xs env (Parser.many repeat) ignored =
    many_ctrvm-Continues run r repeat
compile_to_rvm-Continues run r xs env (Parser.ignoreseq ps which) ignored =
    is_ctrvm-Continues run r ps env
compile_to_rvm-Continues run r xs env (Parser.attr_bool p pred) ignored =
    ab_ctrvm-Continues run r p env
compile_to_rvm-Continues run r xs env (Parser.action none a) ignored = Continues-stuck
compile_to_rvm-Continues run r xs env (Parser.action (some p) a) ignored =
    action_ctrvm-Continues run r p env
compile_to_rvm-Continues run r xs env (Parser.length_value p q) ignored = Continues-stuck
compile_to_rvm-Continues run r xs env Parser.unimplemented ignored = Continues-false
compile_to_rvm-Continues run r xs env (Parser.and p) ignored = Continues-false
compile_to_rvm-Continues run r xs env (Parser.not p) ignored = Continues-false
compile_to_rvm-Continues run r xs env (Parser.permutation ps) ignored = Continues-false
compile_to_rvm-Continues run r xs env (Parser.butnot p q) ignored = Continues-false
compile_to_rvm-Continues run r xs env (Parser.difference p q) ignored = Continues-false
compile_to_rvm-Continues run r xs env (Parser.xor p q) ignored = Continues-false
compile_to_rvm-Continues run r xs env (Parser.put_value p k) ignored = Continues-false
compile_to_rvm-Continues run r xs env (Parser.get_value p k) ignored = Continues-false
compile_to_rvm-Continues run r xs env (Parser.bind p k) ignored = Continues-false
compile_to_rvm-Continues run r xs env (Parser.indirect p) ignored = Continues-false
compile_to_rvm-Continues run r xs env (Parser.endianness e p) ignored = Continues-false

-- No parser under an h_ignore is refused in the middle of its compilation.
abbrev pub IgnoresCompile : Heap → Type 0
IgnoresCompile heap =
    (env p fuel : ℕ) (before after : Prog)
    → heap env ≡ some (Parser.ignore p)
    → h_compile_regex fuel heap p before ≢ some (false, after)

h_compile_regex-Grows :
    (heap : Heap) → IgnoresCompile heap → (fuel : ℕ) → AreCompiled (h_compile_regex fuel heap)
unfolding h_compile_regex
h_compile_regex-Grows heap ignored zero p before after e = absurd (cc)
h_compile_regex-Grows heap ignored (suc fuel) p before after e =
    go (h_compile_regex-Grows heap ignored fuel) (heap p) refl e
  where
    go :
        AreCompiled (h_compile_regex fuel heap)
        → (o : Option Parser) → heap p ≡ o
        → (elim o as (λ x. Build Bool) [
          | none ↦ stuck
          | some v ↦ compile_to_rvm (h_compile_regex fuel heap) p v
        ])
            before
          ≡ some (true, after)
        → Grows [] before.insns after.insns
    go r none f e = absurd (cc)
    go r (some v) f e =
        (compile_to_rvm-Continues (h_compile_regex fuel heap) r before.insns p v
            (λ q same before' after'. ignored p q fuel before' after' (f ∙ ap some same))).grows
          before after (Grows-refl before.insns) tt e

IsInside-target :
    (l i : ℕ) (op : Op) (arg : ℕ) → i < l → IsTarget l op arg → IsInside (suc l) i op arg
IsInside-target l i rvm_accept arg h t = tt
IsInside-target l i rvm_goto arg h t = omega arith
IsInside-target l i rvm_fork arg h t = omega (arith, t.1)
IsInside-target l i rvm_push arg h t = omega arith
IsInside-target l i rvm_action arg h t = omega arith
IsInside-target l i rvm_capture arg h t = omega arith
IsInside-target l i rvm_eof arg h t = omega arith
IsInside-target l i rvm_match arg h t = omega arith
IsInside-target l i rvm_step arg h t = omega arith

-- A fork does not go to the first instruction.
abbrev pub IsPatched : Op → ℕ → Type 0
IsPatched rvm_fork arg = 0 < arg
IsPatched rvm_accept arg = Unit {0}
IsPatched rvm_goto arg = Unit {0}
IsPatched rvm_push arg = Unit {0}
IsPatched rvm_action arg = Unit {0}
IsPatched rvm_capture arg = Unit {0}
IsPatched rvm_eof arg = Unit {0}
IsPatched rvm_match arg = Unit {0}
IsPatched rvm_step arg = Unit {0}

IsPatched-target : (l : ℕ) (op : Op) (arg : ℕ) → IsTarget l op arg → IsPatched op arg
IsPatched-target l rvm_fork arg t = t.0
IsPatched-target l rvm_accept arg t = tt
IsPatched-target l rvm_goto arg t = tt
IsPatched-target l rvm_push arg t = tt
IsPatched-target l rvm_action arg t = tt
IsPatched-target l rvm_capture arg t = tt
IsPatched-target l rvm_eof arg t = tt
IsPatched-target l rvm_match arg t = tt
IsPatched-target l rvm_step arg t = tt

-- A program that no thread leaves, that ends with an accept, and in which no fork goes to 0, which is
-- what most forks hold before they are patched.
pub record IsFinished (prog : Prog) : Type 0 where
  pub closed : IsClosed prog
  pub ends :
      get_elem? prog.insns (length prog.insns - 1) ≡ some (record { op = rvm_accept; arg = 0 })
  pub forks :
      (ip : ℕ) (insn : Insn) → get_elem? prog.insns ip ≡ some insn → IsPatched insn.op insn.arg

abbrev accepting : Prog → Prog
accepting built = record built { insns = built.insns ++ record { op = rvm_accept; arg = 0 } ∷ [] }

get_elem?-end : {A : Type 0} (xs : List A) (x : A) → get_elem? (xs ++ x ∷ []) (length xs) ≡ some x
get_elem?-end [] x = refl
get_elem?-end (y ∷ xs) x = get_elem?-end xs x

accepting-accept :
    (built : Prog)
    → get_elem? (accepting built).insns (length (accepting built).insns - 1)
      ≡ some (record { op = rvm_accept; arg = 0 })
accepting-accept built =
    let last : length (accepting built).insns - 1 ≡ length built.insns =
      omega (arith, length-append built.insns (record { op = rvm_accept; arg = 0 } ∷ [])) in
    ap (get_elem? (accepting built).insns) last
    ∙ get_elem?-end built.insns (record { op = rvm_accept; arg = 0 })

accepting-IsClosed :
    (built : Prog)
    → Grows [] [] built.insns
    → length (accepting built).insns < 2 ^ 16
    → IsClosed (accepting built)
accepting-IsClosed built g s =
    let size : length (accepting built).insns ≡ suc (length built.insns) =
      omega (arith, length-append built.insns (record { op = rvm_accept; arg = 0 } ∷ [])) in
    record {
      start = omega (arith, size);
      small = s;
      inside = λ ip insn e.
          elim (get_elem?-last built.insns (record { op = rvm_accept; arg = 0 }) ip e) [
            | inl old ↦ elim (g.targets (omega (arith, size)) ip insn (omega arith) old) [
              | inl hole ↦ absurd (omega (arith, hole))
              | inr t ↦
                  subst (λ n. IsInside n ip insn.op insn.arg) (sym size)
                    (IsInside-target (length built.insns) ip insn.op insn.arg
                      (get_elem?-lt built.insns ip old) t)
            ]
            | inr here ↦
                subst (λ x. IsInside (length (accepting built).insns) ip x.op x.arg) here.1 tt
          ];
    }

accepting-IsFinished :
    (built : Prog)
    → Grows [] [] built.insns
    → length (accepting built).insns < 2 ^ 16
    → IsFinished (accepting built)
accepting-IsFinished built g s =
    let size : length (accepting built).insns ≡ suc (length built.insns) =
      omega (arith, length-append built.insns (record { op = rvm_accept; arg = 0 } ∷ [])) in
    record {
      closed = accepting-IsClosed built g s;
      ends = accepting-accept built;
      forks = λ ip insn e.
          elim (get_elem?-last built.insns (record { op = rvm_accept; arg = 0 }) ip e) [
            | inl old ↦ elim (g.targets (omega (arith, size)) ip insn (omega arith) old) [
              | inl hole ↦ absurd (omega (arith, hole))
              | inr t ↦ IsPatched-target (length built.insns) insn.op insn.arg t
            ]
            | inr here ↦ subst (λ x. IsPatched x.op x.arg) here.1 tt
          ];
    }

-- A program that h_regex_compile makes, if it has less than 65536 instructions, ends with an accept,
-- and no thread leaves it: every goto and every fork has an argument below its length, and every
-- instruction after which a thread goes on, a goto and an accept excepted, is followed by another. No
-- fork goes to the first instruction, as those would that are made with the argument 0 and never
-- patched. No parser under an h_ignore may be refused in the middle of its compilation, since the
-- code of h_ignore does not look at that.
pub h_regex_compile-IsFinished :
    (fuel : ℕ) (heap : Heap) (p : ℕ) (prog : Prog)
    → IgnoresCompile heap
    → h_regex_compile fuel heap p ≡ some (compiled prog)
    → length prog.insns < 2 ^ 16
    → IsFinished prog
unfolding h_regex_compile
h_regex_compile-IsFinished fuel heap p prog ignored e s =
    go (is_valid_regular fuel heap p)
      (h_compile_regex fuel heap p (record { insns = []; actions = [] })) refl e
  where
    go :
        (valid : Option Bool) (o : Option (Bool × Prog))
        → h_compile_regex fuel heap p (record { insns = []; actions = [] }) ≡ o
        → elim valid [
          | none ↦ none
          | some false ↦ some not_regular
          | some true ↦ elim o [
            | none ↦ none
            | some (false, q) ↦ some not_compiled
            | some (true, q) ↦ some (compiled (accepting q))
          ]
        ]
          ≡ some (compiled prog)
        → IsFinished prog
    go none o f e = absurd (cc)
    go (some false) o f e = absurd (cc)
    go (some true) none f e = absurd (cc)
    go (some true) (some (false, q)) f e = absurd (cc)
    go (some true) (some (true, q)) f e =
        let same : accepting q ≡ prog = cc in
        subst (λ x. IsFinished x) same
          (accepting-IsFinished q
            (h_compile_regex-Grows heap ignored fuel p (record { insns = []; actions = [] }) q f)
            (subst (λ x. length x.insns < 2 ^ 16) (sym same) s))

-- A program that h_regex_compile makes, under the same conditions, is run over every input to the
-- end: the threads stay in it, no array is left, no assertion fails, and a trace that is found is one
-- that some choice at each fork leads to.
pub h_regex_compile-find_trace :
    (fuel : ℕ) (heap : Heap) (p : ℕ) (prog : Prog) (input : List ℕ)
    (block block' : List (Node Trace))
    → IgnoresCompile heap
    → h_regex_compile fuel heap p ≡ some (compiled prog)
    → length prog.insns < 2 ^ 16
    → length block ≡ length prog.insns
    → length block' ≡ length prog.insns
    → (found : Option Trace) × (find_trace block block' prog input ≡ some found)
      × AcceptsFound prog input found
h_regex_compile-find_trace fuel heap p prog input block block' ignored e s =
    find_trace-Accepts prog input block block'
      ((h_regex_compile-IsFinished fuel heap p prog ignored e s).closed)
