-- ===== src/Regex/Compile.antt =====
-- The functions `compile_to_rvm` of the vtables in src/parsers/, and h_compile_regex of
-- src/backends/regex.c.
--
-- Each takes what stands for the call through the vtable of another parser. An env is the address of
-- the parser that it belongs to; a character is its own env.
use hammer.Prelude.{
  ℕ, zero, suc, ◌+◌, ◌-◌, ◌*◌, ◌/◌, ◌^◌, bit_or, Bool, true, false, ◌&&◌, Option, none, some, List,
  [], ◌∷◌, ◌++◌, length, get_elem?, ltb, ◌==◌, if◌then◌else◌,
}
use hammer.Charset.{Charset, charset_isset}
use hammer.Syntax.{Repeat, Parser, Heap}
use hammer.Regex.{
  Op, rvm_goto, rvm_fork, rvm_push, rvm_action, rvm_capture, rvm_eof, rvm_match, rvm_step,
  ActionFunc, make_sequence, clear_to_mark, action_pop, action_optional, action_ch, action_charset,
  action_bits, action_ignoreseq, action_action, action_attr_bool, validate_int_range,
}
use hammer.Regex.Program.{
  Build, ◌>>=◌, ◌>>◌, pure, h_rvm_insert_insn, h_rvm_get_ip, h_rvm_patch_arg, h_rvm_create_action,
}

-- A failed assertion, or a grammar that is deeper than the rounds given.
abbrev pub stuck {ℓ} : {A : Type ℓ} → Build A
stuck prog = none

-- h_rvm_insert_insn where the result is not used.
unfoldable pub emit : Op → ℕ → Build (Unit {0})
emit op arg = h_rvm_insert_insn op arg >> pure tt

unfoldable pub emit_action : ActionFunc → ℕ → Build (Unit {0})
emit_action func env = do action ← h_rvm_create_action func env; emit rvm_action action

-- A character as the lower and the upper bound of a match.
abbrev pub only : ℕ → ℕ
only c = bit_or c (c * 2 ^ 8)

unfoldable pub nothing_ctrvm : Build Bool
nothing_ctrvm = do emit rvm_match 0x0000; emit rvm_match 0xffff; pure true

unfoldable pub epsilon_ctrvm : Build Bool
epsilon_ctrvm = pure true

unfoldable pub end_ctrvm : Build Bool
end_ctrvm = do emit rvm_eof 0; pure true

unfoldable pub ch_ctrvm : ℕ → Build Bool
ch_ctrvm c = do
  emit rvm_push 0
  emit rvm_match (only c)
  emit rvm_step 0
  emit rvm_capture 0
  emit_action action_ch c
  pure true

unfoldable pub bits_loop : ℕ → Build (Unit {0})
bits_loop zero = pure tt
bits_loop (suc n) = do emit rvm_match 0xff00; emit rvm_step 0; bits_loop n

unfoldable pub bits_ctrvm : ℕ → ℕ → Build Bool
bits_ctrvm length env = do
  emit rvm_push 0
  bits_loop (length / 8)
  emit rvm_capture 0
  emit_action action_bits env
  pure true

unfoldable pub token_loop : List ℕ → Build (Unit {0})
token_loop [] = pure tt
token_loop (c ∷ str) = do emit rvm_match (only c); emit rvm_step 0; token_loop str

unfoldable pub token_ctrvm : List ℕ → Build Bool
token_ctrvm str = do emit rvm_push 0; token_loop str; emit rvm_capture 0; pure true

-- A range of characters that a set has: skipped over where the input is not in it.
unfoldable pub cs_range : ℕ → ℕ → Build (Unit {0})
cs_range range_start range_end = do
  insn ← h_rvm_insert_insn rvm_fork 0
  emit rvm_match (bit_or range_start (range_end * 2 ^ 8))
  emit rvm_goto 0
  ip ← h_rvm_get_ip
  h_rvm_patch_arg insn ip

-- The loop over the positions from `i` to 256, `left` of them; `collecting` is the start of the range
-- that is open.
unfoldable pub cs_loop : Charset → ℕ → ℕ → Option ℕ → Build (Unit {0})
cs_loop cs zero i collecting = pure tt
cs_loop cs (suc left) i none =
    cs_loop cs left (i + 1) (if ltb i 256 && charset_isset cs i then some i else none)
cs_loop cs (suc left) i (some range_start) =
    let go_on = cs_loop cs left (i + 1) (some range_start) in
    let close = cs_range range_start (i - 1) >> cs_loop cs left (i + 1) none in
    if ltb i 256 && charset_isset cs i then go_on else close

abbrev pub is_goto : Op → Bool
is_goto rvm_goto = true
is_goto _ = false

-- The jumps among the `left` instructions from `i` on are set to the end.
unfoldable pub patch_gotos : ℕ → ℕ → ℕ → Build (Unit {0})
patch_gotos zero i jump prog = some (tt, prog)
patch_gotos (suc left) i jump prog = elim (get_elem? prog.insns i) [
  | none ↦ none
  | some insn ↦
      ((if is_goto insn.op then h_rvm_patch_arg i jump else pure tt)
          >> patch_gotos left (suc i) jump)
        prog
]

unfoldable pub cs_ctrvm : Charset → ℕ → Build Bool
cs_ctrvm cs env = do
  emit rvm_push 0
  start ← h_rvm_get_ip
  cs_loop cs 257 0 none
  emit rvm_match 0x00ff
  jump ← h_rvm_insert_insn rvm_step 0
  patch_gotos (jump - start) start jump
  emit rvm_capture 0
  emit_action action_charset env
  pure true

-- h_not_regular
unfoldable pub h_not_regular : Build Bool
h_not_regular = pure false

unfoldable pub ws_range : ℕ → ℕ → Build (Unit {0})
ws_range start range = do
  next ← h_rvm_insert_insn rvm_fork 0
  emit rvm_match range
  emit rvm_step 0
  emit rvm_goto start
  ip ← h_rvm_get_ip
  h_rvm_patch_arg next ip

unfoldable pub patch_all : List ℕ → ℕ → Build (Unit {0})
patch_all [] jump = pure tt
patch_all (goto ∷ gotos) jump = h_rvm_patch_arg goto jump >> patch_all gotos jump

unfoldable pub patch_end : Option ℕ → ℕ → Build (Unit {0})
patch_end none ip = pure tt
patch_end (some end_fork) ip = h_rvm_patch_arg end_fork ip

module _ (run : ℕ → Build Bool) where
  -- What follows if a parser has been compiled; if not, the function returns false.
  unfoldable pub if_compiled : ℕ → Build Bool → Build Bool
  if_compiled p next = do b ← run p; (if b then next else pure false)

  -- `return false` whether or not the parser has been compiled.
  unfoldable pub ir_ctrvm : ℕ → ℕ → Build Bool
  ir_ctrvm p env = do b ← run p; emit_action validate_int_range env; pure false

  unfoldable pub ws_ctrvm : ℕ → Build Bool
  ws_ctrvm p = do start ← h_rvm_get_ip; ws_range start 0x0d09; ws_range start 0x2020; run p

  -- The result of the compilation is not looked at.
  unfoldable pub ignore_ctrvm : ℕ → Build Bool
  ignore_ctrvm p = do b ← run p; emit_action action_pop 0; pure true

  unfoldable pub opt_ctrvm : ℕ → Build Bool
  opt_ctrvm p = do
    emit rvm_push 0
    insn ← h_rvm_insert_insn rvm_fork 0
    if_compiled p
        (do ip ← h_rvm_get_ip; h_rvm_patch_arg insn ip; emit_action action_optional 0; pure true)

  unfoldable pub sequence_ctrvm_loop : List ℕ → Build Bool → Build Bool
  sequence_ctrvm_loop [] next = next
  sequence_ctrvm_loop (p ∷ ps) next = if_compiled p (sequence_ctrvm_loop ps next)

  unfoldable pub sequence_ctrvm : List ℕ → Build Bool
  sequence_ctrvm ps = do
    emit rvm_push 0
    sequence_ctrvm_loop ps (emit_action make_sequence 0 >> pure true)

  unfoldable pub is_loop : List ℕ → Build Bool → Build Bool
  is_loop [] next = next
  is_loop (p ∷ ps) next = do emit rvm_push 0; if_compiled p (is_loop ps next)

  unfoldable pub is_ctrvm : List ℕ → ℕ → Build Bool
  is_ctrvm ps env = is_loop ps (emit_action action_ignoreseq env >> pure true)

  unfoldable pub choice_ctrvm_loop : List ℕ → List ℕ → Build Bool
  choice_ctrvm_loop [] gotos = do
    emit rvm_match 0x00ff
    jump ← h_rvm_get_ip
    patch_all gotos jump
    pure true
  choice_ctrvm_loop (p ∷ ps) gotos = do
    insn ← h_rvm_insert_insn rvm_fork 0
    if_compiled p (do
      goto ← h_rvm_insert_insn rvm_goto 65535
      ip ← h_rvm_get_ip
      h_rvm_patch_arg insn ip
      choice_ctrvm_loop ps (gotos ++ goto ∷ []))

  unfoldable pub choice_ctrvm : List ℕ → Build Bool
  choice_ctrvm ps = choice_ctrvm_loop ps []

  -- The separator and the action that clears what it leaves on the stack.
  unfoldable pub many_sep_ctrvm : Option ℕ → ℕ → Build Bool → Build Bool
  many_sep_ctrvm none clear next = next
  many_sep_ctrvm (some sep) clear next = do
    emit rvm_push 0
    if_compiled sep (emit rvm_action clear >> next)

  -- min_p: the element once, then again after each separator; none at all if `count` is 0.
  unfoldable pub many_star : Repeat → ℕ → Option ℕ → Build Bool
  many_star repeat clear end_fork = do
    goto_mid ← h_rvm_insert_insn rvm_goto 0xffff
    nxt ← h_rvm_get_ip
    many_sep_ctrvm repeat.sep clear (do
      mid ← h_rvm_get_ip
      h_rvm_patch_arg goto_mid mid
      if_compiled repeat.p (do
        emit rvm_fork nxt
        ip ← h_rvm_get_ip
        patch_end end_fork ip
        emit_action make_sequence 0
        pure true))

  unfoldable pub many_times : Repeat → ℕ → ℕ → ℕ → Build Bool
  many_times repeat clear zero i = emit_action make_sequence 0 >> pure true
  many_times repeat clear (suc left) i =
      many_sep_ctrvm (if i == 0 then none else repeat.sep) clear
        (if_compiled repeat.p (many_times repeat clear left (suc i)))

  unfoldable pub many_min : Repeat → ℕ → ℕ → Build Bool
  many_min repeat clear zero = do
    end_fork ← h_rvm_insert_insn rvm_fork 0xffff
    many_star repeat clear (some end_fork)
  many_min repeat clear (suc zero) = many_star repeat clear none
  many_min repeat clear (suc (suc n)) = stuck

  unfoldable pub many_ctrvm : Repeat → Build Bool
  many_ctrvm repeat = do
    clear ← h_rvm_create_action clear_to_mark 0
    emit rvm_push 0
    (if repeat.min_p
        then many_min repeat clear repeat.count
        else many_times repeat clear repeat.count 0)

  unfoldable pub ab_ctrvm : ℕ → ℕ → Build Bool
  ab_ctrvm p env = do emit rvm_push 0; if_compiled p (emit_action action_attr_bool env >> pure true)

  unfoldable pub action_ctrvm : Option ℕ → ℕ → Build Bool
  action_ctrvm none env = emit rvm_push 0 >> stuck
  action_ctrvm (some p) env = do
    emit rvm_push 0
    if_compiled p (emit_action action_action env >> pure true)

  -- The call through the vtable of the object at the address `env`. length_value has no
  -- compile_to_rvm.
  unfoldable pub compile_to_rvm : ℕ → Parser → Build Bool
  compile_to_rvm env Parser.nothing = nothing_ctrvm
  compile_to_rvm env Parser.epsilon = epsilon_ctrvm
  compile_to_rvm env Parser.end = end_ctrvm
  compile_to_rvm env (Parser.ch c) = ch_ctrvm c
  compile_to_rvm env (Parser.charset cs) = cs_ctrvm cs env
  compile_to_rvm env (Parser.token str) = token_ctrvm str
  compile_to_rvm env (Parser.bits length sign) = bits_ctrvm length env
  compile_to_rvm env (Parser.int_range p lower upper) = ir_ctrvm p env
  compile_to_rvm env (Parser.whitespace p) = ws_ctrvm p
  compile_to_rvm env (Parser.ignore p) = ignore_ctrvm p
  compile_to_rvm env (Parser.optional p) = opt_ctrvm p
  compile_to_rvm env (Parser.sequence ps) = sequence_ctrvm ps
  compile_to_rvm env (Parser.choice ps) = choice_ctrvm ps
  compile_to_rvm env (Parser.many repeat) = many_ctrvm repeat
  compile_to_rvm env (Parser.ignoreseq ps which) = is_ctrvm ps env
  compile_to_rvm env (Parser.attr_bool p pred) = ab_ctrvm p env
  compile_to_rvm env (Parser.action p a) = action_ctrvm p env
  compile_to_rvm env (Parser.length_value p q) = stuck
  compile_to_rvm env _ = h_not_regular

-- h_compile_regex, for grammars of a depth of at most `fuel`.
unfoldable pub h_compile_regex : ℕ → Heap → ℕ → Build Bool
h_compile_regex zero heap p = stuck
h_compile_regex (suc fuel) heap p = elim (heap p) [
  | none ↦ stuck
  | some v ↦ compile_to_rvm (h_compile_regex fuel heap) p v
]
