-- ===== src/Regex/Composed.antt =====
-- The compile_to_rvm functions of the parsers in src/parsers/ that are built from others: what they add
-- to a program has no open jumps either.
use hammer.Prelude.{
  ◌<◌, ◌≤◌, ◌^◌, ℕ, zero, suc, ◌≤◌, ◌≡◌, ◌≢◌, refl, Bool, true, false, Option, none, some, List, [],
  ◌∷◌, ◌++◌, arith, length, ◌==◌, inl, inr, if◌then◌else◌,
}
use hammer.Syntax.{Repeat}
use hammer.Regex.{
  rvm_goto, rvm_fork, rvm_push, rvm_action, rvm_match, Insn, Prog, make_sequence, clear_to_mark,
  action_pop, action_optional, action_ignoreseq, action_action, action_attr_bool,
}
use hammer.Regex.Program.{Build, ◌>>◌, and_then, pure, h_rvm_get_ip, ◌>>=◌, h_rvm_patch_arg}
use hammer.Regex.Compile.{
  emit_action, ws_ctrvm, ignore_ctrvm, opt_ctrvm, sequence_ctrvm_loop, sequence_ctrvm, is_loop,
  is_ctrvm, patch_all, choice_ctrvm_loop, many_sep_ctrvm, patch_end, many_star, many_times,
  many_min, many_ctrvm, ab_ctrvm, action_ctrvm,
}
use hammer.Regex.Holes.{IsTarget, IsHole, AreFrom, Grows, Grows-trans, Grows-order}
use hammer.Regex.Continues.{
  AreAtMost, Continues, AreCompiled, Continues-true, Continues-emit, Continues-hole, Continues-ip,
  Continues-later, Continues-patch, Continues-create, Continues-compiled,
}
use hammer.Regex.Compiled.{
  and_then_assoc, Continues-action, Continues-known, Continues-same, ws_range-Continues,
}

-- The hole of a goto comes last among those of a choice.
IsHole-last :
    (goto : ℕ) (gotos : List ℕ) (i : ℕ) → IsHole i (goto ∷ gotos) → IsHole i (gotos ++ goto ∷ [])
IsHole-last goto [] i h = h
IsHole-last goto (g ∷ gotos) i (inl e) = inr (IsHole-last goto gotos i (inl e))
IsHole-last goto (g ∷ gotos) i (inr (inl e)) = inl e
IsHole-last goto (g ∷ gotos) i (inr (inr h)) = inr (IsHole-last goto gotos i (inr h))

AreFrom-last :
    (goto : ℕ) (gotos : List ℕ) (n m : ℕ)
    → AreFrom n m (goto ∷ gotos)
    → AreFrom n m (gotos ++ goto ∷ [])
AreFrom-last goto [] n m a = a
AreFrom-last goto (g ∷ gotos) n m a = (a.2.0, a.2.1, AreFrom-last goto gotos n m (a.0, a.1, a.2.2))

Continues-order :
    {known : List (ℕ × ℕ)} {xs : List Insn} (holes holes' : List ℕ) (c : Build Bool)
    → ((i : ℕ) → IsHole i holes → IsHole i holes')
    → ((n m : ℕ) → AreFrom n m holes → AreFrom n m holes')
    → Continues holes' known xs c
    → Continues holes known xs c
Continues-order {xs = xs} holes holes' c f f' k = record {
  grows = λ before after g a e.
      k.grows before after (Grows-order holes holes' xs before.insns f f' g) a e;
}

fork_back : (nxt n : ℕ) → 1 ≤ nxt → nxt ≤ n → IsTarget (suc n) rvm_fork nxt
fork_back nxt n p h = (omega arith, omega arith)

-- The hole of the fork to the end, if there is one.
abbrev open_end : Option ℕ → List ℕ
open_end none = []
open_end (some end_fork) = end_fork ∷ []

module _ (run : ℕ → Build Bool) (r : AreCompiled run) {xs : List Insn} where
  -- The last parser of all, whose result is returned.
  run-Continues : {known : List (ℕ × ℕ)} (p : ℕ) → Continues [] known xs (run p)
  run-Continues p = record {
    grows = λ before after g a e. Grows-trans [] xs before.insns after.insns g (r p before after e);
  }

  pub ws_ctrvm-Continues : (p : ℕ) → Continues [] [] xs (ws_ctrvm run p)
  unfolding ws_ctrvm
  ws_ctrvm-Continues p = Continues-ip _ (λ start.
      ws_range-Continues start 0x0d09 _ (λ n a. a.0)
        (ws_range-Continues start 0x2020 _ (λ n a. a.0) (run-Continues p)))

  -- The code of h_ignore does not look at the result, so it is correct where the result is true.
  pub ignore_ctrvm-Continues :
      (p : ℕ)
      → ((before after : Prog) → run p before ≢ some (false, after))
      → Continues [] [] xs (ignore_ctrvm run p)
  unfolding ignore_ctrvm
  ignore_ctrvm-Continues p never = record {
    grows = λ before after g a e. go before after g a (run p before) refl e;
  }
    where
      go :
          (before after : Prog)
          → Grows [] xs before.insns
          → AreAtMost (length xs) [] (length before.insns)
          → (o : Option (Bool × Prog)) → run p before ≡ o
          → and_then o (λ b. emit_action action_pop 0 >> pure true) ≡ some (true, after)
          → Grows [] xs after.insns
      go before after g a none f e = absurd (cc)
      go before after g a (some (false, middle)) f e = absurd (never before middle f)
      go before after g a (some (true, middle)) f e =
          (Continues-action {known = []} {xs = xs} action_pop 0 (pure true) Continues-true).grows
            middle after (Grows-trans [] xs before.insns middle.insns g (r p before middle f)) tt e

  pub opt_ctrvm-Continues : (p : ℕ) → Continues [] [] xs (opt_ctrvm run p)
  unfolding opt_ctrvm
  opt_ctrvm-Continues p =
      Continues-emit rvm_push 0 _ (λ n s a. tt)
        (Continues-hole rvm_fork 0 _ (λ insn. Continues-compiled run p _ r (
          Continues-later insn _ (λ ip.
            Continues-patch insn ip _ (λ n a. (a.0, a.2))
              (Continues-action action_optional 0 _ Continues-true)))))

  sequence_ctrvm_loop-Continues :
      (ps : List ℕ) (next : Build Bool)
      → Continues [] [] xs next
      → Continues [] [] xs (sequence_ctrvm_loop run ps next)
  unfolding sequence_ctrvm_loop
  sequence_ctrvm_loop-Continues [] next k = k
  sequence_ctrvm_loop-Continues (p ∷ ps) next k =
      Continues-compiled run p _ r (sequence_ctrvm_loop-Continues ps next k)

  pub sequence_ctrvm-Continues : (ps : List ℕ) → Continues [] [] xs (sequence_ctrvm run ps)
  unfolding sequence_ctrvm
  sequence_ctrvm-Continues ps =
      Continues-emit rvm_push 0 _ (λ n s a. tt)
        (sequence_ctrvm_loop-Continues ps _ (Continues-action make_sequence 0 _ Continues-true))

  is_loop-Continues :
      (ps : List ℕ) (next : Build Bool)
      → Continues [] [] xs next
      → Continues [] [] xs (is_loop run ps next)
  unfolding is_loop
  is_loop-Continues [] next k = k
  is_loop-Continues (p ∷ ps) next k =
      Continues-emit rvm_push 0 _ (λ n s a. tt)
        (Continues-compiled run p _ r (is_loop-Continues ps next k))

  pub is_ctrvm-Continues : (ps : List ℕ) (env : ℕ) → Continues [] [] xs (is_ctrvm run ps env)
  unfolding is_ctrvm
  is_ctrvm-Continues ps env =
      is_loop-Continues ps _ (Continues-action action_ignoreseq env _ Continues-true)

  pub ab_ctrvm-Continues : (p env : ℕ) → Continues [] [] xs (ab_ctrvm run p env)
  unfolding ab_ctrvm
  ab_ctrvm-Continues p env =
      Continues-emit rvm_push 0 _ (λ n s a. tt)
        (Continues-compiled run p _ r (Continues-action action_attr_bool env _ Continues-true))

  pub action_ctrvm-Continues : (p env : ℕ) → Continues [] [] xs (action_ctrvm run (some p) env)
  unfolding action_ctrvm
  action_ctrvm-Continues p env =
      Continues-emit rvm_push 0 _ (λ n s a. tt)
        (Continues-compiled run p _ r (Continues-action action_action env _ Continues-true))

  -- The alternatives' last jumps, in the order in which they are patched.
  patch_all-Continues :
      {known : List (ℕ × ℕ)} (gotos : List ℕ) (jump : ℕ)
      → ((n : ℕ) → AreAtMost (length xs) known n → (jump ≤ n) × (n < 2 ^ 16 → 1 ≤ jump))
      → Continues gotos known xs (patch_all gotos jump >> pure true)
  unfolding patch_all
  patch_all-Continues [] jump below = Continues-same _ (pure true) (λ before. refl) Continues-true
  patch_all-Continues (goto ∷ gotos) jump below =
      Continues-same _ (h_rvm_patch_arg goto jump >> (patch_all gotos jump >> pure true))
        (λ before.
          and_then_assoc (h_rvm_patch_arg goto jump before) (λ u. patch_all gotos jump)
            (λ u. pure true))
        (Continues-patch goto jump _ below (patch_all-Continues gotos jump below))

  pub choice_ctrvm_loop-Continues :
      (ps gotos : List ℕ) → Continues gotos [] xs (choice_ctrvm_loop run ps gotos)
  unfolding choice_ctrvm_loop patch_all
  choice_ctrvm_loop-Continues [] [] =
      Continues-emit rvm_match 0x00ff _ (λ n s a. tt)
        (Continues-ip _ (λ jump. Continues-same _ (pure true) (λ before. refl) Continues-true))
  choice_ctrvm_loop-Continues [] (goto ∷ gotos) =
      Continues-emit rvm_match 0x00ff _ (λ n s a. tt)
        (Continues-later goto _
          (λ jump. patch_all-Continues (goto ∷ gotos) jump (λ n a. (a.0, a.2))))
  choice_ctrvm_loop-Continues (p ∷ ps) gotos = Continues-hole rvm_fork 0 _ (λ insn.
      Continues-compiled run p _ r (
        Continues-hole rvm_goto 65535 _ (λ goto. Continues-later goto _ (λ ip.
          Continues-order (goto ∷ insn ∷ gotos) (insn ∷ gotos ++ goto ∷ []) _
            (IsHole-last goto (insn ∷ gotos)) (AreFrom-last goto (insn ∷ gotos))
            (Continues-patch insn ip _ (λ n a. (a.0, a.2))
              (Continues-known 1 ip _ (choice_ctrvm_loop-Continues ps (gotos ++ goto ∷ []))))))))

  many_sep_ctrvm-Continues :
      {holes : List ℕ} {known : List (ℕ × ℕ)} (sep : Option ℕ) (clear : ℕ) (next : Build Bool)
      → Continues holes known xs next
      → Continues holes known xs (many_sep_ctrvm run sep clear next)
  unfolding many_sep_ctrvm
  many_sep_ctrvm-Continues none clear next k = k
  many_sep_ctrvm-Continues (some sep) clear next k =
      Continues-emit rvm_push 0 _ (λ n s a. tt)
        (Continues-compiled run sep _ r (Continues-emit rvm_action clear _ (λ n s a. tt) k))

  patch_end-Continues :
      {known : List (ℕ × ℕ)} (end_fork : Option ℕ) (next : Build Bool)
      → Continues [] known xs next
      → Continues
          (open_end end_fork)
          known
          xs
          (h_rvm_get_ip >>= (λ ip. patch_end end_fork ip >> next))
  unfolding patch_end
  patch_end-Continues none next k =
      Continues-ip _ (λ ip. Continues-same _ next (λ before. refl) (Continues-known 0 ip next k))
  patch_end-Continues (some end_fork) next k =
      Continues-later end_fork _
        (λ ip. Continues-patch end_fork ip next (λ n a. (a.0, a.2)) (Continues-known 1 ip next k))

  many_star-Continues :
      (repeat : Repeat) (clear : ℕ) (end_fork : Option ℕ)
      → Continues (open_end end_fork) [] xs (many_star run repeat clear end_fork)
  unfolding many_star
  many_star-Continues repeat clear end_fork = Continues-hole rvm_goto 0xffff _ (λ goto_mid.
      Continues-later goto_mid _ (λ nxt. many_sep_ctrvm-Continues repeat.sep clear _ (
        Continues-later goto_mid _ (λ mid.
          Continues-patch goto_mid mid _ (λ n a. (a.0, a.2))
            (Continues-compiled run repeat.p _ r (
              Continues-emit rvm_fork nxt _ (λ n s a. fork_back nxt n (a.3.2 (omega arith)) a.3.0)
                (patch_end-Continues end_fork _
                  (Continues-action make_sequence 0 _ Continues-true))))))))

  many_times-Continues :
      (repeat : Repeat) (clear left i : ℕ) → Continues [] [] xs (many_times run repeat clear left i)
  unfolding many_times
  many_times-Continues repeat clear zero i = Continues-action make_sequence 0 _ Continues-true
  many_times-Continues repeat clear (suc left) i =
      many_sep_ctrvm-Continues (if i == 0 then none else repeat.sep) clear _
        (Continues-compiled run repeat.p _ r (many_times-Continues repeat clear left (suc i)))

  many_min-Continues :
      (repeat : Repeat) (clear n : ℕ) → Continues [] [] xs (many_min run repeat clear n)
  unfolding many_min
  many_min-Continues repeat clear zero =
      Continues-hole rvm_fork 0xffff _
        (λ end_fork. many_star-Continues repeat clear (some end_fork))
  many_min-Continues repeat clear (suc zero) = many_star-Continues repeat clear none
  many_min-Continues repeat clear (suc (suc n)) = record {
    grows = λ before after g a e. absurd (cc);
  }

  pub many_ctrvm-Continues : (repeat : Repeat) → Continues [] [] xs (many_ctrvm run repeat)
  unfolding many_ctrvm
  many_ctrvm-Continues repeat = Continues-create clear_to_mark 0 _ (λ clear.
      Continues-emit rvm_push 0 _ (λ n s a. tt)
        (go clear repeat.min_p (many_min-Continues repeat clear repeat.count)
          (many_times-Continues repeat clear repeat.count 0)))
    where
      go :
          (clear : ℕ) (b : Bool)
          → Continues [] [] xs (many_min run repeat clear repeat.count)
          → Continues [] [] xs (many_times run repeat clear repeat.count 0)
          → Continues [] [] xs (
              if b
              then many_min run repeat clear repeat.count
              else many_times run repeat clear repeat.count 0)
      go clear true k k' = k
      go clear false k k' = k'
