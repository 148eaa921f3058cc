-- ===== src/Regex/Compiled.antt =====
-- The compile_to_rvm functions of src/parsers/: what they add to a program has no open jumps.
use hammer.Prelude.{
  subst, get_elem?-lt, ℕ, zero, suc, ◌+◌, ◌-◌, ◌*◌, ◌/◌, ◌^◌, bit_or, ◌≤◌, ◌<◌, ◌≡◌, refl, sym, ◌∙◌,
  Bool, true, false, ◌&&◌, Option, none, some, List, [], ◌∷◌, arith, length, ltb, if◌then◌else◌,
  get_elem?,
}
use hammer.Charset.{Charset, charset_isset}
use hammer.Regex.{
  Op, rvm_accept, rvm_fork, rvm_goto, rvm_fork, rvm_push, rvm_action, rvm_capture, rvm_eof,
  rvm_match, rvm_step, Insn, Prog, ActionFunc, action_ch, action_charset, action_bits,
}
use hammer.Regex.Program.{
  Build, ◌>>=◌, ◌>>◌, and_then, pure, h_rvm_insert_insn, h_rvm_get_ip, h_rvm_patch_arg,
  h_rvm_create_action,
}
use hammer.Regex.Compile.{
  emit, emit_action, only, nothing_ctrvm, end_ctrvm, ch_ctrvm, bits_loop, bits_ctrvm, token_loop,
  token_ctrvm, cs_range, cs_loop, cs_ctrvm, ws_range, patch_gotos, is_goto,
}
use hammer.Regex.Holes.{IsTarget, Grows, Grows-more}
use hammer.Regex.Continues.{
  AreAtMost, Continues, Continues-true, Continues-emit, Continues-hole, Continues-insert,
  Continues-ip, Continues-later, Continues-patch, Grows-patched, Continues-create,
}

pub and_then_assoc :
    {A B C : Type 0} (o : Option (A × Prog)) (f : A → Build B) (g : B → Build C)
    → and_then (and_then o f) g ≡ and_then o (λ a q. and_then (f a q) g)
and_then_assoc none f g = refl
and_then_assoc (some (a, q)) f g = refl

module _ {holes : List ℕ} {known : List (ℕ × ℕ)} {xs : List Insn} where
  -- The instructions that have no address.
  pub Continues-action :
      (func : ActionFunc) (env : ℕ) (next : Build Bool)
      → Continues holes known xs next
      → Continues holes known xs (emit_action func env >> next)
  unfolding emit_action
  Continues-action func env next k = record {
    grows = λ before after g a e.
        (Continues-create func env (λ action. emit rvm_action action >> next)
            (λ action. Continues-emit rvm_action action next (λ n s a. tt) k)).grows
          before after g a
          (sym (and_then_assoc (h_rvm_create_action func env before) (emit rvm_action) (λ u. next))
            ∙ e);
  }

  -- Steps that are the same from every program.
  pub Continues-same :
      (c d : Build Bool)
      → ((before : Prog) → c before ≡ d before)
      → Continues holes known xs d
      → Continues holes known xs c
  Continues-same c d same k = record {
    grows = λ before after g a e. k.grows before after g a (sym (same before) ∙ e);
  }

  -- The loops of h_bits and h_token.
  bits_loop-Continues :
      (n : ℕ) (next : Build Bool)
      → Continues holes known xs next
      → Continues holes known xs (bits_loop n >> next)
  unfolding bits_loop emit h_rvm_insert_insn
  bits_loop-Continues zero next k = Continues-same _ next (λ before. refl) k
  bits_loop-Continues (suc n) next k =
      Continues-same _ (emit rvm_match 0xff00 >> (emit rvm_step 0 >> (bits_loop n >> next)))
        (λ before. refl)
        (Continues-emit rvm_match 0xff00 _ (λ n s a. tt)
          (Continues-emit rvm_step 0 _ (λ n s a. tt) (bits_loop-Continues n next k)))

  token_loop-Continues :
      (str : List ℕ) (next : Build Bool)
      → Continues holes known xs next
      → Continues holes known xs (token_loop str >> next)
  unfolding token_loop emit h_rvm_insert_insn
  token_loop-Continues [] next k = Continues-same _ next (λ before. refl) k
  token_loop-Continues (c ∷ str) next k =
      Continues-same _ (emit rvm_match (only c) >> (emit rvm_step 0 >> (token_loop str >> next)))
        (λ before. refl)
        (Continues-emit rvm_match (only c) _ (λ n s a. tt)
          (Continues-emit rvm_step 0 _ (λ n s a. tt) (token_loop-Continues str next k)))

  pub Continues-known :
      (floor v : ℕ) (next : Build Bool)
      → Continues holes known xs next
      → Continues holes ((floor, v) ∷ known) xs next
  Continues-known floor v next k = record {
    grows = λ before after g a e. k.grows before after g a.3 e;
  }

  -- A range of characters, for h_charset and for white space.
  cs_range-Continues :
      (first last : ℕ) (next : Build Bool)
      → Continues holes known xs next
      → Continues holes known xs (cs_range first last >> next)
  unfolding cs_range emit h_rvm_insert_insn h_rvm_get_ip
  cs_range-Continues first last next k =
      Continues-same _
        (h_rvm_insert_insn rvm_fork 0 >>= (λ insn.
          emit rvm_match (bit_or first (last * 2 ^ 8))
          >> (emit rvm_goto 0 >> (h_rvm_get_ip >>= (λ ip. h_rvm_patch_arg insn ip >> next)))))
        (λ before. refl)
        (Continues-hole rvm_fork 0 _ (λ insn.
          Continues-emit rvm_match (bit_or first (last * 2 ^ 8)) _ (λ n s a. tt)
            (Continues-emit rvm_goto 0 _ (λ n s a. omega arith)
              (Continues-later insn _ (λ ip.
                Continues-patch insn ip next (λ n a. (a.0, a.2)) (Continues-known 1 ip next k))))))

  pub ws_range-Continues :
      (start range : ℕ) (next : Build Bool)
      → ((n : ℕ) → AreAtMost (length xs) known n → start ≤ n)
      → Continues holes known xs next
      → Continues holes known xs (ws_range start range >> next)
  unfolding ws_range emit h_rvm_insert_insn h_rvm_get_ip
  ws_range-Continues start range next below k =
      Continues-same _
        (h_rvm_insert_insn rvm_fork 0 >>= (λ next_fork.
          emit rvm_match range
          >> (emit rvm_step 0
              >> (emit rvm_goto start
                  >> (h_rvm_get_ip >>= (λ ip. h_rvm_patch_arg next_fork ip >> next))))))
        (λ before. refl)
        (Continues-hole rvm_fork 0 _ (λ next_fork.
          Continues-emit rvm_match range _ (λ n s a. tt)
            (Continues-emit rvm_step 0 _ (λ n s a. tt)
              (Continues-emit rvm_goto start _ (λ n s a. omega (arith, below n a))
                (Continues-later next_fork _ (λ ip.
                  Continues-patch next_fork ip next (λ n a. (a.0, a.2))
                    (Continues-known 1 ip next k)))))))

  cs_loop-Continues :
      (cs : Charset) (left i : ℕ) (collecting : Option ℕ) (next : Build Bool)
      → Continues holes known xs next
      → Continues holes known xs (cs_loop cs left i collecting >> next)
  unfolding cs_loop
  cs_loop-Continues cs zero i collecting next k = Continues-same _ next (λ before. refl) k
  cs_loop-Continues cs (suc left) i none next k =
      cs_loop-Continues cs left (i + 1) (if ltb i 256 && charset_isset cs i then some i else none)
        next k
  cs_loop-Continues cs (suc left) i (some first) next k =
      go (cs_loop-Continues cs left (i + 1) (some first) next k)
        (cs_range-Continues first (i - 1) (cs_loop cs left (i + 1) none >> next)
          (cs_loop-Continues cs left (i + 1) none next k))
        (ltb i 256 && charset_isset cs i)
    where
      go :
          Continues holes known xs (cs_loop cs left (i + 1) (some first) >> next)
          → Continues holes known xs
              (cs_range first (i - 1) >> (cs_loop cs left (i + 1) none >> next))
          → (b : Bool)
          → Continues holes known xs (
              (if b
                then cs_loop cs left (i + 1) (some first)
                else cs_range first (i - 1) >> cs_loop cs left (i + 1) none)
              >> next)
      go on close true = on
      go on close false =
          Continues-same _ (cs_range first (i - 1) >> (cs_loop cs left (i + 1) none >> next))
            (λ before.
              and_then_assoc (cs_range first (i - 1) before) (λ u. cs_loop cs left (i + 1) none)
                (λ u. next))
            close

-- A goto may go anywhere.
IsTarget-goto : (n : ℕ) (op : Op) (arg : ℕ) → is_goto op ≡ true → arg ≤ n → IsTarget n op arg
IsTarget-goto n rvm_goto arg e h = h
IsTarget-goto n rvm_fork arg e h = absurd (cc)
IsTarget-goto n rvm_accept arg e h = tt
IsTarget-goto n rvm_push arg e h = tt
IsTarget-goto n rvm_action arg e h = tt
IsTarget-goto n rvm_capture arg e h = tt
IsTarget-goto n rvm_eof arg e h = tt
IsTarget-goto n rvm_match arg e h = tt
IsTarget-goto n rvm_step arg e h = tt

module _ {known : List (ℕ × ℕ)} {xs : List Insn} where
  patch_gotos-Continues :
      (left i jump : ℕ) (next : Build Bool)
      → ((n : ℕ) → AreAtMost (length xs) known n → (jump ≤ n) × (n < 2 ^ 16 → length xs ≤ i))
      → Continues [] known xs next
      → Continues [] known xs (patch_gotos left i jump >> next)
  unfolding patch_gotos
  patch_gotos-Continues zero i jump next inside k = Continues-same _ next (λ before. refl) k
  patch_gotos-Continues (suc left) i jump next inside k = record {
    grows = λ before after g a e.
        go
          (patch_gotos-Continues left (suc i) jump next
            (λ n a. ((inside n a).0, λ s. omega (arith, (inside n a).1 s))) k)
          before after g a (get_elem? before.insns i) refl e;
  }
    where
      one :
          Continues [] known xs (patch_gotos left (suc i) jump >> next)
          → (b : Bool) (before after : Prog) (insn : Insn) → get_elem? before.insns i ≡ some insn
          → is_goto insn.op ≡ b
          → Grows [] xs before.insns
          → AreAtMost (length xs) known (length before.insns)
          → and_then
              (((if b then h_rvm_patch_arg i jump else pure tt) >> patch_gotos left (suc i) jump)
                before)
              (λ u. next)
            ≡ some (true, after)
          → Grows [] xs after.insns
      one rest true before after insn at goto g a e =
          Grows-patched i jump _ before after
            (Grows-more i [] xs before.insns ((inside (length before.insns) a).1)
              (get_elem?-lt before.insns i at) g)
            a
            (λ other here s.
              let same : insn ≡ other = cc in
              subst (λ x. IsTarget (length before.insns) x.op jump) same
                (IsTarget-goto (length before.insns) insn.op jump goto
                  ((inside (length before.insns) a).0)))
            rest
            (sym (
                and_then_assoc (h_rvm_patch_arg i jump before) (λ u. patch_gotos left (suc i) jump)
                  (λ u. next))
              ∙ e)
      one rest false before after insn at goto g a e = rest.grows before after g a e

      go :
          Continues [] known xs (patch_gotos left (suc i) jump >> next)
          → (before after : Prog) → Grows [] xs before.insns
          → AreAtMost (length xs) known (length before.insns)
          → (o : Option Insn) → get_elem? before.insns i ≡ o
          → and_then
              (elim o [
                | none ↦ none
                | some insn ↦
                    ((if is_goto insn.op then h_rvm_patch_arg i jump else pure tt)
                        >> patch_gotos left (suc i) jump)
                      before
              ])
              (λ u. next)
            ≡ some (true, after)
          → Grows [] xs after.insns
      go rest before after g a none at e = absurd (cc)
      go rest before after g a (some insn) at e =
          one rest (is_goto insn.op) before after insn at refl g a e

pub nothing_ctrvm-Continues : {xs : List Insn} → Continues [] [] xs nothing_ctrvm
unfolding nothing_ctrvm
nothing_ctrvm-Continues =
    Continues-emit rvm_match 0x0000 _ (λ n s a. tt)
      (Continues-emit rvm_match 0xffff _ (λ n s a. tt) Continues-true)

pub end_ctrvm-Continues : {xs : List Insn} → Continues [] [] xs end_ctrvm
unfolding end_ctrvm
end_ctrvm-Continues = Continues-emit rvm_eof 0 _ (λ n s a. tt) Continues-true

pub ch_ctrvm-Continues : {xs : List Insn} (c : ℕ) → Continues [] [] xs (ch_ctrvm c)
unfolding ch_ctrvm
ch_ctrvm-Continues c =
    Continues-emit rvm_push 0 _ (λ n s a. tt)
      (Continues-emit rvm_match (only c) _ (λ n s a. tt)
        (Continues-emit rvm_step 0 _ (λ n s a. tt)
          (Continues-emit rvm_capture 0 _ (λ n s a. tt)
            (Continues-action action_ch c _ Continues-true))))

pub bits_ctrvm-Continues : {xs : List Insn} (len env : ℕ) → Continues [] [] xs (bits_ctrvm len env)
unfolding bits_ctrvm
bits_ctrvm-Continues len env =
    Continues-emit rvm_push 0 _ (λ n s a. tt)
      (bits_loop-Continues (len / 8) _ (
        Continues-emit rvm_capture 0 _ (λ n s a. tt)
          (Continues-action action_bits env _ Continues-true)))

pub token_ctrvm-Continues : {xs : List Insn} (str : List ℕ) → Continues [] [] xs (token_ctrvm str)
unfolding token_ctrvm
token_ctrvm-Continues str =
    Continues-emit rvm_push 0 _ (λ n s a. tt)
      (token_loop-Continues str _ (Continues-emit rvm_capture 0 _ (λ n s a. tt) Continues-true))

pub cs_ctrvm-Continues :
    {xs : List Insn} (cs : Charset) (env : ℕ) → Continues [] [] xs (cs_ctrvm cs env)
unfolding cs_ctrvm
cs_ctrvm-Continues cs env =
    Continues-emit rvm_push 0 _ (λ n s a. tt)
      (Continues-ip _ (λ start. cs_loop-Continues cs 257 0 none _ (
        Continues-emit rvm_match 0x00ff _ (λ n s a. tt)
          (Continues-insert rvm_step 0 _ (λ n. tt)
            (λ jump.
              patch_gotos-Continues (jump - start) start jump _ (λ n a. (a.0, a.3.1))
                (Continues-emit rvm_capture 0 _ (λ n s a. tt)
                  (Continues-action action_charset env _ Continues-true)))))))
