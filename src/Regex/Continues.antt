-- ===== src/Regex/Continues.antt =====
-- Rules for the parts that a compilation is made of: if what is built so far has only known holes,
-- what has been built at the end has none.
use hammer.Prelude.{
  get_elem?, ℕ, suc, ◌^◌, ◌≤◌, ◌<◌, ◌≡◌, refl, subst, Bool, true, false, Option, none, some, List,
  [], ◌∷◌, ◌++◌, arith, length, length-append, lt→ltb, le→ltb_false, inl, inr, le_or_lt,
  if◌then◌else◌,
}
use hammer.Regex.{Op, Insn, Prog, ActionFunc, u16}
use hammer.Regex.Program.{
  Build, ◌>>=◌, ◌>>◌, and_then, pure, h_rvm_insert_insn, h_rvm_get_ip, h_rvm_patch_arg, patched,
  find_action, action_at, h_rvm_create_action,
}
use hammer.Regex.Compile.{emit, if_compiled}
use hammer.Regex.Holes.{
  IsTarget, IsTarget-below, Grows, Grows-insn, Grows-hole, Grows-patch, Grows-trans, length-patched,
}

-- Addresses between two lengths, the second of which the program has reached, each with a number that
-- it is not below.
abbrev pub AreAtMost : ℕ → List (ℕ × ℕ) → ℕ → Type 0
AreAtMost l [] n = Unit {0}
AreAtMost l ((floor, v) ∷ vs) n =
    (v ≤ n) × (n < 2 ^ 16 → l ≤ v) × (n < 2 ^ 16 → floor ≤ v) × AreAtMost l vs n

AreAtMost-mono : (l : ℕ) (vs : List (ℕ × ℕ)) (m n : ℕ) → m ≤ n → AreAtMost l vs m → AreAtMost l vs n
AreAtMost-mono l [] m n h a = tt
AreAtMost-mono l ((floor, v) ∷ vs) m n h a = (
  omega (arith, a.0),
  λ s. a.1 (omega arith),
  λ s. a.2 (omega arith),
  AreAtMost-mono l vs m n h a.3,
)

pub record Continues (holes : List ℕ) (known : List (ℕ × ℕ)) (xs : List Insn) (c : Build Bool)
    : Type 0 where
  pub grows :
      (before after : Prog)
      → Grows holes xs before.insns
      → AreAtMost (length xs) known (length before.insns)
      → c before ≡ some (true, after)
      → Grows [] xs after.insns

-- The other parsers are compiled without holes.
abbrev pub AreCompiled : (ℕ → Build Bool) → Type 0
AreCompiled run =
    (p : ℕ) (before after : Prog)
    → run p before ≡ some (true, after)
    → Grows [] before.insns after.insns

abbrev pub added : Prog → Op → ℕ → List Insn
added prog op arg = prog.insns ++ record { op = op; arg = arg } ∷ []

length-added : (prog : Prog) (op : Op) (arg : ℕ) → length prog.insns ≤ length (added prog op arg)
length-added prog op arg =
    omega (arith, length-append prog.insns (record { op = op; arg = arg } ∷ []))

pub Continues-true : {known : List (ℕ × ℕ)} {xs : List Insn} → Continues [] known xs (pure true)
Continues-true {xs = xs} = record {
  grows = λ before after g a e.
      let same : before ≡ after = cc in subst (λ q. Grows [] xs q.insns) same g;
}

module _ {holes : List ℕ} {known : List (ℕ × ℕ)} {xs : List Insn} where
  -- An instruction whose argument is no address, or an address that is known.
  pub Continues-emit :
      (op : Op) (arg : ℕ) (next : Build Bool)
      → ((n : ℕ) → n < 2 ^ 16 → AreAtMost (length xs) known n → IsTarget (suc n) op arg)
      → Continues holes known xs next
      → Continues holes known xs (emit op arg >> next)
  unfolding emit h_rvm_insert_insn
  Continues-emit op arg next t k = record {
    grows = λ before after g a e.
        k.grows (record before { insns = added before op arg }) after
          (Grows-insn holes xs before.insns g op arg (λ s. t (length before.insns) s a))
          (AreAtMost-mono (length xs) known (length before.insns) (length (added before op arg))
            (length-added before op arg) a)
          e;
  }

  pub Continues-hole :
      (op : Op) (arg : ℕ) (next : ℕ → Build Bool)
      → ((ip : ℕ) → Continues (ip ∷ holes) known xs (next ip))
      → Continues holes known xs (h_rvm_insert_insn op arg >>= next)
  unfolding h_rvm_insert_insn
  Continues-hole op arg next k = record {
    grows = λ before after g a e.
        (k (u16 (length before.insns))).grows (record before { insns = added before op arg }) after
          (Grows-hole holes xs before.insns g op arg)
          (AreAtMost-mono (length xs) known (length before.insns) (length (added before op arg))
            (length-added before op arg) a)
          e;
  }

  -- An instruction that is no hole, and whose address is known from here on.
  pub Continues-insert :
      (op : Op) (arg : ℕ) (next : ℕ → Build Bool)
      → ((n : ℕ) → IsTarget (suc n) op arg)
      → ((ip : ℕ) → Continues holes ((0, ip) ∷ known) xs (next ip))
      → Continues holes known xs (h_rvm_insert_insn op arg >>= next)
  unfolding h_rvm_insert_insn
  Continues-insert op arg next t k = record {
    grows = λ before after g a e.
        (k (u16 (length before.insns))).grows (record before { insns = added before op arg }) after
          (Grows-insn holes xs before.insns g op arg (λ s. t (length before.insns)))
          (
            omega (arith, length-added before op arg),
            λ s. omega (arith, g.longer, length-added before op arg, s),
            λ s. omega arith,
            AreAtMost-mono (length xs) known (length before.insns) (length (added before op arg))
                (length-added before op arg) a,
          )
          e;
  }

  pub Continues-ip :
      (next : ℕ → Build Bool)
      → ((ip : ℕ) → Continues holes ((0, ip) ∷ known) xs (next ip))
      → Continues holes known xs (h_rvm_get_ip >>= next)
  unfolding h_rvm_get_ip
  Continues-ip next k = record {
    grows = λ before after g a e.
        (k (u16 (length before.insns))).grows before after g
          (omega arith, λ s. omega (arith, g.longer, s), λ s. omega arith, a) e;
  }

  -- Where a hole is open, the address is not 0.
  pub Continues-later :
      (hole : ℕ) (next : ℕ → Build Bool)
      → ((ip : ℕ) → Continues (hole ∷ holes) ((1, ip) ∷ known) xs (next ip))
      → Continues (hole ∷ holes) known xs (h_rvm_get_ip >>= next)
  unfolding h_rvm_get_ip
  Continues-later hole next k = record {
    grows = λ before after g a e.
        (k (u16 (length before.insns))).grows before after g
          (
            omega arith,
            λ s. omega (arith, g.longer, s),
            λ s. (let inside = (g.within s).1 in omega (arith, inside, s)),
            a,
          )
          e;
  }

  pub Grows-patched :
      (hole v : ℕ) (next : Build Bool) (before after : Prog)
      → Grows (hole ∷ holes) xs before.insns
      → AreAtMost (length xs) known (length before.insns)
      → ((insn : Insn)
          → get_elem? before.insns hole ≡ some insn
          → length before.insns < 2 ^ 16
          → IsTarget (length before.insns) insn.op v)
      → Continues holes known xs next
      → (h_rvm_patch_arg hole v >> next) before ≡ some (true, after)
      → Grows [] xs after.insns
  unfolding h_rvm_patch_arg
  Grows-patched hole v next before after g a t k e = elim (le_or_lt (length before.insns) hole) [
    | inl out ↦
        (let gone : (h_rvm_patch_arg hole v >> next) before ≡ none =
            rw (le→ltb_false hole (length before.insns) out) refl in
          absurd (cc))
    | inr inside ↦
        k.grows (record before { insns = patched before.insns hole v }) after
          (Grows-patch hole v holes xs before.insns g t)
          (AreAtMost-mono (length xs) known (length before.insns)
            (length (patched before.insns hole v))
            (omega (arith, length-patched before.insns hole v)) a)
          (rw (lt→ltb hole (length before.insns) inside) at e)
  ]

  pub Continues-patch :
      (hole v : ℕ) (next : Build Bool)
      → ((n : ℕ) → AreAtMost (length xs) known n → (v ≤ n) × (n < 2 ^ 16 → 1 ≤ v))
      → Continues holes known xs next
      → Continues (hole ∷ holes) known xs (h_rvm_patch_arg hole v >> next)
  Continues-patch hole v next t k = record {
    grows = λ before after g a e.
        let (below, later) = t (length before.insns) a in
        Grows-patched hole v next before after g a
          (λ insn at s.
            let pos = later s in
            IsTarget-below (length before.insns) insn.op v (omega (arith, pos)) below)
          k e;
  }

  pub Continues-create :
      (func : ActionFunc) (env : ℕ) (next : ℕ → Build Bool)
      → ((action : ℕ) → Continues holes known xs (next action))
      → Continues holes known xs (h_rvm_create_action func env >>= next)
  unfolding h_rvm_create_action action_at
  Continues-create func env next k = record {
    grows = λ before after g a e.
        go before after g a (find_action (record { action = func; env = env }) 0 before.actions) e;
  }
    where
      go :
          (before after : Prog)
          → Grows holes xs before.insns
          → AreAtMost (length xs) known (length before.insns)
          → (o : Option ℕ)
          → and_then (action_at (record { action = func; env = env }) o before) next
            ≡ some (true, after)
          → Grows [] xs after.insns
      go before after g a none e = (k _).grows _ after g a e
      go before after g a (some i) e = (k _).grows before after g a e

  pub Continues-compiled :
      (run : ℕ → Build Bool) (p : ℕ) (next : Build Bool)
      → AreCompiled run
      → Continues holes known xs next
      → Continues holes known xs (if_compiled run p next)
  unfolding if_compiled
  Continues-compiled run p next r k = record {
    grows = λ before after g a e. go before after g a (run p before) refl e;
  }
    where
      go :
          (before after : Prog)
          → Grows holes xs before.insns
          → AreAtMost (length xs) known (length before.insns)
          → (o : Option (Bool × Prog)) → run p before ≡ o
          → and_then o (λ b. if b then next else pure false) ≡ some (true, after)
          → Grows [] xs after.insns
      go before after g a none f e = absurd (cc)
      go before after g a (some (false, middle)) f e = absurd (cc)
      go before after g a (some (true, middle)) f e =
          let more = r p before middle f in
          k.grows middle after (Grows-trans holes xs before.insns middle.insns g more)
            (AreAtMost-mono (length xs) known (length before.insns) (length middle.insns)
              more.longer a)
            e
