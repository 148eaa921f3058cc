-- ===== src/Regex/Rounds.antt =====
-- The rounds of the loop over the threads, in src/backends/regex.c, one instruction after another.
use hammer.Prelude.{
  ℕ, suc, ◌+◌, ◌/◌, ◌%◌, ◌^◌, ◌≤◌, ◌<◌, ◌≡◌, ◌≢◌, refl, sym, ap, ◌∙◌, subst, Bool, true, false,
  ◌||◌, some, List, [], ◌∷◌, arith, length, length-set, get_elem?, get_elem?_total, set, ◌==◌, ltb,
  lt→ltb, ==_iff, equal_or_not, inl, inr, if◌then◌else◌, if_true, if_false, Bool-cases,
}
use hammer.SparseArray.Represents.{put}
use hammer.SparseArray.Entries.{put-some}
use hammer.SparseArray.Laws.{h_sarray_set-Represents}
use hammer.Regex.{
  Op, rvm_accept, rvm_goto, rvm_fork, rvm_push, rvm_action, rvm_capture, rvm_eof, rvm_match,
  rvm_step, svm_push, svm_action, svm_capture, StackOp, svm_entry, Insn, Prog, Trace, Thread,
  Machine, u16, next_ip, push_svm, mark, fork, save_thread, exec, thread_round,
}
use hammer.Regex.Threads.{
  IsInside, IsClosed, AllEntries, IsAccepted, Claims, Carries, HasHeads, IsRunning, IsRound, marked,
  killed, ended, moved, pushed, enough_places,
}

mark-inside :
    (ip v : ℕ) (m : Machine)
    → ip < length m.insn_seen
    → mark ip v m ≡ some (record m { insn_seen = set m.insn_seen ip v })
unfolding mark
mark-inside ip v m h = if_true _ _ _ (lt→ltb ip (length m.insn_seen) h)

not_less : (a b : ℕ) (y : Bool) → (ltb a b || y) ≡ false → b ≤ a
not_less a b y e = ground (arith, e)

not_more : (a b : ℕ) (x : Bool) → (x || ltb b a) ≡ false → a ≤ b
not_more a b x e = ground (arith, e)

AllEntries-put :
    (P : ℕ → Trace → Type 0) (n : ℕ) (w : Trace) (es : List (ℕ × Trace))
    → P n w
    → AllEntries P es
    → AllEntries P (put n w es)
AllEntries-put P n w [] h a = (h, tt)
AllEntries-put P n w ((i, v) ∷ es) h a = elim (equal_or_not i n) [
  | inl e ↦
      (let same : (i == n) ≡ true = ground arith in rw same (subst (λ j. P j w) (sym e) h, a.1))
  | inr d ↦
      (let differ : (i == n) ≡ false = ground arith in
        rw differ (a.0, AllEntries-put P n w es h a.1))
]

fork-unseen :
    (places arg : ℕ) (t : Thread) (rest : List Thread) (m : Machine)
    → get_elem? m.insn_seen arg ≡ some 0
    → u16 (t.ip + 1) < length m.insn_seen
    → suc (length rest) < places
    → fork places arg t rest m
      ≡ some (record m {
        insn_seen = set m.insn_seen (u16 (t.ip + 1)) 2;
        ip_queue = record t { ip = arg } ∷ next_ip t ∷ rest;
      })
unfolding fork
fork-unseen places arg t rest m got inside room =
    rw (got, mark-inside (u16 (t.ip + 1)) 2 m inside)
      (if_true _ _ _ (lt→ltb (suc (length rest)) places room))

fork-seen :
    (places arg a : ℕ) (t : Thread) (rest : List Thread) (m : Machine)
    → get_elem? m.insn_seen arg ≡ some a
    → a ≢ 0
    → fork places arg t rest m ≡ some (record m { ip_queue = next_ip t ∷ rest })
unfolding fork
fork-seen places arg a t rest m got seen = rw got (if_false _ _ (a == 0) (ground arith))

module _ (k : Claims) (len fuel : ℕ) (m : Machine) (t : Thread) (rest : List Thread) (s : ℕ)
    (got : get_elem? m.insn_seen t.ip ≡ some s) (fresh : s ≢ 1) (small : len < 2 ^ 16)
    (r : IsRunning k len (suc fuel) (record m { ip_queue = t ∷ rest })) where
  step_on : suc t.ip < len → (next_ip t).ip ≡ suc t.ip
  step_on h = omega arith

  step_claim :
      (trace : Trace) → suc t.ip < len → k.here (suc t.ip) trace → k.here ((next_ip t).ip) trace
  step_claim trace h claim = subst (λ ip. k.here ip trace) (sym (step_on h)) claim

  size-marked : length (marked k len fuel m t rest s got fresh r) ≡ len
  size-marked = length-set m.insn_seen t.ip 1 ∙ r.marks

  fork-IsRound :
      (arg : ℕ)
      → arg < len
      → suc t.ip < len
      → k.here arg t.trace
      → k.here (suc t.ip) t.trace
      → IsRound k len fuel (fork len arg t rest (record m { insn_seen = set m.insn_seen t.ip 1 }))
  fork-IsRound arg h h' claim claim' =
      let seen = set m.insn_seen t.ip 1 in
      let m1 = record m { insn_seen = seen } in
      let on = step_on h' in
      let (a, got_a) = get_elem?_total seen arg (omega (arith, size-marked)) in
      let (v, next) = get_elem?_total seen (suc t.ip) (omega (arith, size-marked)) in
      elim (equal_or_not a 0) [
        | inl z ↦
            (let unseen_arg : get_elem? seen arg ≡ some 0 = got_a ∙ ap some z in
              record {
                after = record m {
                  insn_seen = set seen (u16 (t.ip + 1)) 2;
                  ip_queue = record t { ip = arg } ∷ next_ip t ∷ rest;
                };
                returns =
                    fork-unseen len arg t rest m1 unseen_arg (omega (arith, on, h', size-marked))
                      (enough_places k len fuel m t rest s got fresh r arg v unseen_arg next h');
                running =
                    pushed k len fuel m t rest s got fresh r arg v unseen_arg next h' _ _ _
                      (ap (λ i. set seen i 2) on) refl refl on claim (step_claim t.trace h' claim')
                      r.heads r.accepted;
              })
        | inr nz ↦ record {
          after = record m1 { ip_queue = next_ip t ∷ rest };
          returns = fork-seen len arg a t rest m1 got_a nz;
          running =
              moved k len fuel m t rest s got fresh r _ (next_ip t) refl refl
                (omega (arith, on, h')) (step_claim t.trace h' claim') r.heads r.accepted;
        }
      ]

  -- A round that ends the thread, and one that moves it.
  ends_here :
      (m' : Machine)
      → m'.insn_seen ≡ set m.insn_seen t.ip 1
      → m'.ip_queue ≡ rest
      → HasHeads k len m'.live_threads m'.heads_n
      → IsAccepted k m'.ret_trace
      → IsRound k len fuel (some m')
  ends_here m' e q heads a = record {
    after = m';
    returns = refl;
    running = ended k len fuel m t rest s got fresh r m' e q heads a;
  }

  goes_on :
      (m' : Machine) (t' : Thread)
      → m'.insn_seen ≡ set m.insn_seen t.ip 1
      → m'.ip_queue ≡ t' ∷ rest
      → t'.ip < len
      → k.here t'.ip t'.trace
      → HasHeads k len m'.live_threads m'.heads_n
      → IsAccepted k m'.ret_trace
      → IsRound k len fuel (some m')
  goes_on m' t' e q h claim heads a = record {
    after = m';
    returns = refl;
    running = moved k len fuel m t rest s got fresh r m' t' e q h claim heads a;
  }

  -- A test that lets the thread go on, or ends it.
  tested :
      (stop : Bool)
      → suc t.ip < len
      → (stop ≡ false → k.here (suc t.ip) t.trace)
      → IsRound k len fuel (
          some (record m {
            insn_seen = set m.insn_seen t.ip 1;
            ip_queue = if stop then rest else next_ip t ∷ rest;
          }))
  tested true h claim = ends_here _ refl refl r.heads r.accepted
  tested false h claim =
      goes_on _ (next_ip t) refl refl (omega (arith, step_on h, h))
        (step_claim t.trace h (claim refl)) r.heads r.accepted

  -- An instruction that adds an entry to the trace.
  traced :
      (op : StackOp) (arg off : ℕ)
      → suc t.ip < len
      → k.here (suc t.ip) (svm_entry op arg off ∷ t.trace)
      → IsRound k len fuel (
          some (record m {
            insn_seen = set m.insn_seen t.ip 1;
            ip_queue = next_ip (push_svm op arg off t) ∷ rest;
          }))
  traced op arg off h claim =
      goes_on _ (next_ip (push_svm op arg off t)) refl refl (omega (arith, step_on h, h))
        (step_claim (svm_entry op arg off ∷ t.trace) h claim) r.heads r.accepted

  save_thread-IsRound :
      suc t.ip < len
      → k.next (suc t.ip) t.trace
      → IsRound k len fuel (save_thread t rest (record m { insn_seen = set m.insn_seen t.ip 1 }))
  unfolding save_thread
  save_thread-IsRound h claim =
      let at = (next_ip t).ip in
      let (heads, returns, represents, same) =
        h_sarray_set-Represents m.heads_n r.heads.entries at t.trace r.heads.represents
          (omega (arith, step_on h, h, r.heads.capacity)) in
      rw returns (
        ends_here _ refl refl
          (record {
            entries = put at t.trace r.heads.entries;
            represents = represents;
            capacity = same ∙ r.heads.capacity;
            some_live = λ l. put-some at t.trace r.heads.entries;
            claimed =
                AllEntries-put k.next at t.trace r.heads.entries
                  (subst (λ ip. k.next ip t.trace) (sym (step_on h)) claim) r.heads.claimed;
          })
          r.accepted)

  module _ (off n ch : ℕ) where
    exec-IsRound :
        (op : Op) (arg : ℕ)
        → IsInside len t.ip op arg
        → Carries k off n ch t.ip t.trace op arg
        → IsRound k len fuel
            (exec off n ch len op arg t rest (record m { insn_seen = set m.insn_seen t.ip 1 }))
    unfolding exec
    exec-IsRound rvm_accept arg h claim = ends_here _ refl refl r.heads claim
    exec-IsRound rvm_match arg h claim =
        tested (ltb ch (arg % 256) || ltb (arg / 256 % 256) ch) h (λ e.
          claim (not_less ch (arg % 256) (ltb (arg / 256 % 256) ch) e)
            (not_more ch (arg / 256 % 256) (ltb ch (arg % 256)) e))
    exec-IsRound rvm_goto arg h claim =
        goes_on _ (record t { ip = arg }) refl refl h claim r.heads r.accepted
    exec-IsRound rvm_fork arg h claim = fork-IsRound arg h.0 h.1 claim.0 claim.1
    exec-IsRound rvm_push arg h claim = traced svm_push 0 off h claim
    exec-IsRound rvm_action arg h claim = traced svm_action arg off h claim
    exec-IsRound rvm_capture arg h claim = traced svm_capture 0 off h claim
    exec-IsRound rvm_eof arg h claim = elim (Bool-cases (off == n)) [
      | inl e ↦ rw e (tested false h (λ f. claim ((==_iff off n).0 e)))
      | inr e ↦ rw e (tested true h (λ f. absurd (cc)))
    ]
    exec-IsRound rvm_step arg h claim = save_thread-IsRound h claim

-- Every instruction of a program carries the claims on.
abbrev pub IsCarried : Claims → ℕ → ℕ → ℕ → Prog → Type 0
IsCarried k off n ch prog =
    (ip : ℕ) (trace : Trace) (insn : Insn)
    → get_elem? prog.insns ip ≡ some insn
    → k.here ip trace
    → Carries k off n ch ip trace insn.op insn.arg

round-runs :
    (off n ch : ℕ) (prog : Prog) (t : Thread) (rest : List Thread) (m : Machine) (s : ℕ)
    (insn : Insn)
    → get_elem? m.insn_seen t.ip ≡ some s
    → s ≢ 1
    → get_elem? prog.insns t.ip ≡ some insn
    → t.ip < length m.insn_seen
    → thread_round off n ch prog t rest m
      ≡ exec off n ch
          (length prog.insns)
          insn.op
          insn.arg
          t
          rest
          (record m { insn_seen = set m.insn_seen t.ip 1 })
unfolding thread_round
round-runs off n ch prog t rest m s insn got fresh at inside =
    let differ : (s == 1) ≡ false = ground arith in
    rw (got, differ, mark-inside t.ip 1 m inside, at) refl

-- A round of the loop neither fails nor spoils anything.
pub thread_round-IsRound :
    (k : Claims) (off n ch fuel : ℕ) (prog : Prog) (t : Thread) (rest : List Thread) (m : Machine)
    → IsClosed prog
    → IsCarried k off n ch prog
    → IsRunning k (length prog.insns) (suc fuel) (record m { ip_queue = t ∷ rest })
    → IsRound k (length prog.insns) fuel (thread_round off n ch prog t rest m)
unfolding thread_round
thread_round-IsRound k off n ch fuel prog t rest m c f r =
    let len = length prog.insns in
    let (s, got) = get_elem?_total m.insn_seen t.ip (omega (arith, r.marks, r.queue.0.0)) in
    let (insn, at) = get_elem?_total prog.insns t.ip (r.queue.0.0) in
    elim (equal_or_not s 1) [
      | inl e ↦ record {
        after = record m { ip_queue = rest };
        returns = rw got (if_true _ _ (s == 1) (ground arith));
        running = killed k len fuel m t rest s got e r;
      }
      | inr fresh ↦
          (let go =
              exec-IsRound k len fuel m t rest s got fresh c.small r off n ch insn.op insn.arg
                (c.inside t.ip insn at) (f t.ip t.trace insn at (r.queue.0.1)) in
            record {
              after = go.after;
              returns =
                  round-runs off n ch prog t rest m s insn got fresh at
                    (omega (arith, r.marks, r.queue.0.0))
                  ∙ go.returns;
              running = go.running;
            })
    ]
