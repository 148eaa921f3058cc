-- ===== src/Regex/Threads.antt =====
-- The loop over the threads of one position, in src/backends/regex.c: its accesses stay inside the
-- arrays, and it ends.
use hammer.Prelude.{
  ℕ, suc, ◌+◌, ◌*◌, ◌/◌, ◌%◌, ◌^◌, ◌≤◌, ◌<◌, ◌≡◌, ◌≢◌, sym, ap, ◌∙◌, Option, none, some, List, [],
  ◌∷◌, arith, length, length-set, get_elem?, get_elem?-lt, get_elem?-set_ne, set, equal_or_not, ◌⊎◌,
  inl, inr,
}
use hammer.SparseArray.{SparseArray}
use hammer.SparseArray.Represents.{Represents}
use hammer.Regex.{
  Op, rvm_accept, rvm_goto, rvm_fork, rvm_push, rvm_action, rvm_capture, rvm_eof, rvm_match,
  rvm_step, Insn, Prog, Trace, Thread, Machine, svm_accept, svm_push, svm_action, svm_capture,
  svm_entry,
}
use hammer.Regex.Marks.{total, unseen, cost, total-set, total-get_elem?, cost-unseen}

-- Where the thread that runs an instruction may go next is inside the program.
abbrev pub IsInside : ℕ → ℕ → Op → ℕ → Type 0
IsInside len ip rvm_accept arg = Unit {0}
IsInside len ip rvm_goto arg = arg < len
IsInside len ip rvm_fork arg = (arg < len) × (suc ip < len)
IsInside len ip rvm_push arg = suc ip < len
IsInside len ip rvm_action arg = suc ip < len
IsInside len ip rvm_capture arg = suc ip < len
IsInside len ip rvm_eof arg = suc ip < len
IsInside len ip rvm_match arg = suc ip < len
IsInside len ip rvm_step arg = suc ip < len

-- A program that no thread leaves, of at most 65535 instructions.
pub record IsClosed (prog : Prog) : Type 0 where
  pub start : 0 < length prog.insns
  pub small : length prog.insns < 2 ^ 16
  pub inside :
      (ip : ℕ) (insn : Insn)
      → get_elem? prog.insns ip ≡ some insn
      → IsInside (length prog.insns) ip insn.op insn.arg

-- What is claimed of the threads at a position, of those saved for the next one, and of the traces
-- of accepts.
pub record Claims : Type 1 where
  pub here : ℕ → Trace → Type 0
  pub next : ℕ → Trace → Type 0
  pub accepted : Trace → Type 0

abbrev pub AllInside : Claims → ℕ → List Thread → Type 0
AllInside k len [] = Unit {0}
AllInside k len (t ∷ ts) = ((t.ip < len) × k.here t.ip t.trace) × AllInside k len ts

abbrev pub AllEntries : (ℕ → Trace → Type 0) → List (ℕ × Trace) → Type 0
AllEntries P [] = Unit {0}
AllEntries P ((ip, trace) ∷ es) = P ip trace × AllEntries P es

abbrev pub IsAccepted : Claims → Option Trace → Type 0
IsAccepted k none = Unit {0}
IsAccepted k (some trace) = k.accepted trace

-- What an instruction makes of the claims, at the position `off` of `n` with the character `ch`.
abbrev pub Carries : Claims → ℕ → ℕ → ℕ → ℕ → Trace → Op → ℕ → Type 0
Carries k off n ch ip trace rvm_accept arg = k.accepted (svm_entry svm_accept 0 off ∷ trace)
Carries k off n ch ip trace rvm_goto arg = k.here arg trace
Carries k off n ch ip trace rvm_fork arg = k.here arg trace × k.here (suc ip) trace
Carries k off n ch ip trace rvm_push arg = k.here (suc ip) (svm_entry svm_push 0 off ∷ trace)
Carries k off n ch ip trace rvm_action arg = k.here (suc ip) (svm_entry svm_action arg off ∷ trace)
Carries k off n ch ip trace rvm_capture arg = k.here (suc ip) (svm_entry svm_capture 0 off ∷ trace)
Carries k off n ch ip trace rvm_eof arg = off ≡ n → k.here (suc ip) trace
Carries k off n ch ip trace rvm_match arg =
    arg % 256 ≤ ch → ch ≤ arg / 256 % 256 → k.here (suc ip) trace
Carries k off n ch ip trace rvm_step arg = k.next (suc ip) trace

abbrev pub unseen_of : Option ℕ → ℕ
unseen_of none = 0
unseen_of (some v) = unseen v

-- Whether the thread on top is at an instruction that has not been seen.
abbrev pub top_unseen : List ℕ → List Thread → ℕ
top_unseen seen [] = 0
top_unseen seen (t ∷ ts) = unseen_of (get_elem? seen t.ip)

-- The sparse array of the next position, which is not empty if there are live threads.
pub record HasHeads (k : Claims) (len live : ℕ) (heads : SparseArray Trace) : Type 0 where
  pub entries : List (ℕ × Trace)
  pub represents : Represents heads entries
  pub capacity : heads.capacity ≡ len
  pub some_live : 0 < live → 0 < length entries
  pub claimed : AllEntries k.next entries

-- A machine whose loop ends within `fuel` rounds, and whose queue has places enough.
pub record IsRunning (k : Claims) (len fuel : ℕ) (m : Machine) : Type 0 where
  pub marks : length m.insn_seen ≡ len
  pub queue : AllInside k len m.ip_queue
  pub heads : HasHeads k len m.live_threads m.heads_n
  pub accepted : IsAccepted k m.ret_trace
  pub ends :
      total cost m.insn_seen + length m.ip_queue ≤ fuel + 2 * top_unseen m.insn_seen m.ip_queue
  pub places :
      length m.ip_queue + total unseen m.insn_seen ≤ len + top_unseen m.insn_seen m.ip_queue

-- A round that succeeds.
pub record IsRound (k : Claims) (len fuel : ℕ) (r : Option Machine) : Type 0 where
  pub after : Machine
  pub returns : r ≡ some after
  pub running : IsRunning k len fuel after

-- A thread at an instruction that has been processed is dropped.
pub killed :
    (k : Claims) (len fuel : ℕ) (m : Machine) (t : Thread) (rest : List Thread) (s : ℕ)
    → get_elem? m.insn_seen t.ip ≡ some s
    → s ≡ 1
    → IsRunning k len (suc fuel) (record m { ip_queue = t ∷ rest })
    → IsRunning k len fuel (record m { ip_queue = rest })
killed k len fuel m t rest s got e r =
    let top : top_unseen m.insn_seen (t ∷ rest) ≡ 0 = ap unseen_of got ∙ ap unseen e in
    record {
      marks = r.marks;
      queue = r.queue.1;
      heads = r.heads;
      accepted = r.accepted;
      ends = omega (arith, r.ends, top);
      places = omega (arith, r.places, top);
    }

-- After the mark of the instruction of the thread `t`, with the value `s` before it.
module _ (k : Claims) (len fuel : ℕ) (m : Machine) (t : Thread) (rest : List Thread) (s : ℕ)
    (got : get_elem? m.insn_seen t.ip ≡ some s) (fresh : s ≢ 1)
    (r : IsRunning k len (suc fuel) (record m { ip_queue = t ∷ rest })) where
  abbrev pub marked : List ℕ
  marked = set m.insn_seen t.ip 1

  abbrev pub marked_machine : Machine
  marked_machine = record m { insn_seen = marked }

  cost-marked : total cost marked + 1 + 2 * unseen s ≡ total cost m.insn_seen
  cost-marked = omega (arith, total-set cost m.insn_seen t.ip 1 got, cost-unseen s fresh)

  unseen-marked : total unseen marked + unseen s ≡ total unseen m.insn_seen
  unseen-marked = omega (arith, total-set unseen m.insn_seen t.ip 1 got)

  top-unseen : top_unseen m.insn_seen (t ∷ rest) ≡ unseen s
  top-unseen = ap unseen_of got

  -- The thread ends.
  pub ended :
      (m' : Machine)
      → m'.insn_seen ≡ marked
      → m'.ip_queue ≡ rest
      → HasHeads k len m'.live_threads m'.heads_n
      → IsAccepted k m'.ret_trace
      → IsRunning k len fuel m'
  ended m' e q heads a = record {
    marks = rw e (length-set m.insn_seen t.ip 1 ∙ r.marks);
    queue = rw q (r.queue.1);
    heads = heads;
    accepted = a;
    ends = rw (e, q) (omega (arith, cost-marked, r.ends, top-unseen));
    places = rw (e, q) (omega (arith, unseen-marked, r.places, top-unseen));
  }

  -- The thread goes on elsewhere.
  pub moved :
      (m' : Machine) (t' : Thread)
      → m'.insn_seen ≡ marked
      → m'.ip_queue ≡ t' ∷ rest
      → t'.ip < len
      → k.here t'.ip t'.trace
      → HasHeads k len m'.live_threads m'.heads_n
      → IsAccepted k m'.ret_trace
      → IsRunning k len fuel m'
  moved m' t' e q h claim heads a = record {
    marks = rw e (length-set m.insn_seen t.ip 1 ∙ r.marks);
    queue = rw q ((h, claim), r.queue.1);
    heads = heads;
    accepted = a;
    ends = rw (e, q) (omega (arith, cost-marked, r.ends, top-unseen));
    places = rw (e, q) (omega (arith, unseen-marked, r.places, top-unseen));
  }

  -- A fork to an instruction that has not been seen. One thread is on top of the other.
  module _ (arg v : ℕ) (unseen_arg : get_elem? marked arg ≡ some 0)
      (next : get_elem? marked (suc t.ip) ≡ some v) (inside : suc t.ip < len) where
    abbrev pub queued : List ℕ
    queued = set marked (suc t.ip) 2

    cost-queued : total cost queued + cost v ≡ total cost marked + 1
    cost-queued = total-set cost marked (suc t.ip) 2 next

    unseen-queued : total unseen queued + unseen v ≡ total unseen marked
    unseen-queued = omega (arith, total-set unseen marked (suc t.ip) 2 next)

    -- Either the target is what follows the fork, or it is still unseen.
    target-cases : (v ≡ 0) ⊎ (unseen_of (get_elem? queued arg) ≡ 1)
    target-cases = elim (equal_or_not (suc t.ip) arg) [
      | inl e ↦
          (let both : some v ≡ some 0 = sym next ∙ ap (get_elem? marked) e ∙ unseen_arg in inl (cc))
      | inr d ↦ inr (ap unseen_of (get_elem?-set_ne marked (suc t.ip) arg 2 d ∙ unseen_arg))
    ]

    pub enough_places : suc (length rest) < len
    enough_places =
        omega
          (arith, total-get_elem? unseen marked arg unseen_arg, unseen-marked, r.places, top-unseen)

    pub pushed :
        (m' : Machine) (t' t'' : Thread)
        → m'.insn_seen ≡ queued
        → m'.ip_queue ≡ t' ∷ t'' ∷ rest
        → t'.ip ≡ arg
        → t''.ip ≡ suc t.ip
        → k.here t'.ip t'.trace
        → k.here t''.ip t''.trace
        → HasHeads k len m'.live_threads m'.heads_n
        → IsAccepted k m'.ret_trace
        → IsRunning k len fuel m'
    pushed m' t' t'' e q i i' claim claim' heads a =
        let on_top : top_unseen queued (t' ∷ t'' ∷ rest) ≡ unseen_of (get_elem? queued arg) =
          ap (λ l. unseen_of (get_elem? queued l)) i in
        let size : length marked ≡ len = length-set m.insn_seen t.ip 1 ∙ r.marks in
        record {
          marks = rw e (length-set marked (suc t.ip) 2 ∙ size);
          queue = rw q (
            (omega (arith, i, get_elem?-lt marked arg unseen_arg, size), claim),
            ((omega (arith, i', inside), claim'), r.queue.1),
          );
          heads = heads;
          accepted = a;
          ends =
              rw (e, q)
                (elim target-cases [
                  | inl z ↦
                      (let c : cost v ≡ 3 = ap cost z in
                        omega (arith, cost-marked, cost-queued, c, r.ends, top-unseen))
                  | inr u ↦ omega (arith, cost-marked, cost-queued, on_top, u, r.ends, top-unseen)
                ]);
          places =
              rw (e, q)
                (elim target-cases [
                  | inl z ↦
                      (let c : unseen v ≡ 1 = ap unseen z in
                        omega (arith, unseen-marked, unseen-queued, c, r.places, top-unseen))
                  | inr u ↦
                      omega (arith, unseen-marked, unseen-queued, on_top, u, r.places, top-unseen)
                ]);
        }
