-- ===== src/Regex/Runs.antt =====
-- Whole runs of the thread machine of src/backends/regex.c: they end, and no access leaves an array.
use hammer.Prelude.{
  ℕ, zero, suc, ◌<◌, ◌≡◌, refl, sym, ap, ◌∙◌, subst, Option, some, List, [], ◌∷◌, arith, length,
  get_elem?_total, ◌⊎◌, inl, inr,
}
use hammer.BitReader.{◌>>=◌}
use hammer.SparseArray.Entries.{AreBelow}
use hammer.Regex.{Prog, Trace, Thread, Machine, u16, thread_round, run_queue, queue_fuel, run_heads}
use hammer.Regex.Marks.{
  unseen, cost, total-bound, total-others, cost-small, cost-more, unseen-small, total-get_elem?,
}
use hammer.Regex.Threads.{
  Claims, AllEntries, IsAccepted, IsClosed, HasHeads, IsRunning, top_unseen, unseen_of,
}
use hammer.Regex.Rounds.{IsCarried, thread_round-IsRound}

-- A machine between two threads of a position.
pub record IsSettled (k : Claims) (len : ℕ) (m : Machine) : Type 0 where
  pub marks : length m.insn_seen ≡ len
  pub heads : HasHeads k len m.live_threads m.heads_n
  pub accepted : IsAccepted k m.ret_trace

pub record Settles (k : Claims) (len : ℕ) (r : Option Machine) : Type 0 where
  pub after : Machine
  pub returns : r ≡ some after
  pub settled : IsSettled k len after

queue-cases : (q : List Thread) → (q ≡ []) ⊎ ((t : Thread) × (rest : List Thread) × (q ≡ t ∷ rest))
queue-cases [] = inl refl
queue-cases (t ∷ rest) = inr (t, rest, refl)

queue-is :
    {k : Claims} {len fuel : ℕ} (m : Machine) (q : List Thread)
    → m.ip_queue ≡ q
    → IsRunning k len fuel m
    → IsRunning k len fuel (record m { ip_queue = q })
queue-is {k} {len} {fuel} m q e r =
    subst (λ q. IsRunning k len fuel (record m { ip_queue = q })) e r

-- A queue with a thread in it has rounds left.
not_over :
    {k : Claims} {len : ℕ} (m : Machine) (t : Thread) (rest : List Thread)
    → IsRunning k len 0 (record m { ip_queue = t ∷ rest })
    → 0 < 0
not_over m t rest r =
    let (s, got) = get_elem?_total m.insn_seen t.ip (omega (arith, r.marks, r.queue.0.0)) in
    let top : top_unseen m.insn_seen (t ∷ rest) ≡ unseen s = ap unseen_of got in
    omega (arith, r.ends, top, total-get_elem? cost m.insn_seen t.ip got, cost-more s)

module _ (off n ch : ℕ) (prog : Prog) where
  run_queue-empty :
      (fuel : ℕ) (m : Machine) → m.ip_queue ≡ [] → run_queue off n ch prog fuel m ≡ some m
  unfolding run_queue
  run_queue-empty zero m e = rw e refl
  run_queue-empty (suc fuel) m e = rw e refl

  run_queue-thread :
      (fuel : ℕ) (m : Machine) (t : Thread) (rest : List Thread)
      → m.ip_queue ≡ t ∷ rest
      → run_queue off n ch prog (suc fuel) m ≡ (
          thread_round off n ch prog t rest (record m { ip_queue = t ∷ rest })
          >>= run_queue off n ch prog fuel)
  unfolding run_queue
  run_queue-thread fuel m t rest e = rw e refl

  module _ (c : IsClosed prog) (k : Claims) (carried : IsCarried k off n ch prog) where
    settled-empty :
        (fuel : ℕ) (m : Machine)
        → m.ip_queue ≡ []
        → IsRunning k (length prog.insns) fuel m
        → Settles k (length prog.insns) (run_queue off n ch prog fuel m)
    settled-empty fuel m e r = record {
      after = m;
      returns = run_queue-empty fuel m e;
      settled = record { marks = r.marks; heads = r.heads; accepted = r.accepted };
    }

    -- The loop over the threads ends.
    run_queue-Settles :
        (fuel : ℕ) (m : Machine)
        → IsRunning k (length prog.insns) fuel m
        → Settles k (length prog.insns) (run_queue off n ch prog fuel m)
    run_queue-Settles zero m r = elim (queue-cases m.ip_queue) [
      | inl e ↦ settled-empty zero m e r
      | inr (t, rest, e) ↦ absurd (omega (arith, not_over m t rest (queue-is m (t ∷ rest) e r)))
    ]
    run_queue-Settles (suc fuel) m r = elim (queue-cases m.ip_queue) [
      | inl e ↦ settled-empty (suc fuel) m e r
      | inr (t, rest, e) ↦
          (let round =
              thread_round-IsRound k off n ch fuel prog t rest (record m { ip_queue = t ∷ rest }) c
                carried (queue-is m (t ∷ rest) e r) in
            let done = run_queue-Settles fuel round.after round.running in
            record {
              after = done.after;
              returns =
                  run_queue-thread fuel m t rest e
                  ∙ ap (λ o. o >>= run_queue off n ch prog fuel) round.returns
                  ∙ done.returns;
              settled = done.settled;
            })
    ]

    -- A thread that starts has rounds and places enough.
    started :
        (m : Machine) (t : Thread)
        → IsSettled k (length prog.insns) m
        → t.ip < length prog.insns
        → k.here t.ip t.trace
        → IsRunning k
            (length prog.insns)
            (queue_fuel off n ch prog)
            (record m { ip_queue = t ∷ [] })
    unfolding queue_fuel
    started m t s h claim =
        let (v, got) = get_elem?_total m.insn_seen t.ip (omega (arith, s.marks)) in
        let top : top_unseen m.insn_seen (t ∷ []) ≡ unseen v = ap unseen_of got in
        record {
          marks = s.marks;
          queue = ((h, claim), tt);
          heads = s.heads;
          accepted = s.accepted;
          ends = omega (arith, total-bound cost m.insn_seen 3 cost-small, s.marks);
          places =
              omega (arith, total-others unseen m.insn_seen t.ip 1 unseen-small got, top, s.marks);
        }

    pub run_heads-Settles :
        (heads : List (ℕ × Trace)) (m : Machine)
        → AreBelow (length prog.insns) heads
        → AllEntries k.here heads
        → IsSettled k (length prog.insns) m
        → Settles k (length prog.insns) (run_heads off n ch prog heads m)
    unfolding run_heads
    run_heads-Settles [] m h a s = record { after = m; returns = refl; settled = s }
    run_heads-Settles ((ip, trace) ∷ heads) m h a s =
        let fits : u16 ip ≡ ip = omega (arith, h.0, c.small) in
        let start : Thread = record { trace = trace; ip = u16 ip } in
        let run =
          run_queue-Settles (queue_fuel off n ch prog) (record m { ip_queue = start ∷ [] })
            (started m start s (omega (arith, fits, h.0))
              (subst (λ i. k.here i trace) (sym fits) (a.0))) in
        let done = run_heads-Settles heads run.after h.1 a.1 run.settled in
        record {
          after = done.after;
          returns = ap (λ o. o >>= run_heads off n ch prog heads) run.returns ∙ done.returns;
          settled = done.settled;
        }
