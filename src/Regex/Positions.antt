-- ===== src/Regex/Positions.antt =====
-- The loop over the positions of the input, in src/backends/regex.c.
use hammer.Prelude.{
  ℕ, suc, ◌+◌, ◌≤◌, ◌<◌, ◌≡◌, refl, sym, ap, ◌∙◌, subst, Option, none, some, List, [], ◌∷◌, arith,
  drop, length, length-replicate, replicate, ◌==◌, equal_or_not, inl, inr, if_true, if_false,
}
use hammer.BitReader.{◌>>=◌}
use hammer.SparseArray.{Node, SparseArray, h_sarray_new, h_sarray_clear, sarray_foreach_kv}
use hammer.SparseArray.Represents.{Represents, put}
use hammer.SparseArray.Entries.{AreBelow, put-some}
use hammer.SparseArray.Laws.{
  AreBelow-entries, h_sarray_new-Represents, h_sarray_clear-Represents, h_sarray_set-Represents,
}
use hammer.SparseArray.Foreach.{drop-next, shifted, sarray_foreach_kv_lem}
use hammer.Regex.{svm_nop, svm_entry, Prog, Trace, Machine, run_position, run_positions, find_trace}
use hammer.Regex.Threads.{Claims, AllEntries, IsAccepted, IsClosed, HasHeads}
use hammer.Regex.Reaches.{char_of, Reaches, begins, Accepts, claims_at, reaches-IsCarried}
use hammer.Regex.Runs.{run_heads-Settles}

AreBelow-shifted :
    (n : ℕ) (x : ℕ × Trace) (ys : List (ℕ × Trace))
    → AreBelow n (x ∷ ys)
    → AreBelow n (shifted x ys)
AreBelow-shifted n x [] h = tt
AreBelow-shifted n (k, v) (y ∷ ys) h = (h.0, AreBelow-shifted n y ys h.1)

AllEntries-shifted :
    (P : ℕ → Trace → Type 0) (x : ℕ × Trace) (ys : List (ℕ × Trace))
    → AllEntries P (x ∷ ys)
    → AllEntries P (shifted x ys)
AllEntries-shifted P x [] h = tt
AllEntries-shifted P (k, v) (y ∷ ys) h = (h.0, AllEntries-shifted P y ys h.1)

-- The two arrays between positions.
record IsReady (k : Claims) (len : ℕ) (heads_p : SparseArray Trace) (m : Machine) : Type 0 where
  pub accepted : IsAccepted k m.ret_trace
  pub heads : HasHeads k len m.live_threads m.heads_n
  pub sized : length heads_p.nodes ≡ heads_p.capacity
  pub capacity : heads_p.capacity ≡ len

record IsPosition (k : Claims) (len : ℕ) (r : Option (SparseArray Trace × Machine)) : Type 0 where
  pub heads_p : SparseArray Trace
  pub after : Machine
  pub returns : r ≡ some (heads_p, after)
  pub ready : IsReady k len heads_p after

-- The threads that a position starts from.
record Visits (P : ℕ → Trace → Type 0) (len : ℕ) (heads : SparseArray Trace) : Type 0 where
  pub visited : List (ℕ × Trace)
  pub returns : sarray_foreach_kv heads ≡ some visited
  pub below : AreBelow len visited
  pub claimed : AllEntries P visited

heads-visited :
    (P : ℕ → Trace → Type 0) (len : ℕ) (heads : SparseArray Trace) (es : List (ℕ × Trace))
    → Represents heads es
    → heads.capacity ≡ len
    → 0 < length es
    → AllEntries P es
    → Visits P len heads
heads-visited P len heads [] r e h a = absurd (omega arith)
heads-visited P len heads ((k, v) ∷ es) r e h a =
    let below : AreBelow len ((k, v) ∷ es) =
      subst (λ n. AreBelow n ((k, v) ∷ es)) e (AreBelow-entries heads ((k, v) ∷ es) r) in
    record {
      visited = (k, v) ∷ shifted (k, v) es;
      returns = sarray_foreach_kv_lem heads ((k, v) ∷ es) r k v es refl;
      below = (below.0, AreBelow-shifted len (k, v) es below);
      claimed = (a.0, AllEntries-shifted P (k, v) es a);
    }

-- The threads saved at one position are those of the next.
claims_before : Prog → List ℕ → ℕ → Claims
claims_before prog input off = record (claims_at prog input off) {
  next = λ ip trace. Reaches prog input ip off trace;
}

-- The trace of an accept, if there was one.
abbrev pub AcceptsFound : Prog → List ℕ → Option Trace → Type 0
AcceptsFound prog input none = Unit {0}
AcceptsFound prog input (some trace) = Accepts prog input trace

module _ (prog : Prog) (input : List ℕ) (off : ℕ) where
  found-before :
      (o : Option Trace) → IsAccepted (claims_before prog input off) o → AcceptsFound prog input o
  unfolding claims_before
  found-before none a = tt
  found-before (some trace) a = a

  found-at :
      (o : Option Trace) → IsAccepted (claims_at prog input off) o → AcceptsFound prog input o
  found-at none a = tt
  found-at (some trace) a = a

  kept :
      (o : Option Trace)
      → IsAccepted (claims_before prog input off) o
      → IsAccepted (claims_at prog input off) o
  unfolding claims_before
  kept none a = tt
  kept (some trace) a = a

  kept_next :
      (o : Option Trace)
      → IsAccepted (claims_at prog input off) o
      → IsAccepted (claims_before prog input (suc off)) o
  unfolding claims_before
  kept_next none a = tt
  kept_next (some trace) a = a

  IsReady-next :
      (len : ℕ) (heads_p : SparseArray Trace) (m : Machine)
      → IsReady (claims_at prog input off) len heads_p m
      → IsReady (claims_before prog input (suc off)) len heads_p m
  unfolding claims_before
  IsReady-next len heads_p m r = record {
    accepted = kept_next m.ret_trace r.accepted;
    heads = record {
      entries = r.heads.entries;
      represents = r.heads.represents;
      capacity = r.heads.capacity;
      some_live = r.heads.some_live;
      claimed = r.heads.claimed;
    };
    sized = r.sized;
    capacity = r.capacity;
  }

module _ (prog : Prog) (c : IsClosed prog) (input : List ℕ) where
  run_position-IsPosition :
      (off : ℕ) (heads_p : SparseArray Trace) (m : Machine)
      → off ≤ length input
      → IsReady (claims_before prog input off) (length prog.insns) heads_p m
      → 0 < m.live_threads
      → IsPosition
          (claims_at prog input off)
          (length prog.insns)
          (run_position off (length input) (char_of (drop off input)) prog heads_p m)
  unfolding run_position h_sarray_clear claims_before
  run_position-IsPosition off heads_p m inside r live =
      let len = length prog.insns in
      let ch = char_of (drop off input) in
      let visits =
        heads-visited (λ ip trace. Reaches prog input ip off trace) len m.heads_n r.heads.entries
          r.heads.represents r.heads.capacity (r.heads.some_live live) r.heads.claimed in
      let start : Machine = record m {
        heads_n = h_sarray_clear heads_p;
        insn_seen = replicate len 0;
        live_threads = 0;
      } in
      let cleared : HasHeads (claims_at prog input off) len 0 (h_sarray_clear heads_p) = record {
        entries = [];
        represents = h_sarray_clear-Represents heads_p r.sized;
        capacity = r.capacity;
        some_live = λ h. omega arith;
        claimed = tt;
      } in
      let run =
        run_heads-Settles off (length input) ch prog c (claims_at prog input off)
          (reaches-IsCarried prog input off inside) visits.visited start visits.below visits.claimed
          (record {
            marks = length-replicate {A = ℕ} len 0;
            heads = cleared;
            accepted = kept prog input off m.ret_trace r.accepted;
          }) in
      record {
        heads_p = m.heads_n;
        after = run.after;
        returns = rw (visits.returns, run.returns) refl;
        ready = record {
          accepted = run.settled.accepted;
          heads = run.settled.heads;
          sized = r.heads.represents.sized;
          capacity = r.heads.capacity;
        };
      }

  run_positions-returns :
      (rest : List ℕ) (off : ℕ) (heads_p : SparseArray Trace) (m : Machine)
      → drop off input ≡ rest
      → off + length rest ≡ length input
      → IsReady (claims_before prog input off) (length prog.insns) heads_p m
      → (found : Option Trace) × (run_positions prog (length input) off rest heads_p m ≡ some found)
        × AcceptsFound prog input found
  unfolding run_positions
  run_positions-returns [] off heads_p m e l r = elim (equal_or_not m.live_threads 0) [
    | inl z ↦ (
      m.ret_trace,
      if_true _ _ (m.live_threads == 0) (ground arith),
      found-before prog input off m.ret_trace r.accepted,
    )
    | inr live ↦
        (let p = run_position-IsPosition off heads_p m (omega (arith, l)) r (omega arith) in
          (
            p.after.ret_trace,
            if_false _ _ (m.live_threads == 0) (ground arith)
                ∙ ap
                    (λ ch.
                      run_position off (length input) ch prog heads_p m
                      >>= (λ (heads_p, m). some m.ret_trace))
                    (sym (ap char_of e))
                ∙ ap (λ o. o >>= (λ (heads_p, m). some m.ret_trace)) p.returns,
            found-at prog input off p.after.ret_trace p.ready.accepted,
          ))
  ]
  run_positions-returns (ch ∷ rest) off heads_p m e l r = elim (equal_or_not m.live_threads 0) [
    | inl z ↦ (
      m.ret_trace,
      if_true _ _ (m.live_threads == 0) (ground arith),
      found-before prog input off m.ret_trace r.accepted,
    )
    | inr live ↦
        (let p = run_position-IsPosition off heads_p m (omega (arith, l)) r (omega arith) in
          let next : off + 1 ≡ suc off = omega arith in
          let (found, returns, accepts) =
            run_positions-returns rest (off + 1) p.heads_p p.after
              (ap (λ i. drop i input) next ∙ drop-next input off e) (omega (arith, l))
              (subst
                (λ i. IsReady (claims_before prog input i) (length prog.insns) p.heads_p p.after)
                (sym next)
                (IsReady-next prog input off (length prog.insns) p.heads_p p.after p.ready)) in
          (
            found,
            if_false _ _ (m.live_threads == 0) (ground arith)
                ∙ ap
                    (λ ch. run_position off (length input) ch prog heads_p m >>= (λ (heads_p, m).
                      run_positions prog (length input) (off + 1) rest heads_p m))
                    (sym (ap char_of e))
                ∙ ap
                    (λ o. o >>= (λ (heads_p, m).
                      run_positions prog (length input) (off + 1) rest heads_p m))
                    p.returns
                ∙ returns,
            accepts,
          ))
  ]

capacity-new : (block : List (Node Trace)) → (h_sarray_new block).capacity ≡ length block
unfolding h_sarray_new
capacity-new block = refl

-- The thread machine runs every closed program over every input to its end: no access leaves an
-- array, also not the queue of the threads, no assertion fails, and every loop over the threads of a
-- position ends. A trace that it finds is one that some choice at each fork leads to, ending at an
-- accept. The nodes of the two arrays may hold anything.
pub find_trace-Accepts :
    (prog : Prog) (input : List ℕ) (block block' : List (Node Trace))
    → IsClosed prog
    → length block ≡ length prog.insns
    → length block' ≡ length prog.insns
    → (found : Option Trace) × (find_trace block block' prog input ≡ some found)
      × AcceptsFound prog input found
unfolding find_trace claims_before
find_trace-Accepts prog input block block' c e e' =
    let entry : Trace = svm_entry svm_nop 0 0 ∷ [] in
    let (heads_n, returns, represents, capacity) =
      h_sarray_set-Represents (h_sarray_new block) [] 0 entry (h_sarray_new-Represents block)
        (omega (arith, c.start, e, capacity-new block)) in
    let start : Machine = record {
      ip_queue = [];
      insn_seen = [];
      heads_n = heads_n;
      ret_trace = none;
      live_threads = 1;
    } in
    let (found, runs, accepts) =
      run_positions-returns prog c input input 0 (h_sarray_new block') start refl (omega arith)
        (record {
          accepted = tt;
          heads = record {
            entries = put 0 entry [];
            represents = represents;
            capacity = capacity ∙ capacity-new block ∙ e;
            some_live = λ h. put-some 0 entry [];
            claimed = (begins, tt);
          };
          sized = (h_sarray_new-Represents block').sized;
          capacity = capacity-new block' ∙ e';
        }) in
    (found, rw returns runs, accepts)
