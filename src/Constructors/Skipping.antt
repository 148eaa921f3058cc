-- ===== src/Constructors/Skipping.antt =====
-- h_left, h_right and h_middle: the parsers that the constructors of ignoreseq.c make.
use hammer.Prelude.{ℕ, ◌≡◌, Option, some}
use hammer.State.{ParseState, M, done}
use hammer.Packrat.Dispatch.{parse_vtable}
use hammer.Parsers.Sequence.Laws.{all_run, runs, parse_ignoreseq-Runs}
use hammer.Constructors.{h_left, h_right, h_middle}

-- The names keep their promise: where `p`, `x` and `q` succeed one after the other, h_left of `p` and
-- `x` gives the result of `p`, h_right of these that of `x`, and h_middle of all three that of `x`,
-- each with the stream after the last parser.
pub h_middle-h_left-h_right :
    (run : ℕ → M (Option ℕ)) (fuel p x q : ℕ) {r1 r2 r3 : ℕ} {s s1 s2 s3 : ParseState}
    → run p s ≡ done (some r1) s1
    → run x s1 ≡ done (some r2) s2
    → run q s2 ≡ done (some r3) s3
    → (parse_vtable run fuel (h_left p x) s ≡ done (some r1) s2)
      × (parse_vtable run fuel (h_right p x) s ≡ done (some r2) s2)
      × (parse_vtable run fuel (h_middle p x q) s ≡ done (some r2) s3)
unfolding parse_vtable h_left h_right h_middle
h_middle-h_left-h_right run fuel p x q e1 e2 e3 = (
  parse_ignoreseq-Runs 0 (runs e1 (runs e2 all_run)),
  parse_ignoreseq-Runs 1 (runs e1 (runs e2 all_run)),
  parse_ignoreseq-Runs 1 (runs e1 (runs e2 (runs e3 all_run))),
)
