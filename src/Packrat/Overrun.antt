-- ===== src/Packrat/Overrun.antt =====
-- perform_lowlevel_parse turns every overrun into a failure.
use hammer.Prelude.{ℕ, ◌≡◌, refl, Bool, true, false, Option, none, some, get_elem?, if◌then◌else◌}
use hammer.BitReader.{InputStream}
use hammer.Syntax.{Parser, ParseResult, Heap}
use hammer.State.{
  ParseState, Outcome, M, continue_with, load_outcome, ◌>>=◌, ◌>>◌, pure, get_stream, load_result,
  store_result, done, fault, halted, out_of_fuel,
}
use hammer.Packrat.Dispatch.{parse_vtable}
use hammer.Packrat.{measured, after_parse, perform_lowlevel_parse}

-- An outcome that is no success beyond the end of the input.
pub data IsWithin : Outcome (Option ℕ) → Type 0 where
  matched : {r : ℕ} {s : ParseState} → s.input_stream.overrun ≡ false → IsWithin (done (some r) s)
  failed : {s : ParseState} → IsWithin (done none s)
  was_fault : IsWithin fault
  was_halted : IsWithin halted
  was_unfinished : IsWithin out_of_fuel

answered :
    (b : Bool) (r : ℕ) (s : ParseState)
    → s.input_stream.overrun ≡ b
    → IsWithin ((if b then pure none else pure (some r)) s)
answered true r s e = failed
answered false r s e = matched e

loaded :
    (bak : InputStream) (r : ℕ) (s : ParseState) (o : Option ParseResult)
    → IsWithin (
        continue_with (load_outcome s o) (λ x.
          store_result r (measured bak s.input_stream x)
          >> (if s.input_stream.overrun then pure none else pure (some r))))
unfolding store_result
loaded bak r s none = was_halted
loaded bak r s (some x) = answered s.input_stream.overrun r _ refl

after_parse-IsWithin :
    (bak : InputStream) (r : Option ℕ) (s : ParseState) → IsWithin (after_parse bak r s)
unfolding after_parse get_stream load_result
after_parse-IsWithin bak none s = failed
after_parse-IsWithin bak (some r) s = loaded bak r s (get_elem? s.results r)

parsed :
    (bak : InputStream) (o : Outcome (Option ℕ))
    → IsWithin (continue_with o (λ r. after_parse bak r))
parsed bak (done r s) = after_parse-IsWithin bak r s
parsed bak fault = was_fault
parsed bak halted = was_halted
parsed bak out_of_fuel = was_unfinished

-- Whatever a parse function does, perform_lowlevel_parse returns a result only with a stream that has
-- not run over the end of the input.
pub perform_lowlevel_parse-IsWithin :
    (heap : Heap) (run : ℕ → M (Option ℕ)) (fuel p : ℕ) (s : ParseState)
    → IsWithin (perform_lowlevel_parse heap run fuel p s)
unfolding perform_lowlevel_parse get_stream
perform_lowlevel_parse-IsWithin heap run fuel p s = found (heap p)
  where
    found :
        (o : Option Parser)
        → IsWithin (
            (elim o as (λ _. M (Option ℕ)) [
              | none ↦ λ _. halted
              | some v ↦ parse_vtable run fuel v >>= λ r. after_parse s.input_stream r
            ])
              s)
    found none = was_halted
    found (some v) = parsed s.input_stream (parse_vtable run fuel v s)
