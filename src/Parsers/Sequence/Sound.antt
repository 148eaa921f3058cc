-- ===== src/Parsers/Sequence/Sound.antt =====
-- The parse functions of sequence.c, ignoreseq.c, choice.c, optional.c, ignore.c, and.c, not.c,
-- indirect.c and endianness.c keep a sound state sound.
use hammer.Prelude.{
  ℕ, ◌+◌, arith, Bool, true, false, ◌==◌, Option, none, some, List, [], ◌∷◌, if◌then◌else◌, leb,
}
use hammer.BitReader.{Endianness, InputStream}
use hammer.BitReader.Pending.{IsValid}
use hammer.Syntax.{Tokens, nil, sequence, absent}
use hammer.State.{M}
use hammer.State.Keeps.{
  IsStream, Keeps, Any, Parses, Keeps-bind, Keeps-pure, Keeps-option, Keeps-stuck, Keeps-if,
  get_stream-Keeps, put_stream-Keeps, returned-Keeps, load_result-Keeps,
}
use hammer.Parsers.Sequence.{
  append_ast, sequence_loop, parse_sequence, ignoreseq_loop, parse_ignoreseq, choice_loop,
  parse_choice, parse_optional, parse_ignore, parse_and, parse_not, parse_indirect,
  switch_bit_order, flip_endianness, when, parse_endianness,
}

module _ {input : List ℕ} {run : ℕ → M (Option ℕ)} (h : (p : ℕ) → Parses input (run p)) where
  sequence_loop-Keeps : (ps : List ℕ) (seq : Tokens) → Keeps input Any (sequence_loop run ps seq)
  unfolding sequence_loop
  sequence_loop-Keeps [] seq = Keeps-pure tt
  sequence_loop-Keeps (p ∷ ps) seq = Keeps-bind (h p) (elim [
    | none ↦ λ _. Keeps-pure tt
    | some r ↦
        λ _. Keeps-bind (load_result-Keeps r) (λ x _. sequence_loop-Keeps ps (append_ast seq x.ast))
  ])

  pub parse_sequence-Keeps : (ps : List ℕ) → Parses input (parse_sequence run ps)
  unfolding parse_sequence
  parse_sequence-Keeps ps =
      Keeps-bind (sequence_loop-Keeps ps nil)
        (elim [ none ↦ λ _. Keeps-pure tt | some seq ↦ λ _. returned-Keeps (some (sequence seq)) ])

  ignoreseq_loop-Keeps :
      (which i : ℕ) (ps : List ℕ) (res : Option ℕ)
      → Parses input (ignoreseq_loop run which i ps res)
  unfolding ignoreseq_loop
  ignoreseq_loop-Keeps which i [] res = Keeps-pure tt
  ignoreseq_loop-Keeps which i (p ∷ ps) res = Keeps-bind (h p) (elim [
    | none ↦ λ _. Keeps-pure tt
    | some r ↦ λ _. ignoreseq_loop-Keeps which (i + 1) ps (if i == which then some r else res)
  ])

  pub parse_ignoreseq-Keeps :
      (ps : List ℕ) (which : ℕ) → Parses input (parse_ignoreseq run ps which)
  unfolding parse_ignoreseq
  parse_ignoreseq-Keeps ps which = ignoreseq_loop-Keeps which 0 ps none

  choice_loop-Keeps :
      (backup : InputStream) (ps : List ℕ)
      → IsStream input backup
      → Parses input (choice_loop run backup ps)
  unfolding choice_loop
  choice_loop-Keeps backup [] q = Keeps-pure tt
  choice_loop-Keeps backup (p ∷ ps) q = Keeps-bind (put_stream-Keeps q) (λ _ _.
      Keeps-bind (h p)
        (elim [ none ↦ λ _. choice_loop-Keeps backup ps q | some r ↦ λ _. Keeps-pure tt ]))

  pub parse_choice-Keeps : (ps : List ℕ) → Parses input (parse_choice run ps)
  unfolding parse_choice
  parse_choice-Keeps [] = Keeps-pure tt
  parse_choice-Keeps (p ∷ ps) = Keeps-bind get_stream-Keeps (λ backup q.
      Keeps-bind (h p)
        (elim [ none ↦ λ _. choice_loop-Keeps backup ps q | some r ↦ λ _. Keeps-pure tt ]))

  pub parse_optional-Keeps : (p : ℕ) → Parses input (parse_optional run p)
  unfolding parse_optional
  parse_optional-Keeps p = Keeps-bind get_stream-Keeps (λ bak q. Keeps-bind (h p) (elim [
    | some r ↦ λ _. Keeps-pure tt
    | none ↦ λ _. Keeps-bind (put_stream-Keeps q) (λ _ _. returned-Keeps (some absent))
  ]))

  pub parse_ignore-Keeps : (p : ℕ) → Parses input (parse_ignore run p)
  unfolding parse_ignore
  parse_ignore-Keeps p =
      Keeps-bind (h p) (elim [ none ↦ λ _. Keeps-pure tt | some r ↦ λ _. returned-Keeps none ])

  pub parse_and-Keeps : (p : ℕ) → Parses input (parse_and run p)
  unfolding parse_and
  parse_and-Keeps p = Keeps-bind get_stream-Keeps (λ bak q. Keeps-bind (h p) (λ res _.
      Keeps-bind (put_stream-Keeps q)
        (λ _ _. Keeps-option res (Keeps-pure tt) (λ r. returned-Keeps none))))

  pub parse_not-Keeps : (p : ℕ) → Parses input (parse_not run p)
  unfolding parse_not
  parse_not-Keeps p = Keeps-bind get_stream-Keeps (λ bak q. Keeps-bind (h p) (elim [
    | some r ↦ λ _. Keeps-pure tt
    | none ↦ λ _. Keeps-bind (put_stream-Keeps q) (λ _ _. returned-Keeps none)
  ]))

  pub parse_indirect-Keeps : (p : Option ℕ) → Parses input (parse_indirect run p)
  unfolding parse_indirect
  parse_indirect-Keeps none = Keeps-stuck
  parse_indirect-Keeps (some p) = h p

module _ {input : List ℕ} where
  switched :
      {i : InputStream}
      → IsStream input i
      → IsStream input (record i { bit_offset = i.margin; margin = i.bit_offset })
  switched {i} q = record {
    valid = record {
      same_length = v.same_length;
      bytes = v.bytes;
      inside = v.inside;
      in_byte = (let b = v.in_byte in omega arith);
      at_end = λ e. (let b = v.at_end e in omega arith);
      small = v.small;
    };
    same = q.same;
  }
    where
      v : IsValid i
      v = q.valid

  switch_bit_order-Keeps : Keeps input Any switch_bit_order
  unfolding switch_bit_order
  switch_bit_order-Keeps =
      Keeps-bind get_stream-Keeps
        (λ i q. Keeps-if (leb i.bit_offset 8) (put_stream-Keeps (switched q)) Keeps-stuck)

  flip_endianness-Keeps : (diff : Endianness) → Keeps input Any (flip_endianness diff)
  unfolding flip_endianness
  flip_endianness-Keeps diff = Keeps-bind get_stream-Keeps (λ i q. put_stream-Keeps (record {
    valid = record {
      same_length = q.valid.same_length;
      bytes = q.valid.bytes;
      inside = q.valid.inside;
      in_byte = q.valid.in_byte;
      at_end = q.valid.at_end;
      small = q.valid.small;
    };
    same = q.same;
  }))

  when-Keeps : (b : Bool) {m : M (Unit {0})} → Keeps input Any m → Keeps input Any (when b m)
  unfolding when
  when-Keeps true h = h
  when-Keeps false h = Keeps-pure tt

  pub parse_endianness-Keeps :
      {run : ℕ → M (Option ℕ)}
      → ((p : ℕ) → Parses input (run p))
      → (e : Endianness) (p : ℕ) → Parses input (parse_endianness run e p)
  unfolding parse_endianness
  parse_endianness-Keeps h e p = Keeps-bind get_stream-Keeps (λ i q.
      Keeps-if _
        (Keeps-bind (when-Keeps _ switch_bit_order-Keeps) (λ _ _.
          Keeps-bind (flip_endianness-Keeps _) (λ _ _. Keeps-bind (h p) (λ res _.
            Keeps-bind (flip_endianness-Keeps _)
              (λ _ _. Keeps-bind (when-Keeps _ switch_bit_order-Keeps) (λ _ _. Keeps-pure tt))))))
        (h p))
