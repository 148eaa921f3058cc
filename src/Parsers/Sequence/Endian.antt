-- ===== src/Parsers/Sequence/Endian.antt =====
-- endianness.c: the orders inside a parser and after it.
use hammer.Prelude.{
  ℕ, ◌≤◌, ◌≡◌, refl, ap, ◌∙◌, Bool, true, false, xor, Option, le→leb, if◌then◌else◌,
}
use hammer.BitReader.{Endianness, InputStream}
use hammer.State.{ParseState, M, at, get_stream, put_stream, done}
use hammer.Parsers.Sequence.{switch_bit_order, flip_endianness, when, parse_endianness}

-- A stream that is read in the orders `e` from here on: where the bit order changes, the bits used at
-- one end of the current byte and the bits left out at the other change places.
abbrev pub turned : Endianness → InputStream → InputStream
turned e i = record i {
  bit_offset = if xor i.endianness.bit_big e.bit_big then i.margin else i.bit_offset;
  margin = if xor i.endianness.bit_big e.bit_big then i.bit_offset else i.margin;
  endianness = e;
}

abbrev ordered : InputStream → Bool → Bool → InputStream
ordered i a b = record i { endianness = record { byte_big = a; bit_big = b } }

module _ (run : ℕ → M (Option ℕ)) {p : ℕ} {r : Option ℕ} where
  turned_core :
      (a b c d : Bool) (s s' : ParseState) (i j : InputStream)
      → i.bit_offset ≤ 8
      → j.bit_offset ≤ 8
      → run p (at s (turned (record { byte_big = c; bit_big = d }) (ordered i a b)))
        ≡ done r (at s' (ordered j c d))
      → parse_endianness run (record { byte_big = c; bit_big = d }) p (at s (ordered i a b))
        ≡ done r (at s' (turned (record { byte_big = a; bit_big = b }) (ordered j c d)))
  unfolding parse_endianness switch_bit_order flip_endianness when get_stream put_stream xor
  turned_core true true true true s s' i j x y h = h
  turned_core true true true false s s' i j x y h =
      rw (le→leb i.bit_offset 8 x, parse_endianness, switch_bit_order)
        (rw h (rw (le→leb j.bit_offset 8 y) refl))
  turned_core true true false true s s' i j x y h = rw (h, parse_endianness) refl
  turned_core true true false false s s' i j x y h =
      rw (le→leb i.bit_offset 8 x, parse_endianness, switch_bit_order)
        (rw h (rw (le→leb j.bit_offset 8 y) refl))
  turned_core true false true true s s' i j x y h =
      rw (le→leb i.bit_offset 8 x, parse_endianness, switch_bit_order)
        (rw h (rw (le→leb j.bit_offset 8 y) refl))
  turned_core true false true false s s' i j x y h = h
  turned_core true false false true s s' i j x y h =
      rw (le→leb i.bit_offset 8 x, parse_endianness, switch_bit_order)
        (rw h (rw (le→leb j.bit_offset 8 y) refl))
  turned_core true false false false s s' i j x y h = rw (h, parse_endianness) refl
  turned_core false true true true s s' i j x y h = rw (h, parse_endianness) refl
  turned_core false true true false s s' i j x y h =
      rw (le→leb i.bit_offset 8 x, parse_endianness, switch_bit_order)
        (rw h (rw (le→leb j.bit_offset 8 y) refl))
  turned_core false true false true s s' i j x y h = h
  turned_core false true false false s s' i j x y h =
      rw (le→leb i.bit_offset 8 x, parse_endianness, switch_bit_order)
        (rw h (rw (le→leb j.bit_offset 8 y) refl))
  turned_core false false true true s s' i j x y h =
      rw (le→leb i.bit_offset 8 x, parse_endianness, switch_bit_order)
        (rw h (rw (le→leb j.bit_offset 8 y) refl))
  turned_core false false true false s s' i j x y h = rw (h, parse_endianness) refl
  turned_core false false false true s s' i j x y h =
      rw (le→leb i.bit_offset 8 x, parse_endianness, switch_bit_order)
        (rw h (rw (le→leb j.bit_offset 8 y) refl))
  turned_core false false false false s s' i j x y h = h

  -- When the parser inside runs in the orders `e` and leaves them as they are, h_with_endianness gives
  -- its result, with the stream where that parser left it, turned back to the orders from before.
  pub parse_endianness-turned :
      (e : Endianness) (s s' : ParseState)
      → s.input_stream.bit_offset ≤ 8
      → s'.input_stream.bit_offset ≤ 8
      → s'.input_stream.endianness ≡ e
      → run p (at s (turned e s.input_stream)) ≡ done r s'
      → parse_endianness run e p s
        ≡ done r
            (at s' (turned s.input_stream.endianness (record s'.input_stream { endianness = e })))
  parse_endianness-turned e s s' x y k h =
      turned_core s.input_stream.endianness.byte_big s.input_stream.endianness.bit_big e.byte_big
        e.bit_big s s' s.input_stream s'.input_stream x y
        (h ∙ ap (λ o. done r (at s' (record s'.input_stream { endianness = o }))) k)
