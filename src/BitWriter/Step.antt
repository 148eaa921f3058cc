-- ===== src/BitWriter/Step.antt =====
-- One round of the loop of h_bit_writer_put, in src/bitwriter.c: the bits it selects, and the byte it
-- pushes them onto.
use hammer.Prelude.{
  ℕ, suc, ◌+◌, ◌-◌, ◌*◌, ◌/◌, ◌%◌, ◌^◌, ◌≤◌, ◌<◌, ◌≡◌, refl, sym, ap, ◌∙◌, Bool, true, false, some,
  List, [], ◌∷◌, ◌++◌, arith, length, take, set, get_elem?, two_pow_pos, bit_and-mask, append-nil,
  drop-eq-cons, bit_and, equal_or_not, inl, inr, if_same, if_less, subst, if◌then◌else◌,
}
use hammer.BitReader.Pending.{byte_bits, flat_bits, IsBytes}
use hammer.BitWriter.{Writer, select_bits, push_bits, advance}
use hammer.BitWriter.Digits.{
  number_bits, bits_high, bits_low, bits_high-add, bits_low-add, number_bits-mod,
}
use hammer.BitWriter.Content.{
  pushed, partial_bits, content, flat_bits-append, pushed-zero, pushed-full, push_big, push_little,
  take-set, drop-set, take-suc-set,
}

-- The number of bits written so far.
abbrev pub position : Writer → ℕ
position w = w.index * 8 + w.bit_offset

-- Byte and bit order are the same one.
pub record IsOrdered (order : Bool) (w : Writer) : Type 0 where
  pub byte_order : w.flags.byte_big ≡ order
  pub bit_order : w.flags.bit_big ≡ order

-- A writer whose buffer has room for `n` more bits, and some of a further byte.
pub record HasRoom (n : ℕ) (w : Writer) : Type 0 where
  pub in_byte : w.bit_offset < 8
  pub bytes : IsBytes w.buf
  pub room : position w + n < length w.buf * 8

pub content_at :
    (w : Writer) (b : ℕ)
    → get_elem? w.buf w.index ≡ some b
    → content w
      ≡ flat_bits w.flags.bit_big (take w.index w.buf) ++ pushed w.flags.bit_big w.bit_offset b
unfolding content
content_at w b at = rw (drop-eq-cons w.buf w.index at) refl

pub partial-zero : (order : Bool) (bs : List ℕ) → partial_bits order 0 bs ≡ []
partial-zero order [] = refl
partial-zero order (b ∷ bs) = pushed-zero order b

-- What one round makes of a writer: the current byte is `v`, with `count` more bits.
pub record IsStep (w : Writer) (count v : ℕ) (after : Writer) : Type 0 where
  pub holds :
      content after
      ≡ flat_bits w.flags.bit_big (take w.index w.buf)
        ++ pushed w.flags.bit_big (w.bit_offset + count) v
  pub in_byte : after.bit_offset < 8
  pub moved : position after ≡ position w + count
  pub buf : after.buf ≡ set w.buf w.index v
  pub capacity : after.capacity ≡ w.capacity
  pub flags : after.flags ≡ w.flags
  pub error : after.error ≡ w.error

module _ (w : Writer) (count v : ℕ) (inside : w.index < length w.buf) where
  full_byte : Writer
  full_byte = record w { buf = set w.buf w.index v; bit_offset = 0; index = w.index + 1 }

  full_byte-IsStep : w.bit_offset + count ≡ 8 → IsStep w count v full_byte
  unfolding content full_byte
  full_byte-IsStep e =
      let order = w.flags.bit_big in
      let next : w.index + 1 ≡ suc w.index = omega arith in
      record {
        holds =
            rw (next, take-suc-set w.buf w.index v inside, partial-zero order)
              (ap (λ t. t ++ []) (flat_bits-append order (take w.index w.buf) (v ∷ []))
                ∙ append-nil (flat_bits order (take w.index w.buf) ++ (byte_bits order v ++ []))
                ∙ ap (λ t. flat_bits order (take w.index w.buf) ++ t)
                    (append-nil (byte_bits order v)
                      ∙ sym (pushed-full order v)
                      ∙ ap (λ o. pushed order o v) (sym e)));
        in_byte = omega arith;
        moved = omega arith;
        buf = refl;
        capacity = refl;
        flags = refl;
        error = refl;
      }

  part_byte : Writer
  part_byte = record w { buf = set w.buf w.index v; bit_offset = w.bit_offset + count }

  part_byte-IsStep : w.bit_offset + count < 8 → IsStep w count v part_byte
  unfolding content part_byte
  part_byte-IsStep h = record {
    holds = rw (take-set w.buf w.index v, drop-set w.buf w.index v inside) refl;
    in_byte = h;
    moved = omega arith;
    buf = refl;
    capacity = refl;
    flags = refl;
    error = refl;
  }

  pub advance-IsStep :
      w.bit_offset + count ≤ 8
      → IsStep w count v (advance count (record w { buf = set w.buf w.index v }))
  unfolding advance full_byte part_byte
  advance-IsStep h = elim (equal_or_not (w.bit_offset + count) 8) [
    | inl e ↦
        subst (IsStep w count v) (sym (if_same full_byte part_byte (w.bit_offset + count) 8 e))
          (full_byte-IsStep e)
    | inr ne ↦
        subst (IsStep w count v)
          (sym (if_less full_byte part_byte (w.bit_offset + count) 8 (omega arith)))
          (part_byte-IsStep (omega arith))
  ]

-- The bits that a round selects are the first `count` of the `nbits` that are left.
pub select_bits-bound :
    (order : Bool) (x nbits count : ℕ) → select_bits order x nbits count < 2 ^ count
unfolding select_bits
select_bits-bound true x nbits count =
    rw (bit_and-mask count (x / 2 ^ (nbits - count) % 2 ^ 16)) (grind (arith, two_pow_pos count))
select_bits-bound false x nbits count =
    rw (bit_and-mask count (bit_and x 0xff)) (grind (arith, two_pow_pos count))

pub number_bits-select :
    (order : Bool) (x nbits count : ℕ)
    → count ≤ 8
    → count ≤ nbits
    → number_bits order nbits x
      ≡ number_bits order count (select_bits order x nbits count)
        ++ number_bits order (nbits - count) (if order then x else x / 2 ^ count)
unfolding select_bits
number_bits-select true x nbits count h hn =
    let y = x / 2 ^ (nbits - count) in
    let e : count + (nbits - count) ≡ nbits = omega arith in
    let first : bits_high count (bit_and (y % 2 ^ 16) (2 ^ count - 1)) ≡ bits_high count y =
      ap (bits_high count) (bit_and-mask count (y % 2 ^ 16))
      ∙ number_bits-mod true count count (y % 2 ^ 16) (omega arith)
      ∙ number_bits-mod true count 16 y (omega arith) in
    ap (λ n. bits_high n x) (sym e)
    ∙ bits_high-add count (nbits - count) x
    ∙ ap (λ t. t ++ bits_high (nbits - count) x) (sym first)
number_bits-select false x nbits count h hn =
    let e : count + (nbits - count) ≡ nbits = omega arith in
    let first : bits_low count (bit_and (bit_and x 0xff) (2 ^ count - 1)) ≡ bits_low count x =
      ap (bits_low count)
        (bit_and-mask count (bit_and x 0xff) ∙ ap (λ t. t % 2 ^ count) (bit_and-mask 8 x))
      ∙ number_bits-mod false count count (x % 2 ^ 8) (omega arith)
      ∙ number_bits-mod false count 8 x h in
    ap (λ n. bits_low n x) (sym e)
    ∙ bits_low-add count (nbits - count) x
    ∙ ap (λ t. t ++ bits_low (nbits - count) (x / 2 ^ count)) (sym first)

pub push_bits-bound : (order : Bool) (b count r : ℕ) → push_bits order b count r < 256
unfolding push_bits
push_bits-bound true b count r = omega arith
push_bits-bound false b count r = omega arith

pub pushed-push :
    (order : Bool) (o count b r : ℕ)
    → b < 256
    → r < 2 ^ count
    → o + count ≤ 8
    → pushed order (o + count) (push_bits order b count r)
      ≡ pushed order o b ++ number_bits order count r
pushed-push true o count b r hb hr h = push_big o count b r hb hr h
pushed-push false o count b r hb hr h = push_little o count b r hb hr h
