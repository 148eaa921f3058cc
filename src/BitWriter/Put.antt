-- ===== src/BitWriter/Put.antt =====
-- The loop of h_bit_writer_put, in src/bitwriter.c: it appends bits to what the writer holds.
use hammer.Prelude.{
  ℕ, zero, suc, ◌+◌, ◌-◌, ◌/◌, ◌^◌, min, ◌≤◌, ◌<◌, ◌≡◌, refl, sym, ap, ap₂, ◌∙◌, Bool, true, false,
  Option, some, List, ◌++◌, arith, length, length-set, take, set, get_elem?, get_elem?_total,
  append_assoc, append-nil, if◌then◌else◌,
}
use hammer.BitReader.Pending.{flat_bits, IsBytes}
use hammer.BitReader.Cut.{get_elem?-lt_256}
use hammer.BitWriter.{Writer, select_bits, push_bits, advance, put_loop}
use hammer.BitWriter.Digits.{number_bits}
use hammer.BitWriter.Content.{pushed, content, IsBytes-set}
use hammer.BitWriter.Step.{
  position, IsOrdered, HasRoom, IsStep, content_at, advance-IsStep, select_bits-bound,
  number_bits-select, push_bits-bound, pushed-push,
}

-- A run of the loop that writes the lowest `n` bits of `x`.
pub record IsPut (order : Bool) (n x : ℕ) (w : Writer) (r : Option Writer) : Type 0 where
  pub after : Writer
  pub returns : r ≡ some after
  pub holds : content after ≡ content w ++ number_bits order n x
  pub moved : position after ≡ position w + n
  pub in_byte : after.bit_offset < 8
  pub bytes : IsBytes after.buf
  pub same_length : length after.buf ≡ length w.buf
  pub capacity : after.capacity ≡ w.capacity
  pub flags : after.flags ≡ w.flags
  pub error : after.error ≡ w.error

no_bits : (order : Bool) (x : ℕ) (bs : List ℕ) → bs ≡ bs ++ number_bits order 0 x
no_bits true x bs = sym (append-nil bs)
no_bits false x bs = sym (append-nil bs)

-- A round appends the bits it pushes.
content-step :
    (order : Bool) (w after : Writer) (b count r : ℕ)
    → w.flags.bit_big ≡ order
    → get_elem? w.buf w.index ≡ some b
    → b < 256
    → r < 2 ^ count
    → w.bit_offset + count ≤ 8
    → IsStep w count (push_bits order b count r) after
    → content after ≡ content w ++ number_bits order count r
content-step order w after b count r o at hb hr h s =
    let full = flat_bits w.flags.bit_big (take w.index w.buf) in
    let v = push_bits order b count r in
    s.holds
    ∙ ap (λ k. full ++ pushed k (w.bit_offset + count) v) o
    ∙ ap (λ t. full ++ t) (pushed-push order w.bit_offset count b r hb hr h)
    ∙ sym (append_assoc full (pushed order w.bit_offset b) (number_bits order count r))
    ∙ ap (λ k. (full ++ pushed k w.bit_offset b) ++ number_bits order count r) (sym o)
    ∙ ap (λ t. t ++ number_bits order count r) (sym (content_at w b at))

put_round :
    (order : Bool) (fuel x n b : ℕ) (w : Writer)
    → get_elem? w.buf w.index ≡ some b
    → IsOrdered order w
    → put_loop (suc fuel) x (suc n) w ≡ (
        let count = min (8 - w.bit_offset) (suc n) in
        let bits = select_bits order x (suc n) count in
        put_loop fuel
          (if order then x else x / 2 ^ count)
          (suc n - count)
          (advance count (record w { buf = set w.buf w.index (push_bits order b count bits) })))
unfolding put_loop
put_round order fuel x n b w at o =
    let count = min (8 - w.bit_offset) (suc n) in
    rw at (
      ap₂
        (λ k l. put_loop fuel (if k then x else x / 2 ^ count) (suc n - count) (
          advance count (record w {
            buf = set w.buf w.index (push_bits l b count (select_bits k x (suc n) count));
          })))
        o.byte_order o.bit_order)

-- With enough rounds, the loop writes the lowest `n` bits.
pub put_loop-IsPut :
    (order : Bool) (fuel x n : ℕ) (w : Writer)
    → n ≤ fuel
    → IsOrdered order w
    → HasRoom n w
    → IsPut order n x w (put_loop fuel x n w)
unfolding put_loop
put_loop-IsPut order fuel x zero w h o r = record {
  after = w;
  returns = refl;
  holds = no_bits order x (content w);
  moved = omega arith;
  in_byte = r.in_byte;
  bytes = r.bytes;
  same_length = refl;
  capacity = refl;
  flags = refl;
  error = refl;
}
put_loop-IsPut order zero x (suc n) w h o r = absurd (omega arith)
put_loop-IsPut order (suc fuel) x (suc n) w h o r =
    let (b, at) = get_elem?_total w.buf w.index (omega (arith, r.room)) in
    let hb : b < 256 = get_elem?-lt_256 w.buf w.index r.bytes at in
    let count = min (8 - w.bit_offset) (suc n) in
    let bits = select_bits order x (suc n) count in
    let v = push_bits order b count bits in
    let rest = if order then x else x / 2 ^ count in
    let next = advance count (record w { buf = set w.buf w.index v }) in
    let step = advance-IsStep w count v (omega (arith, r.room)) (omega arith) in
    let holds =
      content-step order w next b count bits o.bit_order at hb
        (select_bits-bound order x (suc n) count) (omega arith) step in
    let done =
      put_loop-IsPut order fuel rest (suc n - count) next (omega (arith, r.in_byte))
        (record {
          byte_order = ap (λ f. f.byte_big) step.flags ∙ o.byte_order;
          bit_order = ap (λ f. f.bit_big) step.flags ∙ o.bit_order;
        })
        (record {
          in_byte = step.in_byte;
          bytes =
              rw step.buf
                (IsBytes-set w.buf w.index v r.bytes (push_bits-bound order b count bits));
          room = omega (arith, r.room, step.moved, ap length step.buf, length-set w.buf w.index v);
        }) in
    record {
      after = done.after;
      returns = put_round order fuel x n b w at o ∙ done.returns;
      holds =
          done.holds
          ∙ ap (λ t. t ++ number_bits order (suc n - count) rest) holds
          ∙ append_assoc (content w) (number_bits order count bits)
              (number_bits order (suc n - count) rest)
          ∙ ap (λ t. content w ++ t)
              (sym (number_bits-select order x (suc n) count (omega arith) (omega arith)));
      moved = omega (arith, done.moved, step.moved);
      in_byte = done.in_byte;
      bytes = done.bytes;
      same_length = done.same_length ∙ ap length step.buf ∙ length-set w.buf w.index v;
      capacity = done.capacity ∙ step.capacity;
      flags = done.flags ∙ step.flags;
      error = done.error ∙ step.error;
    }
