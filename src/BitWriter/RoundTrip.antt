-- ===== src/BitWriter/RoundTrip.antt =====
-- What src/t_bitwriter.c tests: fields written by h_bit_writer_put are read back by h_read_bits.
use hammer.Prelude.{
  ℕ, zero, suc, ◌+◌, ◌%◌, ◌^◌, ◌<◌, ◌≡◌, refl, sym, ap, ap₂, ◌∙◌, Bool, true, false, Option, some,
  List, [], ◌∷◌, ◌++◌, arith, map, length, length-take, replicate, take, drop, append-nil,
  append_assoc, if_same,
}
use hammer.BitReader.{InputStream, ◌>>=◌}
use hammer.BitReader.Pending.{IsValid, IsBytes, flat_bits, pending, pending_from_start}
use hammer.BitReader.Loops.{drop-past}
use hammer.BitWriter.{
  Writer, clear_from, h_bit_writer_new, h_bit_writer_get_buffer, write_fields, buffer_stream,
  read_fields, run_bitwriter_test,
}
use hammer.BitWriter.Digits.{number_bits}
use hammer.BitWriter.Content.{content, partial_bits}
use hammer.BitWriter.Step.{position, IsOrdered, partial-zero}
use hammer.BitWriter.Reserve.{IsRealloc}
use hammer.BitWriter.Laws.{IsWriter, h_bit_writer_put-IsWritten}
use hammer.BitWriter.ReadBack.{AreFields, total_bits, fields_bits, low_bits, read_fields_lem}

record IsFilled (order : Bool) (fields : List (ℕ × ℕ)) (w : Writer) (r : Option Writer)
    : Type 0 where
  pub after : Writer
  pub returns : r ≡ some after
  pub valid : IsWriter after
  pub holds : content after ≡ content w ++ fields_bits order fields
  pub moved : position after ≡ position w + total_bits fields
  pub flags : after.flags ≡ w.flags

module _ (realloc : List ℕ → ℕ → Option (List ℕ)) (law : IsRealloc realloc) where
  write_fields-IsFilled :
      (order : Bool) (fields : List (ℕ × ℕ)) (w : Writer)
      → AreFields fields
      → IsWriter w
      → IsOrdered order w
      → position w + total_bits fields < 2 ^ 64
      → IsFilled order fields w (write_fields realloc fields w)
  unfolding write_fields
  write_fields-IsFilled order [] w a v o small = record {
    after = w;
    returns = refl;
    valid = v;
    holds = sym (append-nil (content w));
    moved = omega arith;
    flags = refl;
  }
  write_fields-IsFilled order ((x, n) ∷ fields) w a v o small =
      let put = h_bit_writer_put-IsWritten realloc order x n w law v o a.0 a.1 (omega arith) in
      let rest =
        write_fields-IsFilled order fields put.after a.2 put.valid
          (record {
            byte_order = ap (λ f. f.byte_big) put.flags ∙ o.byte_order;
            bit_order = ap (λ f. f.bit_big) put.flags ∙ o.bit_order;
          })
          (omega (arith, put.moved)) in
      record {
        after = rest.after;
        returns = ap (λ r. r >>= write_fields realloc fields) put.returns ∙ rest.returns;
        valid = rest.valid;
        holds =
            rest.holds
            ∙ ap (λ t. t ++ fields_bits order fields) put.holds
            ∙ append_assoc (content w) (number_bits order n x) (fields_bits order fields);
        moved = omega (arith, rest.moved, put.moved);
        flags = rest.flags ∙ put.flags;
      }

IsBytes-take : (n : ℕ) (xs : List ℕ) → IsBytes xs → IsBytes (take n xs)
IsBytes-take zero xs h = tt
IsBytes-take (suc n) [] h = tt
IsBytes-take (suc n) (x ∷ xs) h = (h.0, IsBytes-take n xs h.1)

abbrev start : Bool → Writer
start order = record {
  buf = replicate 8 0;
  index = 0;
  capacity = 8;
  bit_offset = 0;
  flags = record { byte_big = order; bit_big = order };
  error = false;
}

start-IsWriter : (order : Bool) → IsWriter (start order)
start-IsWriter order = record {
  in_byte = omega arith;
  bytes = omega arith;
  sized = refl;
  inside = omega arith;
}

content-start : (order : Bool) → content (start order) ≡ []
unfolding content
content-start true = refl
content-start false = refl

h_bit_writer_new-start :
    (alloc : ℕ → Option (List ℕ)) (block : List ℕ)
    → alloc 8 ≡ some block
    → length block ≡ 8
    → h_bit_writer_new alloc ≡ some (start true)
unfolding h_bit_writer_new clear_from
h_bit_writer_new-start alloc block got size =
    let gone : drop 8 block ≡ [] = drop-past block 8 (omega (arith, size)) in
    rw (got, size, gone) refl

-- What a reader of the buffer sees of a writer that has filled whole bytes.
module _ (w : Writer) (order : Bool) (v : IsWriter w) (o : w.bit_offset ≡ 0) where
  abbrev stream : InputStream
  stream = buffer_stream (record { byte_big = order; bit_big = order }) w.buf w.index

  sized : length (take w.index w.buf) ≡ w.index
  sized = length-take w.index w.buf (omega (arith, v.sized, v.inside))

  stream-IsValid : w.index < 2 ^ 31 → IsValid stream
  unfolding buffer_stream
  stream-IsValid small = record {
    same_length = sized;
    bytes = IsBytes-take w.index w.buf v.bytes;
    inside = omega arith;
    in_byte = omega arith;
    at_end = λ e. omega arith;
    small = small;
  }

  pending-stream : w.flags.bit_big ≡ order → pending stream ≡ content w
  unfolding buffer_stream pending content
  pending-stream e =
      pending_from_start order (take w.index w.buf)
      ∙ sym (append-nil (flat_bits order (take w.index w.buf)))
      ∙ ap₂ (λ k t. flat_bits k (take w.index w.buf) ++ t) (sym e)
          (sym (
            ap (λ k. partial_bits w.flags.bit_big k (drop w.index w.buf)) o
            ∙ partial-zero w.flags.bit_big (drop w.index w.buf)))

-- Fields whose bits fill whole bytes are read back as they were written, each value reduced to its
-- number of bits: in both orders, if the two allocations of the buffer succeed.
pub run_bitwriter_test_lem :
    (alloc : ℕ → Option (List ℕ)) (realloc : List ℕ → ℕ → Option (List ℕ)) (order : Bool)
    (fields : List (ℕ × ℕ)) (block : List ℕ)
    → alloc 8 ≡ some block
    → length block ≡ 8
    → IsRealloc realloc
    → AreFields fields
    → total_bits fields % 8 ≡ 0
    → total_bits fields < 2 ^ 34
    → run_bitwriter_test alloc realloc fields (record { byte_big = order; bit_big = order })
      ≡ some (map low_bits fields)
unfolding run_bitwriter_test h_bit_writer_get_buffer buffer_stream
run_bitwriter_test_lem alloc realloc order fields block got size law a whole small =
    let f =
      write_fields-IsFilled realloc law order fields (start order) a (start-IsWriter order)
        (record { byte_order = refl; bit_order = refl }) (omega arith) in
    let w = f.after in
    let o : w.bit_offset ≡ 0 = omega (arith, f.valid.in_byte, f.moved, whole) in
    let s = stream w order f.valid o in
    let held : pending s ≡ fields_bits order fields =
      pending-stream w order f.valid o (ap (λ k. k.bit_big) f.flags)
      ∙ f.holds
      ∙ ap (λ t. t ++ fields_bits order fields) (content-start order) in
    ap
      (λ r. do
        w ← r
        w' ←
            write_fields realloc fields
              (record w { flags = record { byte_big = order; bit_big = order } })
        (buf, size) ← h_bit_writer_get_buffer w'
        read_fields fields (buffer_stream (record { byte_big = order; bit_big = order }) buf size))
      (h_bit_writer_new-start alloc block got size)
    ∙ ap
        (λ r. do
          w' ← r
          (buf, size) ← h_bit_writer_get_buffer w'
          read_fields fields
              (buffer_stream (record { byte_big = order; bit_big = order }) buf size))
        f.returns
    ∙ ap
        (λ r. r >>= (λ (buf, size).
          read_fields fields
            (buffer_stream (record { byte_big = order; bit_big = order }) buf size)))
        (if_same _ _ w.bit_offset 0 o)
    ∙ read_fields_lem s order fields (stream-IsValid w order f.valid o (omega (arith, f.moved)))
        refl refl a held
