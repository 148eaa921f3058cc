-- ===== src/BitWriter/Laws.antt =====
-- What h_bit_writer_new and h_bit_writer_put do to the bits that a writer holds, and what becomes of
-- a write when there is no memory.
use hammer.Prelude.{
  ℕ, zero, suc, ◌+◌, ◌*◌, ◌^◌, ◌≤◌, ◌<◌, ◌≡◌, refl, ap, ap₂, ◌∙◌, Bool, Option, some, List, [], ◌∷◌,
  ◌++◌, arith, length, length-append, replicate, length-replicate, drop, length-drop,
}
use hammer.BitReader.{◌>>=◌}
use hammer.BitReader.Pending.{IsBytes, take-append_left, flat_bits}
use hammer.BitWriter.{Writer, put_loop, bytes_needed, h_bit_writer_put}
use hammer.BitWriter.Digits.{number_bits}
use hammer.BitWriter.Content.{content, partial_bits}
use hammer.BitWriter.Step.{position, IsOrdered}
use hammer.BitWriter.Put.{put_loop-IsPut}
use hammer.BitWriter.Reserve.{IsRealloc, longer, h_bit_writer_reserve-grows}

-- The writer's own consistency.
pub record IsWriter (w : Writer) : Type 0 where
  pub in_byte : w.bit_offset < 8
  pub bytes : IsBytes w.buf
  pub sized : length w.buf ≡ w.capacity
  pub inside : w.index < w.capacity

-- A write of the lowest `n` bits of `x`.
pub record IsWritten (order : Bool) (n x : ℕ) (w : Writer) (r : Option Writer) : Type 0 where
  pub after : Writer
  pub returns : r ≡ some after
  pub valid : IsWriter after
  pub holds : content after ≡ content w ++ number_bits order n x
  pub moved : position after ≡ position w + n
  pub flags : after.flags ≡ w.flags
  pub error : after.error ≡ w.error

module _ {ℓ} {A : Type ℓ} where
  drop-append_left : (xs ys : List A) (n : ℕ) → n ≤ length xs → drop n (xs ++ ys) ≡ drop n xs ++ ys
  drop-append_left xs ys zero h = refl
  drop-append_left [] ys (suc n) h = absurd (omega arith)
  drop-append_left (x ∷ xs) ys (suc n) h = drop-append_left xs ys n (omega arith)

partial-append :
    (order : Bool) (o : ℕ) (xs ys : List ℕ)
    → 0 < length xs
    → partial_bits order o (xs ++ ys) ≡ partial_bits order o xs
partial-append order o [] ys h = absurd (omega arith)
partial-append order o (x ∷ xs) ys h = refl

-- A longer buffer holds the same bits.
content-longer :
    (w : Writer) (more : List ℕ) → w.index < length w.buf → content (longer w more) ≡ content w
unfolding content
content-longer w more h =
    ap₂ (λ (s t : List ℕ). flat_bits w.flags.bit_big s ++ t)
      (take-append_left w.buf more w.index (omega arith))
      (ap (partial_bits w.flags.bit_big w.bit_offset)
          (drop-append_left w.buf more w.index (omega arith))
        ∙ partial-append w.flags.bit_big w.bit_offset (drop w.index w.buf) more
            (omega (arith, length-drop w.index w.buf)))

zeros-IsBytes : (n : ℕ) → IsBytes (replicate n 0)
zeros-IsBytes zero = tt
zeros-IsBytes (suc n) = (omega arith, zeros-IsBytes n)

IsBytes-append : (xs ys : List ℕ) → IsBytes xs → IsBytes ys → IsBytes (xs ++ ys)
IsBytes-append [] ys h k = k
IsBytes-append (x ∷ xs) ys h k = (h.0, IsBytes-append xs ys h.1 k)

bytes_needed-covers :
    (n : ℕ) (w : Writer) → w.bit_offset < 8 → w.bit_offset + n ≤ bytes_needed n w * 8
unfolding bytes_needed
bytes_needed-covers n w h = ground arith

bytes_needed-small : (n : ℕ) (w : Writer) → n ≤ 64 → bytes_needed n w ≤ 9
unfolding bytes_needed
bytes_needed-small n w h = ground arith

module _ (realloc : List ℕ → ℕ → Option (List ℕ)) where
  -- With a realloc that succeeds, a write of 1 to 64 bits returns, keeps the writer consistent, and
  -- appends the lowest bits of the number, in the order of the flags, to those the writer holds.
  pub h_bit_writer_put-IsWritten :
      (order : Bool) (x n : ℕ) (w : Writer)
      → IsRealloc realloc
      → IsWriter w
      → IsOrdered order w
      → 0 < n
      → n ≤ 64
      → w.index < 2 ^ 62
      → IsWritten order n x w (h_bit_writer_put realloc x n w)
  unfolding h_bit_writer_put
  h_bit_writer_put-IsWritten order x zero w law v o pos h small = absurd (omega arith)
  h_bit_writer_put-IsWritten order x (suc n) w law v o pos h small =
      let few = bytes_needed-small (suc n) w h in
      let (k, reserved, enough) =
        h_bit_writer_reserve-grows realloc law (suc n) w v.sized (omega (arith, v.inside))
          (omega (arith, few)) in
      let zeros : List ℕ = replicate k 0 in
      let size : length (w.buf ++ zeros) ≡ w.capacity + k =
        omega (arith, length-append w.buf zeros, length-replicate {A = ℕ} k 0, v.sized) in
      let put =
        put_loop-IsPut order (suc n) x (suc n) (longer w zeros) (omega arith)
          (record { byte_order = o.byte_order; bit_order = o.bit_order })
          (record {
            in_byte = v.in_byte;
            bytes = IsBytes-append w.buf zeros v.bytes (zeros-IsBytes k);
            room = omega (arith, size, enough, bytes_needed-covers (suc n) w v.in_byte);
          }) in
      record {
        after = put.after;
        returns = ap (λ r. r >>= put_loop (suc n) x (suc n)) reserved ∙ put.returns;
        valid = record {
          in_byte = put.in_byte;
          bytes = put.bytes;
          sized = omega (arith, put.same_length, put.capacity, length-append w.buf zeros, v.sized);
          inside = omega (
            arith,
            put.capacity,
            put.moved,
            put.in_byte,
            enough,
            length-replicate {A = ℕ} k 0,
            bytes_needed-covers (suc n) w v.in_byte,
          );
        };
        holds =
            put.holds
            ∙ ap (λ t. t ++ number_bits order (suc n) x)
                (content-longer w zeros (omega (arith, v.sized, v.inside)));
        moved = put.moved;
        flags = put.flags;
        error = put.error;
      }
