-- ===== src/BitWriter/ReadBack.antt =====
-- Reading back from a buffer the fields that it was filled with.
use hammer.Prelude.{
  none, if◌then◌else◌, if_true, ℕ, ◌+◌, ◌-◌, ◌%◌, ◌^◌, ◌≤◌, ◌<◌, ◌≡◌, refl, sym, ap, ◌∙◌, Bool,
  true, false, some, List, [], ◌∷◌, ◌++◌, arith, map, length, length-append, replicate, take, drop,
}
use hammer.BitReader.{InputStream, Read, ◌>>=◌, h_read_bits}
use hammer.BitReader.Pending.{
  IsValid, pending, value_big, value_little, take-append_left, take_all, drop-append,
}
use hammer.BitReader.Laws.{shifts_defined, shifts_enough, padded, h_read_bits-IsReadOf}
use hammer.BitWriter.{read_fields}
use hammer.BitWriter.Digits.{
  number_bits, length-number_bits, value_big-bits_high, value_little-bits_low,
}

-- Every field has from 1 to 64 bits.
abbrev pub AreFields : List (ℕ × ℕ) → Type 0
AreFields [] = Unit {0}
AreFields ((value, nbits) ∷ fields) = (0 < nbits) × (nbits ≤ 64) × AreFields fields

abbrev pub total_bits : List (ℕ × ℕ) → ℕ
total_bits [] = 0
total_bits ((value, nbits) ∷ fields) = nbits + total_bits fields

abbrev pub fields_bits : Bool → List (ℕ × ℕ) → List ℕ
fields_bits order [] = []
fields_bits order ((value, nbits) ∷ fields) =
    number_bits order nbits value ++ fields_bits order fields

-- The lowest `nbits` bits of a field's value.
abbrev pub low_bits : ℕ × ℕ → ℕ
low_bits (value, nbits) = value % 2 ^ nbits

-- The number that is read where the next bits are those of a number.
module _ (s : InputStream) (order : Bool) (x n : ℕ) (more : List ℕ)
    (e : pending s ≡ number_bits order n x ++ more) where
  width : length (number_bits order n x) ≡ n
  width = length-number_bits order n x

  next_bits : padded s n ≡ number_bits order n x
  next_bits =
      take-append_left (pending s) (replicate n 0) n
        (omega (arith, ap length e, length-append (number_bits order n x) more, width))
      ∙ ap (take n) e
      ∙ take-append_left (number_bits order n x) more n (omega (arith, width))
      ∙ ap (λ k. take k (number_bits order n x)) (sym width)
      ∙ take_all (number_bits order n x)

  rest_bits : drop n (pending s) ≡ more
  rest_bits =
      ap (drop n) e
      ∙ drop-append (number_bits order n x) more n (omega (arith, width))
      ∙ (let z : n - length (number_bits order n x) ≡ 0 = omega (arith, width) in
          ap (λ k. drop k more) z)

  -- No bit is missing, so the read is defined.
  returned :
      {v : ℕ} {after : InputStream} {r : Read}
      → 0 < n
      → n ≤ 64
      → r ≡ (if shifts_defined s n then some (v, after) else none)
      → r ≡ some (v, after)
  returned pos h q =
      let enough : n - length (pending s) < 64 =
        omega (arith, ap length e, length-append (number_bits order n x) more, width) in
      q ∙ if_true _ _ (shifts_defined s n) (shifts_enough s n pos h enough)

-- What reading a field gives.
record IsField (s : InputStream) (x n : ℕ) (more : List ℕ) (r : Read) : Type 0 where
  pub after : InputStream
  pub returns : r ≡ some (x % 2 ^ n, after)
  pub valid : IsValid after
  pub rest : pending after ≡ more
  pub endianness : after.endianness ≡ s.endianness

h_read_bits-IsField :
    (s : InputStream) (order : Bool) (x n : ℕ) (more : List ℕ)
    → IsValid s
    → s.endianness.byte_big ≡ order
    → s.endianness.bit_big ≡ order
    → 0 < n
    → n ≤ 64
    → pending s ≡ number_bits order n x ++ more
    → IsField s x n more (h_read_bits s n false)
h_read_bits-IsField s true x n more v p q pos h e =
    let r = h_read_bits-IsReadOf s n false v (omega arith) in
    record {
      after = r.after;
      returns =
          returned s true x n more e pos h r.returns
          ∙ ap (λ k. some (k, r.after))
              (r.big pos h p q
                ∙ ap (value_big 0) (next_bits s true x n more e)
                ∙ value_big-bits_high n x);
      valid = r.valid;
      rest = r.rest ∙ rest_bits s true x n more e;
      endianness = r.endianness;
    }
h_read_bits-IsField s false x n more v p q pos h e =
    let r = h_read_bits-IsReadOf s n false v (omega arith) in
    record {
      after = r.after;
      returns =
          returned s false x n more e pos h r.returns
          ∙ ap (λ k. some (k, r.after))
              (r.little pos h p q
                ∙ ap value_little (next_bits s false x n more e)
                ∙ value_little-bits_low n x);
      valid = r.valid;
      rest = r.rest ∙ rest_bits s false x n more e;
      endianness = r.endianness;
    }

pub read_fields_lem :
    (s : InputStream) (order : Bool) (fields : List (ℕ × ℕ))
    → IsValid s
    → s.endianness.byte_big ≡ order
    → s.endianness.bit_big ≡ order
    → AreFields fields
    → pending s ≡ fields_bits order fields
    → read_fields fields s ≡ some (map low_bits fields)
unfolding read_fields
read_fields_lem s order [] v p q a e = refl
read_fields_lem s order ((x, n) ∷ fields) v p q a e =
    let f = h_read_bits-IsField s order x n (fields_bits order fields) v p q a.0 a.1 e in
    ap (λ r. r >>= (λ (n, s'). read_fields fields s' >>= (λ rest. some (n ∷ rest)))) f.returns
    ∙ ap (λ r. r >>= (λ rest. some (x % 2 ^ n ∷ rest)))
        (read_fields_lem f.after order fields f.valid (ap (λ k. k.byte_big) f.endianness ∙ p)
          (ap (λ k. k.bit_big) f.endianness ∙ q) a.2 f.rest)
