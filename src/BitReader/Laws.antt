-- ===== src/BitReader/Laws.antt =====
-- What `h_read_bits` returns: the next bits of the stream as a number, padded with zeros where the
-- input ends too early, and the stream after them.
use hammer.Prelude.{
  ℕ, zero, suc, ◌-◌, ◌*◌, ◌^◌, ◌≤◌, ◌<◌, ◌≡◌, ap, ◌∙◌, sym, Bool, true, false, ◌||◌, List, ◌++◌,
  arith, refl, none, leb, ◌&&◌, length, take, drop, some, replicate, le_or_lt, inl, inr, ltb,
  if◌then◌else◌, if_true, if_false, length-append, length-take, length-replicate, lt→ltb,
  le→ltb_false, le→leb,
}
use hammer.BitReader.{InputStream, Read, read_loop, sign_extended, finish, h_read_bits, ◌>>=◌}
use hammer.BitReader.Pending.{
  pending, value_big, value_little, value_big-append, IsValid, take-append, take-append_left,
  take_all, take-replicate, value_big-zeros, value_little-zeros, value_little-append,
}
use hammer.BitReader.Loops.{IsRun, drop-past}
use hammer.BitReader.Bytes.{read_loop-IsRun}
use hammer.BitReader.Counts.{
  IsBits, pending-IsBits, value_big-bound, value_little-bound, IsBits-take, IsBits-append,
}
use hammer.BitReader.Finish.{extend, sign_extended-extend, whole_lem, short_lem}

-- The bits that a read of `count` bits sees: those pending, then zeros.
abbrev pub padded : InputStream → ℕ → List ℕ
padded s count = take count (pending s ++ replicate count 0)

-- Whether C defines the shifts of a read of `count` bits: by `count - 1`, and by the number of bits
-- that are missing at the end, where they are shifted in.
abbrev pub shifts_defined : InputStream → ℕ → Bool
shifts_defined s count =
    leb 1 count
    && leb count 64
    && ltb (if s.endianness.byte_big then count - length (pending s) else 0) 64

abbrev value_with : InputStream → ℕ → Read
value_with after n = some (n, after)

finished_if :
    (b : Bool) (n : ℕ) (after : InputStream)
    → ((if b then some n else none) >>= value_with after) ≡ (if b then some (n, after) else none)
finished_if true n after = refl
finished_if false n after = refl

-- `r` is a read of `count` bits of `s`.
pub record IsReadOf (s : InputStream) (count : ℕ) (signed : Bool) (r : Read) : Type 0 where
  pub value : ℕ
  pub after : InputStream
  pub returns : r ≡ (if shifts_defined s count then some (value, after) else none)
  pub valid : IsValid after
  pub rest : pending after ≡ drop count (pending s)
  pub input : after.input ≡ s.input
  pub same_length : after.length ≡ s.length
  pub endianness : after.endianness ≡ s.endianness
  pub overrun : after.overrun ≡ (s.overrun || ltb (length (pending s)) count)
  pub big :
      0 < count
      → count ≤ 64
      → s.endianness.byte_big ≡ true
      → s.endianness.bit_big ≡ true
      → value ≡ extend count signed (value_big 0 (padded s count))
  pub little :
      0 < count
      → count ≤ 64
      → s.endianness.byte_big ≡ false
      → s.endianness.bit_big ≡ false
      → value ≡ extend count signed (value_little (padded s count))

zeros-IsBits : (n : ℕ) → IsBits (replicate n 0)
zeros-IsBits zero = tt
zeros-IsBits (suc n) = (omega arith, zeros-IsBits n)

little_start :
    {s : InputStream} {count : ℕ} {r : Read} (run : IsRun s count 0 0 r)
    → s.endianness.byte_big ≡ false
    → s.endianness.bit_big ≡ false
    → count ≤ 64
    → run.value ≡ value_little (take count (pending s))
little_start run a b h = run.little a b (omega arith) (omega arith) ∙ omega arith

module _ (s : InputStream) (v : IsValid s) (count : ℕ) (signed : Bool) (h : count ≤ 255) where
  extend_once :
      0 < count
      → count ≤ 64
      → (n : ℕ) → n < 2 ^ count
      → sign_extended count signed 0 n ≡ extend count signed n
  extend_once pos h64 n lt =
      let e : n * 2 ^ 0 ≡ n = omega arith in
      rw e at (sign_extended-extend count signed 0 n pos h64 (rw e lt))

  module _ (enough : count ≤ length (pending s)) where
    padded_whole : padded s count ≡ take count (pending s)
    padded_whole = take-append_left (pending s) (replicate count 0) count enough

    length-whole : length (take count (pending s)) ≡ count
    length-whole = length-take count (pending s) enough

    taken-IsBits : IsBits (take count (pending s))
    taken-IsBits = IsBits-take count (pending s) (pending-IsBits s)

    no_shift : (b : Bool) → (if b then count - length (pending s) else 0) ≡ 0
    no_shift true = omega arith
    no_shift false = refl

    whole-IsReadOf : IsReadOf s count signed (h_read_bits s count signed)
    unfolding finish
    whole-IsReadOf =
        let run = read_loop-IsRun count s v enough in
        record {
          value = sign_extended count signed 0 run.value;
          after = run.after;
          returns =
              rw (whole_lem s v count signed h enough, run.returns, no_shift s.endianness.byte_big)
                (finished_if (leb 1 count && leb count 64 && ltb 0 64) _ run.after);
          valid = run.valid;
          rest = run.rest;
          input = run.same.input;
          same_length = run.same.length;
          endianness = run.same.endianness;
          overrun = run.same.overrun ∙ rw (le→ltb_false _ _ enough) (ground arith);
          big = λ pos h64 a b.
              rw (padded_whole, run.big 0 a b (omega arith) (omega arith))
                (extend_once pos h64 _ (value_big-bound _ taken-IsBits length-whole));
          little = λ pos h64 a b.
              rw (padded_whole, little_start run a b h64)
                (extend_once pos h64 _ (value_little-bound _ taken-IsBits length-whole));
        }

  module _ (few : length (pending s) < count) where
    abbrev avail : ℕ
    avail = length (pending s)

    abbrev missing : ℕ
    missing = count - avail

    abbrev started : InputStream
    started = record s { overrun = true }

    run : IsRun started avail 0 0 (read_loop avail started)
    unfolding pending
    run =
        read_loop-IsRun avail started
          (record {
            same_length = v.same_length;
            bytes = v.bytes;
            inside = v.inside;
            in_byte = v.in_byte;
            at_end = v.at_end;
            small = v.small;
          })
          (omega arith)

    taken_all : take avail (pending started) ≡ pending s
    unfolding pending
    taken_all = take_all (pending s)

    padded_short : padded s count ≡ pending s ++ replicate missing 0
    padded_short =
        take-append (pending s) (replicate count 0) count (omega arith)
        ∙ ap (λ (t : List ℕ). pending s ++ t) (take-replicate missing count 0 (omega arith))

    padded-IsBits : IsBits (pending s ++ replicate missing 0)
    padded-IsBits =
        IsBits-append (pending s) (replicate missing 0) (pending-IsBits s) (zeros-IsBits missing)

    length-padded : length (pending s ++ replicate missing 0) ≡ count
    length-padded =
        omega (
          arith,
          length-append (pending s) (replicate missing 0),
          length-replicate {A = ℕ} missing 0,
        )

    big_value :
        0 < count
        → count ≤ 64
        → s.endianness.byte_big ≡ true
        → s.endianness.bit_big ≡ true
        → run.value * 2 ^ missing ≡ value_big 0 (pending s ++ replicate missing 0)
    big_value pos h64 a b =
        rw (value_big-append, value_big-zeros)
          (ap (λ (t : ℕ). t * 2 ^ missing)
            (run.big 0 a b (omega arith) (omega arith) ∙ ap (value_big 0) taken_all))

    little_value :
        0 < count
        → count ≤ 64
        → s.endianness.byte_big ≡ false
        → s.endianness.bit_big ≡ false
        → run.value ≡ value_little (pending s ++ replicate missing 0)
    little_value pos h64 a b =
        rw (value_little-append, value_little-zeros)
          (little_start run a b (omega arith) ∙ ap value_little taken_all ∙ omega arith)

    started_end : length (pending started) ≤ avail
    unfolding pending
    started_end = omega arith

    short_big :
        0 < count
        → count ≤ 64
        → s.endianness.byte_big ≡ true
        → s.endianness.bit_big ≡ true
        → sign_extended count signed missing run.value
          ≡ extend count signed (value_big 0 (padded s count))
    short_big pos h64 a b =
        let lt = value_big-bound _ padded-IsBits length-padded in
        let fit : run.value * 2 ^ missing < 2 ^ count = rw (big_value pos h64 a b) lt in
        rw (padded_short, ← big_value pos h64 a b)
          (sign_extended-extend count signed missing run.value pos h64 fit)

    short_little :
        0 < count
        → count ≤ 64
        → s.endianness.byte_big ≡ false
        → s.endianness.bit_big ≡ false
        → sign_extended count signed 0 run.value
          ≡ extend count signed (value_little (padded s count))
    short_little pos h64 a b =
        let lt = value_little-bound _ padded-IsBits length-padded in
        rw (padded_short, little_value pos h64 a b) (extend_once pos h64 _ lt)

    short-IsReadOf : IsReadOf s count signed (h_read_bits s count signed)
    unfolding finish
    short-IsReadOf = record {
      value = sign_extended count signed (if s.endianness.byte_big then missing else 0) run.value;
      after = run.after;
      returns =
          rw (short_lem s v count signed h few, run.returns)
            (finished_if (shifts_defined s count) _ run.after);
      valid = run.valid;
      rest =
          run.rest
          ∙ drop-past (pending started) avail started_end
          ∙ sym (drop-past (pending s) count (omega arith));
      input = run.same.input;
      same_length = run.same.length;
      endianness = run.same.endianness;
      overrun = run.same.overrun ∙ rw (lt→ltb _ _ few) (ground arith);
      big = λ pos h64 a b.
          ap (λ t. sign_extended count signed t run.value) (if_true _ _ s.endianness.byte_big a)
          ∙ short_big pos h64 a b;
      little = λ pos h64 a b.
          ap (λ t. sign_extended count signed t run.value) (if_false _ _ s.endianness.byte_big a)
          ∙ short_little pos h64 a b;
    }

pub h_read_bits-IsReadOf :
    (s : InputStream) (count : ℕ) (signed : Bool)
    → IsValid s
    → count ≤ 255
    → IsReadOf s count signed (h_read_bits s count signed)
h_read_bits-IsReadOf s count signed v h = elim (le_or_lt count (length (pending s))) [
  | inl p ↦ whole-IsReadOf s v count signed h p
  | inr p ↦ short-IsReadOf s v count signed h p
]

-- Where the shifts of a read of 1 to 64 bits are defined.
module _ (s : InputStream) (count : ℕ) (pos : 0 < count) (h : count ≤ 64) where
  pub shifts_big :
      s.endianness.byte_big ≡ true → shifts_defined s count ≡ ltb (count - length (pending s)) 64
  shifts_big a = rw (le→leb 1 count pos, le→leb count 64 h, a) refl

  pub shifts_little : s.endianness.byte_big ≡ false → shifts_defined s count ≡ true
  shifts_little a = rw (le→leb 1 count pos, le→leb count 64 h, a) refl

  -- They are for less than 64 bits, and where any bit is left.
  pub shifts_enough : count - length (pending s) < 64 → shifts_defined s count ≡ true
  shifts_enough e = rw (le→leb 1 count pos, le→leb count 64 h) (go s.endianness.byte_big)
    where
      go : (b : Bool) → ltb (if b then count - length (pending s) else 0) 64 ≡ true
      go true = lt→ltb _ _ e
      go false = refl
