-- ===== src/BitReader/Finish.antt =====
-- The end of `h_read_bits`, its sign extension, and the branches before its loops.
use native.Mathlib.Nat.{pow-suc, mod-eq_of_lt}
use hammer.Prelude.{
  ℕ, zero, suc, ◌+◌, ◌-◌, ◌*◌, ◌^◌, ◌≤◌, ◌<◌, ◌≡◌, sym, Bool, true, false, ◌&&◌, arith, length,
  some, bit_xor, bit_xor-zero, bit_xor-top_clear, bit_xor-top_set, two_pow_pos, two_pow_mono,
  le_or_lt, inl, inr, leb, if◌then◌else◌, le→leb, lt→ltb, le→ltb_false, lt→leb_false,
}
use hammer.BitReader.{
  InputStream, Read, ◌>>=◌, bytes_left, read_loop, sign_extended, finish, h_read_bits, u64,
}
use hammer.BitReader.Pending.{pending, IsValid}
use hammer.BitReader.Counts.{bytes_left-eq, length-pending}

-- The int64_t of a `count`-bit number: its two's complement when it is signed.
abbrev pub extend : ℕ → Bool → ℕ → ℕ
extend count signed v = if signed && leb (2 ^ (count - 1)) v then v + 2 ^ 64 - 2 ^ count else v

pub u64_small : (v : ℕ) → v < 2 ^ 64 → u64 v ≡ v
u64_small v h = mod-eq_of_lt h

-- The final sign extension, `(out ^ msb) - msb`, of a number that fits.
finish_signed :
    (k v : ℕ)
    → k < 64
    → v < 2 ^ suc k
    → u64 (bit_xor v (u64 (2 ^ k)) + 2 ^ 64 - u64 (2 ^ k))
      ≡ (if leb (2 ^ k) v then v + 2 ^ 64 - 2 ^ suc k else v)
finish_signed k v h lt =
    let fits = two_pow_mono (suc k) 64 h in
    rw (u64_small (2 ^ k) (omega (arith, fits, pow-suc 2 k, two_pow_pos k)))
      (elim (le_or_lt (2 ^ k) v) [
        | inl p ↦
            let e : 2 ^ k + (v - 2 ^ k) ≡ v = omega arith in
            let flip = bit_xor-top_set k (v - 2 ^ k) (omega (arith, pow-suc 2 k)) in
            rw (le→leb _ _ p, rw e at flip) (omega (arith, fits, pow-suc 2 k))
        | inr p ↦
            rw (lt→leb_false _ _ p, bit_xor-top_clear k v p) (omega (arith, fits, pow-suc 2 k))
      ])

pub sign_extended-extend :
    (count : ℕ) (signed : Bool) (shift out : ℕ)
    → 0 < count
    → count ≤ 64
    → out * 2 ^ shift < 2 ^ count
    → sign_extended count signed shift out ≡ extend count signed (out * 2 ^ shift)
unfolding sign_extended
sign_extended-extend zero signed shift out pos h lt = absurd (omega arith)
sign_extended-extend (suc k) false shift out pos h lt =
    let fits = two_pow_mono (suc k) 64 h in
    rw (u64_small (out * 2 ^ shift) (omega (arith, fits)), bit_xor-zero) (omega (arith, fits))
sign_extended-extend (suc k) true shift out pos h lt =
    let fits = two_pow_mono (suc k) 64 h in
    let e : suc k - 1 ≡ k = omega arith in
    rw (u64_small (out * 2 ^ shift) (omega (arith, fits)), e)
      (finish_signed k (out * 2 ^ shift) h lt)

module _ (s : InputStream) (v : IsValid s) (count : ℕ) (signed : Bool) (h : count ≤ 255) where
  abbrev pub left : ℕ
  left = bytes_left s

  abbrev pub finished : ℕ → ℕ × InputStream → Read
  finished shift r = finish count signed shift r.0 >>= λ n. some (n, r.1)

  bytes_left-small : bytes_left s < 2 ^ 31
  bytes_left-small = omega (arith, bytes_left-eq s v, v.small)

  enough_bytes : s.bit_offset + s.margin ≤ left * 8
  enough_bytes = elim (le_or_lt s.length s.index) [
    | inl p ↦ omega (arith, v.at_end (omega (arith, v.inside)))
    | inr p ↦ omega (arith, bytes_left-eq s v, v.in_byte)
  ]

  avail-eq : left * 8 - s.bit_offset - s.margin ≡ length (pending s)
  avail-eq = rw (bytes_left-eq s v) (sym (length-pending s v))

  pub whole_lem :
      count ≤ length (pending s) → h_read_bits s count signed ≡ (read_loop count s >>= finished 0)
  unfolding h_read_bits
  whole_lem enough = elim (le_or_lt left 64) [
    | inl p ↦ rw (
      lt→leb_false _ _ bytes_left-small,
      le→leb _ _ p,
      le→ltb_false (left * 8) (s.bit_offset + s.margin) enough_bytes,
      avail-eq,
      le→ltb_false _ _ enough,
    )
    | inr p ↦ rw (lt→leb_false _ _ bytes_left-small, lt→leb_false _ _ p)
  ]

  pub short_lem :
      length (pending s) < count
      → h_read_bits s count signed ≡ (
          read_loop (length (pending s)) (record s { overrun = true })
          >>= finished (if s.endianness.byte_big then count - length (pending s) else 0))
  unfolding h_read_bits
  short_lem few =
      let p : left ≤ 64 = omega (arith, avail-eq, v.in_byte) in
      rw (
        lt→leb_false _ _ bytes_left-small,
        le→leb _ _ p,
        le→ltb_false (left * 8) (s.bit_offset + s.margin) enough_bytes,
        avail-eq,
        lt→ltb _ _ few,
      )
