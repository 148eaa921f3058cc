-- ===== src/Charset/Laws.antt =====
-- Membership in the character sets.
use hammer.Prelude.{
  ℕ, zero, suc, ◌*◌, ◌/◌, ◌%◌, ◌^◌, ◌<◌, ◌≤◌, ◌≡◌, ◌≢◌, refl, subst, sym, ap, ◌∙◌, arith, Bool,
  true, false, not, ◌&&◌, ◌||◌, List, [], ◌∷◌, length, get_elem?, set, leb, ◌==◌, if◌then◌else◌,
  digit, digit-bound, bit_and-digit, digit-bit_or_same, digit-bit_or_other, digit-clear_same,
  digit-clear_other, two_pow_pos, get_elem?-set_self, get_elem?-set_ne, length-set,
  length-replicate, equal_or_not, ==_iff, inl, inr,
}
use hammer.Charset.{
  Charset, word_of, word_at, new_charset, charset_isset, charset_set, fill, ch_range, set_all,
  in_or_not,
}

-- Bit `pos` of the set.
abbrev pub bit : Charset → ℕ → ℕ
bit cs pos = digit (pos % 32) (word_at cs pos)

positive : (d p : ℕ) → d < 2 → 0 < p → not (d * p == 0) ≡ (d == 1)
positive zero p h q = ground arith
positive (suc zero) p h q = ground arith
positive (suc (suc d)) p h q = absurd (omega arith)

isset-bit : (cs : Charset) (pos : ℕ) → charset_isset cs pos ≡ (bit cs pos == 1)
unfolding charset_isset
isset-bit cs pos =
    rw (bit_and-digit (pos % 32) (word_at cs pos), charset_isset)
      (positive (bit cs pos) (2 ^ (pos % 32)) (digit-bound (pos % 32) (word_at cs pos))
        (two_pow_pos (pos % 32)))

-- A set of eight words.
pub length-charset_set :
    (cs : Charset) (pos : ℕ) (val : Bool) → length (charset_set cs pos val) ≡ length cs
unfolding charset_set
length-charset_set cs pos val = length-set cs (pos / 32) _

word_same :
    (cs : Charset) (pos q w : ℕ)
    → pos / 32 ≡ q / 32
    → pos / 32 < length cs
    → word_at (set cs (pos / 32) w) q ≡ w
word_same cs pos q w e h =
    ap word_of (ap (get_elem? (set cs (pos / 32) w)) (sym e) ∙ get_elem?-set_self cs (pos / 32) w h)

word_other :
    (cs : Charset) (pos q w : ℕ)
    → pos / 32 ≢ q / 32
    → word_at (set cs (pos / 32) w) q ≡ word_at cs q
word_other cs pos q w e = ap word_of (get_elem?-set_ne cs (pos / 32) (q / 32) w e)

-- The position that was set has the value, where the set has a word for it.
pub isset-set_same :
    (cs : Charset) (pos : ℕ) (val : Bool)
    → pos / 32 < length cs
    → charset_isset (charset_set cs pos val) pos ≡ val
unfolding charset_set
isset-set_same cs pos true h =
    isset-bit (charset_set cs pos true) pos
    ∙ ap (λ n. n == 1)
        (ap (digit (pos % 32)) (word_same cs pos pos _ refl h)
          ∙ digit-bit_or_same (pos % 32) (word_at cs pos))
isset-set_same cs pos false h =
    isset-bit (charset_set cs pos false) pos
    ∙ ap (λ n. n == 1)
        (ap (digit (pos % 32)) (word_same cs pos pos _ refl h)
          ∙ digit-clear_same (pos % 32) 32 (word_at cs pos) (omega arith))

bit_other :
    (cs : Charset) (pos q : ℕ) (val : Bool)
    → pos ≢ q
    → pos / 32 ≡ q / 32
    → pos / 32 < length cs
    → bit (charset_set cs pos val) q ≡ bit cs q
unfolding charset_set
bit_other cs pos q true n e h =
    ap (digit (q % 32)) (word_same cs pos q _ e h)
    ∙ digit-bit_or_other (q % 32) (pos % 32) (word_at cs pos) (λ d. n (omega arith))
    ∙ ap (λ i. digit (q % 32) (word_of (get_elem? cs i))) e
bit_other cs pos q false n e h =
    ap (digit (q % 32)) (word_same cs pos q _ e h)
    ∙ digit-clear_other (q % 32) (pos % 32) 32 (word_at cs pos) (λ d. n (omega arith)) (omega arith)
        (omega arith)
    ∙ ap (λ i. digit (q % 32) (word_of (get_elem? cs i))) e

bit_apart :
    (cs : Charset) (pos q : ℕ) (val : Bool)
    → pos / 32 ≢ q / 32
    → bit (charset_set cs pos val) q ≡ bit cs q
unfolding charset_set
bit_apart cs pos q val e = ap (digit (q % 32)) (word_other cs pos q _ e)

-- Every other position is as it was.
pub isset-set_other :
    (cs : Charset) (pos q : ℕ) (val : Bool)
    → pos ≢ q
    → pos / 32 < length cs
    → charset_isset (charset_set cs pos val) q ≡ charset_isset cs q
isset-set_other cs pos q val n h =
    isset-bit (charset_set cs pos val) q ∙ ap (λ d. d == 1) same ∙ sym (isset-bit cs q)
  where
    same : bit (charset_set cs pos val) q ≡ bit cs q
    same = elim (equal_or_not (pos / 32) (q / 32)) [
      | inl e ↦ bit_other cs pos q val n e h
      | inr e ↦ bit_apart cs pos q val e
    ]

-- Eight words hold 256 positions.
pub length-fill : (test : ℕ → Bool) (n : ℕ) (cs : Charset) → length (fill test n cs) ≡ length cs
unfolding fill
length-fill test zero cs = refl
length-fill test (suc n) cs = length-charset_set (fill test n cs) n (test n) ∙ length-fill test n cs

isset-fill_last :
    (test : ℕ → Bool) (n c : ℕ) (cs : Charset)
    → n ≡ c
    → n / 32 < length (fill test n cs)
    → charset_isset (charset_set (fill test n cs) n (test n)) c ≡ test c
isset-fill_last test n c cs e h =
    subst (λ x. charset_isset (charset_set (fill test n cs) n (test n)) x ≡ test x) e
      (isset-set_same (fill test n cs) n (test n) h)

isset-fill :
    (test : ℕ → Bool) (n c : ℕ) (cs : Charset)
    → length cs ≡ 8
    → n ≤ 256
    → c < n
    → charset_isset (fill test n cs) c ≡ test c
unfolding fill
isset-fill test zero c cs l h k = absurd (omega arith)
isset-fill test (suc n) c cs l h k = elim (equal_or_not n c) [
  | inl e ↦ isset-fill_last test n c cs e inside
  | inr e ↦
      isset-set_other (fill test n cs) n c (test n) e inside
      ∙ isset-fill test n c cs l (omega arith) (omega arith)
]
  where
    inside : n / 32 < length (fill test n cs)
    inside = omega (arith, length-fill test n cs)

-- The set of h_ch_range has the characters from `lower` to `upper`, both included, and no other.
pub isset-ch_range :
    (lower upper c : ℕ)
    → c < 256
    → charset_isset (ch_range lower upper) c ≡ (leb lower c && leb c upper)
unfolding ch_range new_charset
isset-ch_range lower upper c h =
    isset-fill (λ i. leb lower i && leb i upper) 256 c new_charset (length-replicate {A = ℕ} 8 0)
      (omega arith) h

abbrev pub AllBytes : List ℕ → Type 0
AllBytes [] = Unit {0}
AllBytes (b ∷ bs) = (b < 256) × AllBytes bs

-- Whether a character is among the options.
pub is_among : ℕ → List ℕ → Bool
is_among c [] = false
is_among c (o ∷ options) = o == c || is_among c options

first_option :
    (t d val x y : Bool) → d ≡ true → x ≡ val → (if t then val else x) ≡ (if d || t then val else y)
first_option t false val x y e f = absurd (cc)
first_option true true val x y e f = refl
first_option false true val x y e f = f

later_option :
    (t d val x y : Bool) → d ≡ false → x ≡ y → (if t then val else x) ≡ (if d || t then val else y)
later_option t true val x y e f = absurd (cc)
later_option true false val x y e f = refl
later_option false false val x y e f = f

no_equal : (a b : ℕ) → a ≢ b → (a == b) ≡ false
no_equal a b h = ground arith

set_all-eq :
    (options : List ℕ) (val : Bool) (c : ℕ) (cs : Charset)
    → AllBytes options
    → length cs ≡ 8
    → charset_isset (set_all options val cs) c
      ≡ (if is_among c options then val else charset_isset cs c)
unfolding set_all is_among
set_all-eq [] val c cs b l = refl
set_all-eq (o ∷ options) val c cs b l =
    set_all-eq options val c (charset_set cs o val) b.1 (length-charset_set cs o val ∙ l)
    ∙ elim (equal_or_not o c) [
      | inl e ↦ first_option (is_among c options) (o == c) val _ _ ((==_iff o c).1 e) (
          subst (λ x. charset_isset (charset_set cs o val) x ≡ val) e
            (isset-set_same cs o val inside))
      | inr e ↦
          later_option (is_among c options) (o == c) val _ _ (no_equal o c e)
            (isset-set_other cs o c val e inside)
    ]
  where
    inside : o / 32 < length cs
    inside = let o_lt : o < 256 = b.0 in omega arith

-- h_in has exactly the options, and h_not_in every other character.
pub isset-in_or_not :
    (options : List ℕ) (val : Bool) (c : ℕ)
    → AllBytes options
    → c < 256
    → charset_isset (in_or_not options val) c ≡ (if is_among c options then val else not val)
unfolding in_or_not new_charset
isset-in_or_not options val c b h =
    set_all-eq options val c (fill (λ i. not val) 256 new_charset) b
      (length-fill (λ i. not val) 256 new_charset ∙ length-replicate {A = ℕ} 8 0)
    ∙ ap (λ x. if is_among c options then val else x)
        (isset-fill (λ i. not val) 256 c new_charset (length-replicate {A = ℕ} 8 0) (omega arith) h)
