-- ===== src/Serializer/Float.antt =====
-- get_precision_info against the layout of IEEE 754, and the patterns of serialize_float.
use p2purr.Base.{
  ℕ, ◌+◌, ◌-◌, ◌*◌, ◌/◌, ◌%◌, ◌^◌, ◌<◌, ◌≤◌, ◌≡◌, ◌≢◌, refl, sym, ap, ap₂, ◌∙◌, bit_or, Bool, true,
  false, Option, none, some, arith, if◌then◌else◌, ℤ, pos,
}
use p2purr.Base.Bits.{bit_or_high}
use p2purr.Serializer.Precision.{
  Precision, half_precision, single_precision, double_precision, x86_extended_precision, quad,
  precision_value, PrecisionInfo, get_precision_info, LongDouble, ◌+ℤ◌, -ℤ, shl_64, pattern',
  joined, packed, serialize_float, unpacked, deserialize_float,
}

-- The layout of a binary format of IEEE 754: a sign bit, an exponent of `e` bits with the bias
-- `2 ^ (e - 1) - 1`, and a significand of `f` bits.
abbrev pub IsFormat : ℕ → PrecisionInfo → Type 0
IsFormat bits info =
    (e : ℕ) × (f : ℕ) × (bits ≡ 1 + e + f)
    × (info.num_sign_bits ≡ pos 1)
    × (info.num_exponent_bits ≡ pos e)
    × (info.num_significand_bits ≡ pos f)
    × (info.exponent_bias ≡ pos (2 ^ (e - 1) - 1))
    × (info.total_num_bits ≡ pos bits)

-- Whatever the uninitialised object holds, `get_precision_info` of every precision but
-- HALF_PRECISION gives a layout of IEEE 754 with as many bits as the value of the enumerator says.
pub get_precision_info-IsFormat :
    (raw : PrecisionInfo) (p : Precision)
    → p ≢ half_precision
    → IsFormat (precision_value p) (get_precision_info raw p)
unfolding get_precision_info
get_precision_info-IsFormat raw half_precision n = absurd (n refl)
get_precision_info-IsFormat raw single_precision n = (8, 23, refl, refl, refl, refl, refl, refl)
get_precision_info-IsFormat raw double_precision n = (11, 52, refl, refl, refl, refl, refl, refl)
get_precision_info-IsFormat raw x86_extended_precision n =
    (15, 64, refl, refl, refl, refl, refl, refl)
get_precision_info-IsFormat raw quad n = (15, 112, refl, refl, refl, refl, refl, refl)

three_parts :
    (b m : ℕ)
    → b < 2 ^ 8
    → m < 2 ^ 23
    → joined (shl_64 (pos 1) (pos 32)) (shl_64 (pos b) (pos 23)) (pattern' (pos m))
      ≡ some (2 ^ 32 + b * 2 ^ 23 + m)
three_parts b m hb hm = ap some (
    ap₂ bit_or (ap (bit_or (2 ^ 32)) shifted ∙ bit_or_high 32 1 (b * 2 ^ 23) (omega arith)) small
    ∙ ap (λ x. bit_or x m) whole
    ∙ bit_or_high 23 (512 + b) m hm
    ∙ ap (λ x. x + m) (sym whole))
  where
    shifted : b % 2 ^ 64 * 2 ^ 23 % 2 ^ 64 ≡ b * 2 ^ 23
    shifted = omega arith

    small : m % 2 ^ 64 ≡ m
    small = omega arith

    whole : 1 * 2 ^ 32 + b * 2 ^ 23 ≡ (512 + b) * 2 ^ 23
    whole = omega arith

same : (o : Option ℕ) (b : Bool) → (if b then o else o) ≡ o
same o true = refl
same o false = refl

module _ (c : LongDouble) (raw : PrecisionInfo) (sign : ℤ) (x : c.Number) where
  -- Of a number that is negative, whose magnitude has an exponent that is `b` with the bias, of 8 bits,
  -- and a significand `m` of 23 bits, `serialize_float` at SINGLE_PRECISION returns the biased exponent
  -- and the significand where IEEE 754 has them, and the sign at bit 32, outside of the format.
  pub serialize_float-single :
      (b m : ℕ)
      → c.is_zero x ≡ false
      → c.is_negative x ≡ true
      → c.ilogb (c.negate x) +ℤ pos 127 ≡ pos b
      → b < 2 ^ 8
      → c.truncate
          (c.scalbn (c.minus_one (c.scalbn (c.negate x) (-ℤ (c.ilogb (c.negate x))))) (pos 23))
        ≡ pos m
      → m < 2 ^ 23
      → serialize_float c raw sign x single_precision ≡ some (2 ^ 32 + b * 2 ^ 23 + m)
  unfolding serialize_float get_precision_info
  serialize_float-single b m nonzero negative eb hb em hm =
      ap (λ z. if z then some 0 else if c.is_negative x then below else above) nonzero
      ∙ ap (λ n. if n then below else above) negative
      ∙ ap₂ (λ u v. joined (shl_64 (pos 1) (pos 32)) (shl_64 u (pos 23)) (pattern' v)) eb em
      ∙ three_parts b m hb hm
    where
      below : Option ℕ
      below = packed c (get_precision_info raw single_precision) (pos 1) (c.negate x)

      above : Option ℕ
      above = packed c (get_precision_info raw single_precision) sign x

  -- Of every number but 0, `serialize_float` at a precision of 64 bits or more is undefined: it shifts the
  -- sign by the width of its type or more.
  pub serialize_float-wide :
      (p : Precision)
      → 64 ≤ precision_value p
      → c.is_zero x ≡ false
      → serialize_float c raw sign x p ≡ none
  unfolding serialize_float get_precision_info
  serialize_float-wide half_precision wide nonzero = absurd (omega arith)
  serialize_float-wide single_precision wide nonzero = absurd (omega arith)
  serialize_float-wide double_precision wide nonzero =
      ap (λ z. if z then some 0 else if c.is_negative x then none else none) nonzero
      ∙ same none (c.is_negative x)
  serialize_float-wide x86_extended_precision wide nonzero =
      ap (λ z. if z then some 0 else if c.is_negative x then none else none) nonzero
      ∙ same none (c.is_negative x)
  serialize_float-wide quad wide nonzero =
      ap (λ z. if z then some 0 else if c.is_negative x then none else none) nonzero
      ∙ same none (c.is_negative x)

-- What `deserialize_float` at SINGLE_PRECISION returns of the pattern that `serialize_float-single`
-- gives does not depend on the exponent or the significand.
pub deserialize_float-single :
    (c : LongDouble) (raw : PrecisionInfo) (b m : ℕ)
    → b < 2 ^ 8
    → m < 2 ^ 23
    → deserialize_float c raw (2 ^ 32 + b * 2 ^ 23 + m) single_precision
      ≡ some (c.negate (c.ldexp (c.scalbn (c.of_long_long (pos 1)) (-ℤ (pos 23))) (-ℤ (pos 127))))
unfolding deserialize_float get_precision_info
deserialize_float-single c raw b m hb hm =
    ap (λ sign. some (unpacked c (get_precision_info raw single_precision) sign)) shifted
  where
    shifted : (2 ^ 32 + b * 2 ^ 23 + m) / 2 ^ 32 ≡ 1
    shifted = omega arith
