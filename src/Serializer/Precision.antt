-- ===== src/Serializer/Precision.antt =====
-- src/serializer.cpp: the formats of floating-point numbers, serialize_float and deserialize_float. The numbers of type
-- long double and what the C library computes with them are a parameter.
use p2purr.Base.{
  ℕ, ◌+◌, ◌-◌, ◌*◌, ◌/◌, ◌%◌, ◌^◌, bit_or, Bool, Option, none, some, ltb, ◌==◌, if◌then◌else◌, ℤ,
  pos, negsuc,
}

-- `enum Precision`
pub data Precision : Type 0 where
  half_precision single_precision double_precision x86_extended_precision quad : Precision

abbrev pub precision_value : Precision → ℕ
precision_value half_precision = 16
precision_value single_precision = 32
precision_value double_precision = 64
precision_value x86_extended_precision = 80
precision_value quad = 128

-- `struct precision_info`
pub record PrecisionInfo : Type 0 where
  pub num_sign_bits : ℤ
  pub num_exponent_bits : ℤ
  pub num_significand_bits : ℤ
  pub exponent_bias : ℤ
  pub total_num_bits : ℤ

-- `struct precision_info get_precision_info(Precision p)`, at what the object `pi` holds before.
unfoldable pub get_precision_info : PrecisionInfo → Precision → PrecisionInfo
get_precision_info raw single_precision = record {
  num_sign_bits = pos 1;
  num_exponent_bits = pos 8;
  num_significand_bits = pos 23;
  total_num_bits = pos 32;
  exponent_bias = pos 127;
}
get_precision_info raw double_precision = record {
  num_sign_bits = pos 1;
  num_exponent_bits = pos 11;
  num_significand_bits = pos 52;
  total_num_bits = pos 64;
  exponent_bias = pos 1023;
}
get_precision_info raw x86_extended_precision = record {
  num_sign_bits = pos 1;
  num_exponent_bits = pos 15;
  num_significand_bits = pos 64;
  total_num_bits = pos 80;
  exponent_bias = pos 16383;
}
get_precision_info raw quad = record {
  num_sign_bits = pos 1;
  num_exponent_bits = pos 15;
  num_significand_bits = pos 112;
  total_num_bits = pos 128;
  exponent_bias = pos 16383;
}
get_precision_info raw half_precision = record raw { num_sign_bits = pos 1 }

-- The numbers of type long double, with the operations that the code uses: the tests against 0, the
-- product with -1, the difference with 1, `ilogb`, `scalbn`, `ldexp`, and the conversions to and from
-- long long.
pub record LongDouble : Type 1 where
  pub Number : Type 0
  pub is_zero : Number → Bool
  pub is_negative : Number → Bool
  pub negate : Number → Number
  pub minus_one : Number → Number
  pub ilogb : Number → ℤ
  pub scalbn : Number → ℤ → Number
  pub ldexp : Number → ℤ → Number
  pub truncate : Number → ℤ
  pub of_long_long : ℤ → Number

-- The two's complement of 64 bits.
abbrev pub pattern' : ℤ → ℕ
pattern' (pos n) = n % 2 ^ 64
pattern' (negsuc n) = 2 ^ 64 - 1 - n % 2 ^ 64

infixl 65 ◌+ℤ◌
abbrev pub ◌+ℤ◌ : ℤ → ℤ → ℤ
pos m +ℤ pos n = pos (m + n)
pos m +ℤ negsuc n = if ltb n m then pos (m - n - 1) else negsuc (n - m)
negsuc m +ℤ pos n = if ltb m n then pos (n - m - 1) else negsuc (m - n)
negsuc m +ℤ negsuc n = negsuc (m + n + 1)

abbrev pub -ℤ : ℤ → ℤ
-ℤ (pos n) = if n == 0 then pos 0 else negsuc (n - 1)
-ℤ (negsuc n) = pos (n + 1)

-- `<<` of a long long, as a pattern; what is shifted may be negative. It is undefined by a negative
-- number of bits or by 64 and more.
abbrev pub shl_64 : ℤ → ℤ → Option ℕ
shl_64 x (pos n) = if ltb n 64 then some (pattern' x * 2 ^ n % 2 ^ 64) else none
shl_64 x (negsuc n) = none

-- `>>` of an unsigned 64-bit integer.
abbrev pub shr_64 : ℕ → ℤ → Option ℕ
shr_64 x (pos n) = if ltb n 64 then some (x / 2 ^ n) else none
shr_64 x (negsuc n) = none

-- `|` of the three parts.
abbrev pub joined : Option ℕ → Option ℕ → ℕ → Option ℕ
joined none b significand = none
joined (some a) none significand = none
joined (some a) (some b) significand = some (bit_or (bit_or a b) significand)

module _ (c : LongDouble) where
  -- What follows the tests, of a number that is not negative: the pattern that is returned.
  abbrev pub packed : PrecisionInfo → ℤ → c.Number → Option ℕ
  packed p_info sign frac_num =
      let exponent = c.ilogb frac_num in
      let float_norm = c.minus_one (c.scalbn frac_num (-ℤ exponent)) in
      let biased_exponent = exponent +ℤ p_info.exponent_bias in
      let significand = c.truncate (c.scalbn float_norm p_info.num_significand_bits) in
      joined (shl_64 sign p_info.total_num_bits)
        (shl_64 biased_exponent p_info.num_significand_bits) (pattern' significand)

  -- `uint64_t serialize_float(long double frac_num, Serializer::Precision p)`, at what the local variable
  -- `sign` holds before, which only the branch for a negative number sets. `none` is undefined.
  unfoldable pub serialize_float : PrecisionInfo → ℤ → c.Number → Precision → Option ℕ
  serialize_float raw sign frac_num p =
      if c.is_zero frac_num
      then some 0
      else if c.is_negative frac_num
      then packed (get_precision_info raw p) (pos 1) (c.negate frac_num)
      else packed (get_precision_info raw p) sign frac_num

  -- What follows the shift, where `sign` is what it gives: the biased exponent is set to 0 and the
  -- significand to 1, whatever the number is.
  abbrev pub unpacked : PrecisionInfo → ℕ → c.Number
  unpacked p_info sign =
      let exponent = pos 0 +ℤ -ℤ p_info.exponent_bias in
      let significand_norm = c.scalbn (c.of_long_long (pos 1)) (-ℤ p_info.num_significand_bits) in
      let original_num = c.ldexp significand_norm exponent in
      if sign % 2 == 1 then c.negate original_num else original_num

  -- `long double deserialize_float(uint64_t num, Serializer::Precision p)`. `none` is undefined.
  unfoldable pub deserialize_float : PrecisionInfo → ℕ → Precision → Option c.Number
  deserialize_float raw num p =
      let p_info = get_precision_info raw p in
      elim (shr_64 num p_info.total_num_bits) [
        | none ↦ none
        | some sign ↦ some (unpacked p_info sign)
      ]
