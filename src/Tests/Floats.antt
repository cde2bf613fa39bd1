-- ===== src/Tests/Floats.antt =====
-- Numbers in units of 2 ^ -23 for long double, and -1.5 among them.
use p2purr.Base.{
  ℕ, zero, suc, ◌+◌, ◌-◌, ◌*◌, ◌/◌, ◌^◌, ◌≡◌, ◌≢◌, refl, Bool, true, false, none, some, arith, ltb,
  ◌==◌, if◌then◌else◌, ℤ, pos, negsuc,
}
use p2purr.Serializer.Precision.{
  half_precision, single_precision, double_precision, PrecisionInfo, LongDouble, ◌+ℤ◌, -ℤ,
  serialize_float,
}
use p2purr.Serializer.Float.{serialize_float-single, serialize_float-wide}

abbrev garbage : PrecisionInfo
garbage = record {
  num_sign_bits = pos 77;
  num_exponent_bits = negsuc 5;
  num_significand_bits = pos 1000;
  exponent_bias = negsuc 0;
  total_num_bits = pos 3;
}

single_is_not_half : single_precision ≢ half_precision
single_is_not_half e = cc e

-- The exponent of the largest power of 2 that is not above the number.
abbrev log_2 : ℕ → ℕ → ℕ
log_2 zero n = 0
log_2 (suc fuel) n = let rest = log_2 fuel (n / 2) in if ltb n 2 then 0 else rest + 1

abbrev scaled : ℤ → ℤ → ℤ
scaled (pos n) (pos k) = pos (n * 2 ^ k)
scaled (pos n) (negsuc k) = pos (n / 2 ^ (k + 1))
scaled (negsuc n) k = negsuc n

abbrev exponent_of : ℤ → ℤ
exponent_of (pos n) = pos (log_2 64 n) +ℤ negsuc 22
exponent_of (negsuc n) = pos 0

abbrev whole_part : ℤ → ℤ
whole_part (pos n) = pos (n / 2 ^ 23)
whole_part (negsuc n) = negsuc n

abbrev is_nil : ℤ → Bool
is_nil (pos n) = n == 0
is_nil (negsuc n) = false

abbrev below_nil : ℤ → Bool
below_nil (pos n) = false
below_nil (negsuc n) = true

abbrev units : ℤ → ℤ
units (pos n) = pos (n * 2 ^ 23)
units (negsuc n) = negsuc (n * 2 ^ 23 + (2 ^ 23 - 1))

abbrev fixed : LongDouble
fixed = record {
  Number = ℤ;
  is_zero = is_nil;
  is_negative = below_nil;
  negate = -ℤ;
  minus_one = λ x. x +ℤ negsuc (2 ^ 23 - 1);
  ilogb = exponent_of;
  scalbn = scaled;
  ldexp = scaled;
  truncate = whole_part;
  of_long_long = units;
}

-- IEEE 754 has the sign at bit 31.
serialize_float-single_example :
    serialize_float fixed garbage (pos 5) (negsuc (3 * 2 ^ 22 - 1)) single_precision
    ≡ some (2 ^ 32 + 127 * 2 ^ 23 + 2 ^ 22)
serialize_float-single_example =
    serialize_float-single fixed garbage (pos 5) (negsuc (3 * 2 ^ 22 - 1)) 127 (2 ^ 22) refl refl
      refl (omega arith) refl (omega arith)

serialize_float-wide_example :
    serialize_float fixed garbage (pos 5) (pos 12) double_precision ≡ none
serialize_float-wide_example =
    serialize_float-wide fixed garbage (pos 5) (pos 12) double_precision (omega arith) refl
