-- ===== src/Serializer/RoundTrip.antt =====
-- Serializer::serialize_int* against Serializer::deserialize_int*.
use p2purr.Base.{
  ℕ, ◌+◌, ◌-◌, ◌%◌, ◌^◌, ◌<◌, ◌≡◌, ap, ◌∙◌, some, List, [], ◌∷◌, ◌++◌, arith, ltb, if◌then◌else◌,
}
use p2purr.Serializer.{
  serialize_int16, serialize_int32, serialize_int64, deserialize_int16, deserialize_int32,
  deserialize_int64,
}
use p2purr.Serializer.Bytes.{
  AllBytes, be_value, serialize_int16_lem, serialize_int32_lem, serialize_int64_lem,
  deserialize_int16_lem, deserialize_int32_lem, deserialize_int64_lem,
}

-- Reading what `serialize_int16` wrote of a 64-bit pattern gives its low 16 bits, whatever follows.
deserialize_int16-serialize_int16 :
    (num : ℕ) (buff : List ℕ)
    → num < 2 ^ 64
    → deserialize_int16 (serialize_int16 num ++ buff) ≡ some (num % 2 ^ 16)
deserialize_int16-serialize_int16 num buff lt =
    rw (serialize_int16_lem num lt)
      (deserialize_int16_lem _ _ buff (omega arith) (omega arith) ∙ ap some (omega arith))

-- Reading what `serialize_int32` wrote of a 64-bit pattern gives its low 32 bits, whatever follows.
deserialize_int32-serialize_int32 :
    (num : ℕ) (buff : List ℕ)
    → num < 2 ^ 64
    → deserialize_int32 (serialize_int32 num ++ buff) ≡ some (num % 2 ^ 32)
deserialize_int32-serialize_int32 num buff lt =
    rw (serialize_int32_lem num lt)
      (deserialize_int32_lem _ _ _ _ buff (omega arith) ∙ ap some (omega arith))

-- Reading what `serialize_int64` wrote of a 64-bit pattern gives the pattern back, whatever follows.
deserialize_int64-serialize_int64 :
    (num : ℕ) (buff : List ℕ)
    → num < 2 ^ 64
    → deserialize_int64 (serialize_int64 num ++ buff) ≡ some num
deserialize_int64-serialize_int64 num buff lt =
    rw (serialize_int64_lem num lt)
      (deserialize_int64_lem _ _ _ _ _ _ _ _ buff (omega arith) ∙ ap some (omega arith))

-- Reading what was written of a 64-bit pattern, whatever follows, gives its low 16 or its low 32 bits, or
-- the pattern back, by the width of the functions.
pub deserialize_int-serialize_int :
    (num : ℕ) (buff : List ℕ)
    → num < 2 ^ 64
    → (deserialize_int16 (serialize_int16 num ++ buff) ≡ some (num % 2 ^ 16))
      × (deserialize_int32 (serialize_int32 num ++ buff) ≡ some (num % 2 ^ 32))
      × (deserialize_int64 (serialize_int64 num ++ buff) ≡ some num)
deserialize_int-serialize_int num buff lt = (
  deserialize_int16-serialize_int16 num buff lt,
  deserialize_int32-serialize_int32 num buff lt,
  deserialize_int64-serialize_int64 num buff lt,
)

-- The conversion of `int32_t` to `int64_t`, on bit patterns.
abbrev pub sign_extend_32 : ℕ → ℕ
sign_extend_32 x = if ltb x (2 ^ 31) then x else x + (2 ^ 64 - 2 ^ 32)

-- Any four bytes are read by `deserialize_int32` as some `int32_t`, and `serialize_int32` writes that as
-- the same four bytes.
pub serialize_int32-deserialize_int32 :
    (b c d e : ℕ)
    → AllBytes (b ∷ c ∷ d ∷ e ∷ [])
    → (num : ℕ) × (deserialize_int32 (b ∷ c ∷ d ∷ e ∷ []) ≡ some num)
      × (serialize_int32 (sign_extend_32 num) ≡ b ∷ c ∷ d ∷ e ∷ [])
serialize_int32-deserialize_int32 b c d e bytes = (
  be_value 0 (b ∷ c ∷ d ∷ e ∷ []),
  deserialize_int32_lem b c d e [] bytes,
  serialize_int32_lem (sign_extend_32 (be_value 0 (b ∷ c ∷ d ∷ e ∷ []))) (ground arith)
      ∙ ground arith,
)
