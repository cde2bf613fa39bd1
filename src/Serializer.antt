-- ===== src/Serializer.antt =====
-- src/serializer.cpp: integers in network byte order. An integer is the bit pattern of its type, a
-- number below 2 ^ 16, 2 ^ 32 or 2 ^ 64; a write returns the bytes it stores from `buff` on, a read
-- takes the bytes from `buff` on and is `none` where it would run past their end.
pub mod Bytes
pub mod RoundTrip
pub mod Precision
pub mod Float
use p2purr.Base.{ℕ, zero, suc, ◌*◌, ◌%◌, ◌^◌, bit_and, bit_or, Option, none, some, List, [], ◌∷◌}
use p2purr.Base.Bits.{sar_64}

-- `void serialize_int16(uint8_t *buff, int64_t num)`
unfoldable pub serialize_int16 : ℕ → List ℕ
serialize_int16 num = bit_and (sar_64 num 8) 0xFF ∷ bit_and num 0xFF ∷ []

-- `while(byte_idx >= 0) *buff++ = (num >> (8 * byte_idx--)) & 0xFF;`, on `byte_idx + 1`.
pub serialize_loop : ℕ → ℕ → List ℕ
serialize_loop zero num = []
serialize_loop (suc byte_idx) num =
    bit_and (sar_64 num (8 * byte_idx)) 0xFF ∷ serialize_loop byte_idx num

-- `void serialize_int32(uint8_t *buff, int64_t num)`
unfoldable pub serialize_int32 : ℕ → List ℕ
unfolding serialize_loop
serialize_int32 num = serialize_loop 4 num

-- `void serialize_int64(uint8_t *buff, int64_t num)`
unfoldable pub serialize_int64 : ℕ → List ℕ
unfolding serialize_loop
serialize_int64 num = serialize_loop 8 num

-- `int16_t deserialize_int16(uint8_t *buff)`. The shift is an `int`'s; the result is cut to 16 bits.
unfoldable pub deserialize_int16 : List ℕ → Option ℕ
deserialize_int16 [] = none
deserialize_int16 (b ∷ []) = none
deserialize_int16 (b ∷ c ∷ buff) = some (bit_or (b * 256) c % 2 ^ 16)

-- `while(i++ < bytes) result = (result << 8) | *buff++;` in a result of `width` bits, on the rounds
-- left. The shift drops what leaves the result.
pub deserialize_loop : ℕ → ℕ → ℕ → List ℕ → Option ℕ
deserialize_loop width zero result buff = some result
deserialize_loop width (suc rounds) result [] = none
deserialize_loop width (suc rounds) result (b ∷ buff) =
    deserialize_loop width rounds (bit_or (result * 256 % 2 ^ width) b) buff

-- `int32_t deserialize_int32(uint8_t *buff)`
unfoldable pub deserialize_int32 : List ℕ → Option ℕ
unfolding deserialize_loop
deserialize_int32 buff = deserialize_loop 32 4 0 buff

-- `int64_t deserialize_int64(uint8_t *buff)`
unfoldable pub deserialize_int64 : List ℕ → Option ℕ
unfolding deserialize_loop
deserialize_int64 buff = deserialize_loop 64 8 0 buff
