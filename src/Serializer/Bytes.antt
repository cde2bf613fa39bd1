-- ===== src/Serializer/Bytes.antt =====
-- What the loops of serializer.cpp compute, in arithmetic.
use p2purr.Base.{
  ℕ, zero, suc, ◌+◌, ◌*◌, ◌/◌, ◌%◌, ◌^◌, ◌<◌, bit_and, ◌≡◌, refl, ap, some, List, [], ◌∷◌, arith,
}
use p2purr.Base.Bits.{sar_64, bit_and-byte, bit_or-byte}
use p2purr.Serializer.{
  serialize_int16, serialize_int32, serialize_int64, serialize_loop, deserialize_int16,
  deserialize_int32, deserialize_int64, deserialize_loop,
}

abbrev pub IsByte : ℕ → Type 0
IsByte b = b < 256

abbrev pub AllBytes : List ℕ → Type 0
AllBytes [] = Unit {0}
AllBytes (b ∷ bs) = IsByte b × AllBytes bs

-- The sign bits that `>>` fills in lie above the byte that is kept.
pub sar_byte :
    (j num : ℕ) → j < 8 → num < 2 ^ 64 → bit_and (sar_64 num (8 * j)) 0xFF ≡ num / 2 ^ (8 * j) % 256
sar_byte zero num h lt = rw bit_and-byte (ground arith)
sar_byte (suc zero) num h lt = rw bit_and-byte (ground arith)
sar_byte (suc (suc zero)) num h lt = rw bit_and-byte (ground arith)
sar_byte (suc (suc (suc zero))) num h lt = rw bit_and-byte (ground arith)
sar_byte (suc (suc (suc (suc zero)))) num h lt = rw bit_and-byte (ground arith)
sar_byte (suc (suc (suc (suc (suc zero))))) num h lt = rw bit_and-byte (ground arith)
sar_byte (suc (suc (suc (suc (suc (suc zero)))))) num h lt = rw bit_and-byte (ground arith)
sar_byte (suc (suc (suc (suc (suc (suc (suc zero))))))) num h lt = rw bit_and-byte (ground arith)
sar_byte (suc (suc (suc (suc (suc (suc (suc (suc j)))))))) num h lt = absurd (omega arith)

-- The bytes of a number from byte `n - 1` down to byte 0.
abbrev pub be_bytes : ℕ → ℕ → List ℕ
be_bytes zero num = []
be_bytes (suc n) num = (num / 2 ^ (8 * n) % 256) ∷ be_bytes n num

serialize_loop_lem : (n num : ℕ) → n < 9 → num < 2 ^ 64 → serialize_loop n num ≡ be_bytes n num
unfolding serialize_loop
serialize_loop_lem zero num h lt = refl
serialize_loop_lem (suc n) num h lt =
    rw (sar_byte n num (omega arith) lt)
      (ap (◌∷◌ (num / 2 ^ (8 * n) % 256)) (serialize_loop_lem n num (omega arith) lt))

pub serialize_int16_lem : (num : ℕ) → num < 2 ^ 64 → serialize_int16 num ≡ be_bytes 2 num
unfolding serialize_int16
serialize_int16_lem num lt = rw (sar_byte 1 num (omega arith) lt, bit_and-byte num) (ground arith)

pub serialize_int32_lem : (num : ℕ) → num < 2 ^ 64 → serialize_int32 num ≡ be_bytes 4 num
unfolding serialize_int32
serialize_int32_lem num lt = serialize_loop_lem 4 num (omega arith) lt

pub serialize_int64_lem : (num : ℕ) → num < 2 ^ 64 → serialize_int64 num ≡ be_bytes 8 num
unfolding serialize_int64
serialize_int64_lem num lt = serialize_loop_lem 8 num (omega arith) lt

-- One round of `deserialize_int32`, while the result has room for the byte.
round_32 :
    (n result b : ℕ) (buff : List ℕ)
    → result < 2 ^ 24
    → b < 256
    → deserialize_loop 32 (suc n) result (b ∷ buff) ≡ deserialize_loop 32 n (result * 256 + b) buff
unfolding deserialize_loop
round_32 n result b buff h lt =
    let room : result * 256 % 2 ^ 32 ≡ result * 256 = omega arith in
    rw (room, bit_or-byte result b lt)

round_64 :
    (n result b : ℕ) (buff : List ℕ)
    → result < 2 ^ 56
    → b < 256
    → deserialize_loop 64 (suc n) result (b ∷ buff) ≡ deserialize_loop 64 n (result * 256 + b) buff
unfolding deserialize_loop
round_64 n result b buff h lt =
    let room : result * 256 % 2 ^ 64 ≡ result * 256 = omega arith in
    rw (room, bit_or-byte result b lt)

-- The number that bytes stand for, the most significant first.
abbrev pub be_value : ℕ → List ℕ → ℕ
be_value acc [] = acc
be_value acc (b ∷ bs) = be_value (acc * 256 + b) bs

pub deserialize_int16_lem :
    (b c : ℕ) (buff : List ℕ)
    → b < 256
    → c < 256
    → deserialize_int16 (b ∷ c ∷ buff) ≡ some (b * 256 + c)
unfolding deserialize_int16
deserialize_int16_lem b c buff hb hc = rw (bit_or-byte b c hc) (ap some (omega arith))

pub deserialize_int32_lem :
    (b c d e : ℕ) (buff : List ℕ)
    → AllBytes (b ∷ c ∷ d ∷ e ∷ [])
    → deserialize_int32 (b ∷ c ∷ d ∷ e ∷ buff) ≡ some (be_value 0 (b ∷ c ∷ d ∷ e ∷ []))
unfolding deserialize_int32
deserialize_int32_lem b c d e buff h = rw (
  round_32 3 0 b (c ∷ d ∷ e ∷ buff) (omega arith) h.0,
  round_32 2 (0 * 256 + b) c (d ∷ e ∷ buff) (omega arith) h.1.0,
  round_32 1 ((0 * 256 + b) * 256 + c) d (e ∷ buff) (omega arith) h.1.1.0,
  round_32 0 (((0 * 256 + b) * 256 + c) * 256 + d) e buff (omega arith) h.1.1.1.0,
)

pub deserialize_int64_lem :
    (b c d e f g h i : ℕ) (buff : List ℕ)
    → AllBytes (b ∷ c ∷ d ∷ e ∷ f ∷ g ∷ h ∷ i ∷ [])
    → deserialize_int64 (b ∷ c ∷ d ∷ e ∷ f ∷ g ∷ h ∷ i ∷ buff)
      ≡ some (be_value 0 (b ∷ c ∷ d ∷ e ∷ f ∷ g ∷ h ∷ i ∷ []))
unfolding deserialize_int64
deserialize_int64_lem b c d e f g h i buff bytes = rw (
  round_64 7 0 b (c ∷ d ∷ e ∷ f ∷ g ∷ h ∷ i ∷ buff) (omega arith) bytes.0,
  round_64 6 (0 * 256 + b) c (d ∷ e ∷ f ∷ g ∷ h ∷ i ∷ buff) (omega arith) bytes.1.0,
  round_64 5 ((0 * 256 + b) * 256 + c) d (e ∷ f ∷ g ∷ h ∷ i ∷ buff) (omega arith) bytes.1.1.0,
  round_64 4 (((0 * 256 + b) * 256 + c) * 256 + d) e (f ∷ g ∷ h ∷ i ∷ buff) (omega arith)
      bytes.1.1.1.0,
  round_64 3 ((((0 * 256 + b) * 256 + c) * 256 + d) * 256 + e) f (g ∷ h ∷ i ∷ buff) (omega arith)
      bytes.1.1.1.1.0,
  round_64 2 (((((0 * 256 + b) * 256 + c) * 256 + d) * 256 + e) * 256 + f) g (h ∷ i ∷ buff)
      (omega arith) bytes.1.1.1.1.1.0,
  round_64 1 ((((((0 * 256 + b) * 256 + c) * 256 + d) * 256 + e) * 256 + f) * 256 + g) h (i ∷ buff)
      (omega arith) bytes.1.1.1.1.1.1.0,
  round_64 0 (((((((0 * 256 + b) * 256 + c) * 256 + d) * 256 + e) * 256 + f) * 256 + g) * 256 + h) i
      buff (omega arith) bytes.1.1.1.1.1.1.1.0,
)
