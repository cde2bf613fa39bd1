-- ===== src/Base/Bits.antt =====
-- Shifts, `& 0xFF` and `|` on machine words, as arithmetic.
use Prim.Native.Nat.{
  ℕ, zero, suc, ◌+◌, ◌-◌, ◌*◌, ◌/◌, ◌%◌, ◌^◌, ◌≤◌, ◌<◌, min, max, bit_and, bit_or, digits,
  bit_and-bitwise, bit_or-bitwise,
}
use mathlib.Core.Path.{◌≡◌, refl, sym, ap, ◌∙◌}
use mathlib.Core.Logic.{inl, inr}
use native.Mathlib.Nat.{pow-suc}
use native.Mathlib.Omega.{arith}
use p2purr.Base.Tests.{ltb, ltb→lt, ltb_false→le, Bool-cases, if◌then◌else◌}

-- `x >> k` of an `int64_t`, given and returned as its 64-bit pattern: the sign bit fills in.
abbrev pub sar_64 : ℕ → ℕ → ℕ
sar_64 x k = if ltb x (2 ^ 63) then x / 2 ^ k else x / 2 ^ k + (2 ^ 64 - 2 ^ (64 - k))

module _ (z : ℕ → ℕ) (op : ℕ → ℕ → ℕ) where
  -- One round more than enough changes nothing.
  settled : (n a b : ℕ) → a ≤ n → digits z op (suc n) a b ≡ digits z op n a b
  settled zero zero b h = refl
  settled (suc n) zero b h = refl
  settled zero (suc a) b h = absurd (omega arith)
  settled (suc n) (suc a) b h =
      ap (λ d. d * 2 + op (suc a % 2) (b % 2)) (settled n (suc a / 2) (b / 2) (omega arith))

  trimmed : (m n a b : ℕ) → a ≤ n → n ≤ m → digits z op m a b ≡ digits z op n a b
  trimmed zero n a b enough le = let e : 0 ≡ n = omega arith in ap (λ j. digits z op j a b) e
  trimmed (suc m) n a b enough le = elim (Bool-cases (ltb m n)) [
    | inl last ↦ let e : suc m ≡ n = omega (arith, ltb→lt m n last) in ap (λ j. digits z op j a b) e
    | inr more ↦
        let below : n ≤ m = ltb_false→le m n more in
        settled m a b (omega arith) ∙ trimmed m n a b enough below
  ]

  -- An operation on digits, by the last digits and the rest.
  module _ (f : ℕ → ℕ → ℕ) (by_digits : (a b : ℕ) → f a b ≡ digits z op a a b)
      (base : (b : ℕ) → z b ≡ z (b / 2) * 2 + op 0 (b % 2)) where
    last_digit : (a b : ℕ) → f a b ≡ f (a / 2) (b / 2) * 2 + op (a % 2) (b % 2)
    last_digit zero b =
        by_digits 0 b ∙ base b ∙ ap (λ d. d * 2 + op 0 (b % 2)) (sym (by_digits 0 (b / 2)))
    last_digit (suc a) b =
        by_digits (suc a) b
        ∙ ap (λ d. d * 2 + op (suc a % 2) (b % 2))
            (trimmed a (suc a / 2) (suc a / 2) (b / 2) (omega arith) (omega arith)
              ∙ sym (by_digits (suc a / 2) (b / 2)))

and-digits : (a b : ℕ) → bit_and a b ≡ bit_and (a / 2) (b / 2) * 2 + min (a % 2) (b % 2)
and-digits = last_digit (λ b. zero) min bit_and bit_and-bitwise (λ b. omega arith)

or-digits : (a b : ℕ) → bit_or a b ≡ bit_or (a / 2) (b / 2) * 2 + max (a % 2) (b % 2)
or-digits = last_digit (λ b. b) max bit_or bit_or-bitwise (λ b. omega arith)

-- Both operations at a right operand of 0.
at_zero : (bound a : ℕ) → a ≤ bound → (bit_and a 0 ≡ 0) × (bit_or a 0 ≡ a)
at_zero zero zero h = (refl, refl)
at_zero (suc bound) zero h = (refl, refl)
at_zero zero (suc a) h = absurd (omega arith)
at_zero (suc bound) (suc a) h =
    let (and_zero, or_zero) = at_zero bound (suc a / 2) (omega arith) in
    (omega (arith, and-digits (suc a) 0, and_zero), omega (arith, or-digits (suc a) 0, or_zero))

-- The mask of `n` ones, and the low `n` bits, by digits.
abbrev ones : ℕ → ℕ
ones zero = 0
ones (suc n) = ones n * 2 + 1

abbrev low_digits : ℕ → ℕ → ℕ
low_digits zero a = 0
low_digits (suc n) a = low_digits n (a / 2) * 2 + a % 2

bit_and-ones : (n a : ℕ) → bit_and a (ones n) ≡ low_digits n a
bit_and-ones zero a = (at_zero a a (omega arith)).0
bit_and-ones (suc n) a =
    let half : (ones n * 2 + 1) / 2 ≡ ones n = omega arith in
    rw (and-digits a (ones n * 2 + 1), half) (omega (arith, bit_and-ones n (a / 2)))

-- `x & 0xFF` is the low byte.
pub bit_and-byte : (a : ℕ) → bit_and a 0xFF ≡ a % 256
bit_and-byte a = omega (arith, bit_and-ones 8 a)

-- `|` adds where the left operand has only zeros below bit `n`.
pub bit_or_high : (n k b : ℕ) → b < 2 ^ n → bit_or (k * 2 ^ n) b ≡ k * 2 ^ n + b
bit_or_high zero k b h =
    let z : b ≡ 0 = omega arith in
    rw z (omega (arith, (at_zero (k * 2 ^ 0) (k * 2 ^ 0) (omega arith)).1))
bit_or_high (suc n) k b h = rw double (
    rw (or-digits (k * 2 ^ n * 2) b, halves)
      (omega (arith, bit_or_high n k (b / 2) (omega (arith, pow-suc 2 n)))))
  where
    double : k * 2 ^ suc n ≡ k * 2 ^ n * 2
    double = omega (arith, ap (λ (t : ℕ). k * t) (pow-suc 2 n))

    halves : k * 2 ^ n * 2 / 2 ≡ k * 2 ^ n
    halves = omega arith

-- `(x << 8) | b` at a byte `b`.
pub bit_or-byte : (k b : ℕ) → b < 256 → bit_or (k * 256) b ≡ k * 256 + b
bit_or-byte k b h = bit_or_high 8 k b h
