-- ===== src/Base/Bits.antt =====
-- The laws of `&` and `|` that the drivers rely on, from the binary digits of their arguments.
use Prim.Native.Nat.{ℕ, zero, suc, ◌+◌, ◌*◌, ◌/◌, ◌%◌, ◌≤◌, min, max}
use Prim.Native.Nat.{bit_and, bit_or, digits, bitwise, bit_and-bitwise, bit_or-bitwise}
use mathlib.Core.Path.{◌≡◌, refl, ap}
use native.Mathlib.Omega.{arith}

module _ (rest : ℕ → ℕ) (digit : ℕ → ℕ → ℕ) where
  -- Any two amounts of fuel that cover the first argument give one result.
  digits-covered : (a b j k : ℕ) → a ≤ j → a ≤ k → digits rest digit j a b ≡ digits rest digit k a b
  digits-covered zero b zero zero hj hk = refl
  digits-covered zero b zero (suc k) hj hk = refl
  digits-covered zero b (suc j) zero hj hk = refl
  digits-covered zero b (suc j) (suc k) hj hk = refl
  digits-covered (suc a) b zero k hj hk = absurd (omega arith)
  digits-covered (suc a) b (suc j) zero hj hk = absurd (omega arith)
  digits-covered (suc a) b (suc j) (suc k) hj hk =
      ap (λ t. t * 2 + digit (suc a % 2) (b % 2))
        (digits-covered (suc a / 2) (b / 2) j k (omega arith) (omega arith))

  bitwise-halves :
      (a b : ℕ)
      → bitwise rest digit (suc a) b
        ≡ bitwise rest digit (suc a / 2) (b / 2) * 2 + digit (suc a % 2) (b % 2)
  bitwise-halves a b =
      ap (λ t. t * 2 + digit (suc a % 2) (b % 2))
        (digits-covered (suc a / 2) (b / 2) a (suc a / 2) (omega arith) (omega arith))

-- The lowest binary digit of `a & b`, and the others.
pub bit_and-halves : (a b : ℕ) → bit_and a b ≡ bit_and (a / 2) (b / 2) * 2 + min (a % 2) (b % 2)
bit_and-halves zero b = omega (arith, bit_and-bitwise 0 b, bit_and-bitwise 0 (b / 2))
bit_and-halves (suc a) b = omega (
  arith,
  bit_and-bitwise (suc a) b,
  bit_and-bitwise (suc a / 2) (b / 2),
  bitwise-halves (λ b. zero) min a b,
)

-- The lowest binary digit of `a | b`, and the others.
pub bit_or-halves : (a b : ℕ) → bit_or a b ≡ bit_or (a / 2) (b / 2) * 2 + max (a % 2) (b % 2)
bit_or-halves zero b = omega (arith, bit_or-bitwise 0 b, bit_or-bitwise 0 (b / 2))
bit_or-halves (suc a) b = omega (
  arith,
  bit_or-bitwise (suc a) b,
  bit_or-bitwise (suc a / 2) (b / 2),
  bitwise-halves (λ b. b) max a b,
)

bit_and-zero_upto : (n a : ℕ) → a ≤ n → bit_and a 0 ≡ 0
bit_and-zero_upto n zero h = refl
bit_and-zero_upto zero (suc a) h = absurd (omega arith)
bit_and-zero_upto (suc n) (suc a) h =
    omega (arith, bit_and-halves (suc a) 0, bit_and-zero_upto n (suc a / 2) (omega arith))

bit_and-zero : (a : ℕ) → bit_and a 0 ≡ 0
bit_and-zero a = bit_and-zero_upto a a (omega arith)

-- Masks of low bits are remainders, by one more bit each time.
bit_and-one : (a : ℕ) → bit_and a 1 ≡ a % 2
bit_and-one a = omega (arith, bit_and-halves a 1, bit_and-zero (a / 2))

bit_and-three : (a : ℕ) → bit_and a 3 ≡ a % 4
bit_and-three a = omega (arith, bit_and-halves a 3, bit_and-one (a / 2))

bit_and-seven : (a : ℕ) → bit_and a 7 ≡ a % 8
bit_and-seven a = omega (arith, bit_and-halves a 7, bit_and-three (a / 2))

bit_and_le_of : (n a b : ℕ) → a ≤ n → bit_and a b ≤ a
bit_and_le_of n zero b h = omega (arith, bit_and-bitwise 0 b)
bit_and_le_of zero (suc a) b h = absurd (omega arith)
bit_and_le_of (suc n) (suc a) b h =
    omega (arith, bit_and-halves (suc a) b, bit_and_le_of n (suc a / 2) (b / 2) (omega arith))

pub bit_and_le : (a b : ℕ) → bit_and a b ≤ a
bit_and_le a b = bit_and_le_of a a b (omega arith)

pub bit_and-fifteen : (a : ℕ) → bit_and a 15 ≡ a % 16
bit_and-fifteen a = omega (arith, bit_and-halves a 15, bit_and-seven (a / 2))

bit_and-six_bits : (a : ℕ) → bit_and a 63 ≡ a % 64
bit_and-six_bits a =
    omega (arith, bit_and-halves a 63, bit_and-halves (a / 2) 31, bit_and-fifteen (a / 2 / 2))

pub bit_and-byte : (a : ℕ) → bit_and a 255 ≡ a % 256
bit_and-byte a =
    omega (arith, bit_and-halves a 255, bit_and-halves (a / 2) 127, bit_and-six_bits (a / 2 / 2))

-- A mask of low zeros: both sides move down together.
bit_and-double : (a b : ℕ) → bit_and a (b * 2) / 2 ≡ bit_and (a / 2) b
bit_and-double a b =
    let other : b * 2 / 2 ≡ b = omega arith in
    omega (arith, bit_and-halves a (b * 2), ap (bit_and (a / 2)) other)

bit_and-quad : (a b : ℕ) → bit_and a (b * 4) / 4 ≡ bit_and (a / 4) b
bit_and-quad a b =
    let up : b * 4 ≡ b * 2 * 2 = omega arith in
    let down : a / 2 / 2 ≡ a / 4 = omega arith in
    omega (
      arith,
      ap (bit_and a) up,
      ap (λ (x : ℕ). bit_and x b) down,
      bit_and-double a (b * 2),
      bit_and-double (a / 2) b,
    )

bit_and-nibble_up : (a b : ℕ) → bit_and a (b * 16) / 16 ≡ bit_and (a / 16) b
bit_and-nibble_up a b =
    let up : b * 16 ≡ b * 4 * 4 = omega arith in
    let down : a / 4 / 4 ≡ a / 16 = omega arith in
    omega (
      arith,
      ap (bit_and a) up,
      ap (λ (x : ℕ). bit_and x b) down,
      bit_and-quad a (b * 4),
      bit_and-quad (a / 4) b,
    )

pub bit_and-byte_up : (a b : ℕ) → bit_and a (b * 256) / 256 ≡ bit_and (a / 256) b
bit_and-byte_up a b =
    let up : b * 256 ≡ b * 16 * 16 = omega arith in
    let down : a / 16 / 16 ≡ a / 256 = omega arith in
    omega (
      arith,
      ap (bit_and a) up,
      ap (λ (x : ℕ). bit_and x b) down,
      bit_and-nibble_up a (b * 16),
      bit_and-nibble_up (a / 16) b,
    )

pub bit_and-half_up : (a b : ℕ) → bit_and a (b * 65536) / 65536 ≡ bit_and (a / 65536) b
bit_and-half_up a b =
    let up : b * 65536 ≡ b * 256 * 256 = omega arith in
    let down : a / 256 / 256 ≡ a / 65536 = omega arith in
    omega (
      arith,
      ap (bit_and a) up,
      ap (λ (x : ℕ). bit_and x b) down,
      bit_and-byte_up a (b * 256),
      bit_and-byte_up (a / 256) b,
    )

-- One more bit of a mask of ones.
bit_and-odd : (a k : ℕ) → bit_and a (k * 2 + 1) ≡ bit_and (a / 2) k * 2 + a % 2
bit_and-odd a k =
    let half : (k * 2 + 1) / 2 ≡ k = omega arith in
    omega (arith, bit_and-halves a (k * 2 + 1), ap (bit_and (a / 2)) half)

bit_and-ten_bits : (a : ℕ) → bit_and a 1023 ≡ a % 1024
bit_and-ten_bits a =
    omega (arith, bit_and-odd a 511, bit_and-odd (a / 2) 255, bit_and-byte (a / 2 / 2))

bit_and-twelve_bits : (a : ℕ) → bit_and a 4095 ≡ a % 4096
bit_and-twelve_bits a =
    omega (arith, bit_and-odd a 2047, bit_and-odd (a / 2) 1023, bit_and-ten_bits (a / 2 / 2))

bit_and-fourteen_bits : (a : ℕ) → bit_and a 16383 ≡ a % 16384
bit_and-fourteen_bits a =
    omega (arith, bit_and-odd a 8191, bit_and-odd (a / 2) 4095, bit_and-twelve_bits (a / 2 / 2))

pub bit_and-half_word : (a : ℕ) → bit_and a 65535 ≡ a % 65536
bit_and-half_word a =
    omega (arith, bit_and-odd a 32767, bit_and-odd (a / 2) 16383, bit_and-fourteen_bits (a / 2 / 2))
