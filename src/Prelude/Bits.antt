-- ===== src/Prelude/Bits.antt =====
-- The bit operations at variables, where they pick out or join the fields of a word.
use Prim.Native.Nat.{
  ℕ, zero, suc, ◌+◌, ◌-◌, ◌*◌, ◌/◌, ◌%◌, ◌^◌, ◌≤◌, ◌<◌, min, max, bit_and, bit_or, digits,
  bit_and-bitwise, bit_or-bitwise,
}
use mathlib.Core.Path.{◌≡◌, refl, ap, ◌∙◌}
use native.Mathlib.Omega.{arith}

-- `x >> k`.
abbrev pub shr : ℕ → ℕ → ℕ
shr x k = x / 2 ^ k

-- Once the rounds of the digit recursion cover the first number, more of them change nothing.
module _ (rest : ℕ → ℕ) (join : ℕ → ℕ → ℕ) where
  one_more : (n x y : ℕ) → x ≤ n → digits rest join (suc n) x y ≡ digits rest join n x y
  one_more zero zero y h = refl
  one_more zero (suc x) y h = absurd (omega arith)
  one_more (suc n) zero y h = refl
  one_more (suc n) (suc x) y h = rw (one_more n (suc x / 2) (y / 2) (omega arith))

  settled : (k m n x y : ℕ) → m ≡ n + k → x ≤ n → digits rest join m x y ≡ digits rest join n x y
  settled zero m n x y e h = let same : m ≡ n = omega arith in rw same
  settled (suc k) zero n x y e h = absurd (omega arith)
  settled (suc k) (suc m) n x y e h =
      one_more m x y (omega arith) ∙ settled k m n x y (omega arith) h

  -- So the lowest digit comes off, at the number of rounds that the operations use.
  digits_halve :
      (x y : ℕ)
      → digits rest join (suc x) (suc x) y
        ≡ digits rest join (suc x / 2) (suc x / 2) (y / 2) * 2 + join (suc x % 2) (y % 2)
  digits_halve x y =
      ap (λ t. t * 2 + join (suc x % 2) (y % 2))
        (settled (x - suc x / 2) x (suc x / 2) (suc x / 2) (y / 2) (omega arith) (omega arith))

pub bit_and_halve : (x y : ℕ) → bit_and x y ≡ bit_and (x / 2) (y / 2) * 2 + min (x % 2) (y % 2)
bit_and_halve zero y = simp bit_and-bitwise (omega arith)
bit_and_halve (suc x) y = simp bit_and-bitwise (digits_halve (λ _. 0) min x y)

pub bit_or_halve : (x y : ℕ) → bit_or x y ≡ bit_or (x / 2) (y / 2) * 2 + max (x % 2) (y % 2)
bit_or_halve zero y = simp bit_or-bitwise (omega arith)
bit_or_halve (suc x) y = simp bit_or-bitwise (digits_halve (λ t. t) max x y)

-- By recursion on a bound for the number.
zero_laws : (n a : ℕ) → a ≤ n → (bit_and a 0 ≡ 0) × (bit_or a 0 ≡ a)
zero_laws n zero h = (refl, refl)
zero_laws zero (suc a) h = absurd (omega arith)
zero_laws (suc n) (suc a) h =
    let ih = zero_laws n (suc a / 2) (omega arith) in
    (omega (arith, bit_and_halve (suc a) 0, ih.0), omega (arith, bit_or_halve (suc a) 0, ih.1))

-- Masks of one, three, four and eight low bits.
pub bit_and_one : (a : ℕ) → bit_and a 1 ≡ a % 2
bit_and_one a =
    let nothing = (zero_laws (a / 2) (a / 2) (omega arith)).0 in
    omega (arith, nothing, bit_and_halve a 1)

pub bit_and_0x07 : (a : ℕ) → bit_and a 0x07 ≡ a % 8
bit_and_0x07 a =
    let two : bit_and (a / 2) 0x03 ≡ a / 2 % 4 =
      omega (arith, bit_and_one (a / 2 / 2), bit_and_halve (a / 2) 0x03) in
    omega (arith, two, bit_and_halve a 0x07)

pub bit_and_0x0f : (a : ℕ) → bit_and a 0x0F ≡ a % 16
bit_and_0x0f a = omega (arith, bit_and_0x07 (a / 2), bit_and_halve a 0x0F)

pub bit_and_0xff : (a : ℕ) → bit_and a 0xFF ≡ a % 256
bit_and_0xff a =
    let h = a / 2 in
    let five = bit_and_halve (h / 2 / 2) 0x1F in
    let six = bit_and_halve (h / 2) 0x3F in
    let seven = bit_and_halve h 0x7F in
    omega (arith, five, six, seven, bit_and_halve a 0xFF, bit_and_0x0f (h / 2 / 2 / 2))

-- A mask above three bits that it clears, and the masks that the programs use.
bit_and_above3 : (a m : ℕ) → bit_and a (m * 8) ≡ bit_and (a / 8) m * 8
bit_and_above3 a m = ground (
  arith,
  bit_and_halve a (m * 8),
  bit_and_halve (a / 2) (m * 8 / 2),
  bit_and_halve (a / 2 / 2) (m * 8 / 2 / 2),
)

pub bit_and_0xf0 : (a : ℕ) → bit_and a 0xF0 ≡ a / 16 % 16 * 16
bit_and_0xf0 a =
    omega (arith, bit_and_halve a 0xF0, bit_and_above3 (a / 2) 15, bit_and_0x0f (a / 2 / 8))

pub bit_and_0x38 : (a : ℕ) → bit_and a 0x38 ≡ a / 8 % 8 * 8
bit_and_0x38 a = omega (arith, bit_and_above3 a 7, bit_and_0x07 (a / 8))

pub bit_and_0x1c0 : (a : ℕ) → bit_and a 0x1C0 ≡ a / 64 % 8 * 64
bit_and_0x1c0 a =
    omega (arith, bit_and_above3 a 0x38, bit_and_above3 (a / 8) 7, bit_and_0x07 (a / 8 / 8))

pub bit_and_0x0e00 : (a : ℕ) → bit_and a 0x0E00 ≡ a / 512 % 8 * 512
bit_and_0x0e00 a = omega (
  arith,
  bit_and_above3 a 0x1C0,
  bit_and_above3 (a / 8) 0x38,
  bit_and_above3 (a / 8 / 8) 7,
  bit_and_0x07 (a / 8 / 8 / 8),
)

pub bit_and_0xf000 : (a : ℕ) → bit_and a 0xF000 ≡ a / 4096 % 16 * 4096
bit_and_0xf000 a = omega (
  arith,
  bit_and_above3 a 0x1E00,
  bit_and_above3 (a / 8) 0x3C0,
  bit_and_above3 (a / 8 / 8) 0x78,
  bit_and_above3 (a / 8 / 8 / 8) 15,
  bit_and_0x0f (a / 8 / 8 / 8 / 8),
)

pub bit_and_0xff00 : (a : ℕ) → bit_and a 0xFF00 ≡ a / 256 % 256 * 256
bit_and_0xff00 a = omega (
  arith,
  bit_and_halve a 0xFF00,
  bit_and_halve (a / 2) 0x7F80,
  bit_and_above3 (a / 2 / 2) 0x7F8,
  bit_and_above3 (a / 2 / 2 / 8) 0xFF,
  bit_and_0xff (a / 2 / 2 / 8 / 8),
)

pub bit_and_0x8000 : (a : ℕ) → bit_and a 0x8000 ≡ a / 32768 % 2 * 32768
bit_and_0x8000 a = omega (
  arith,
  bit_and_above3 a 0x1000,
  bit_and_above3 (a / 8) 0x200,
  bit_and_above3 (a / 8 / 8) 0x40,
  bit_and_above3 (a / 8 / 8 / 8) 8,
  bit_and_above3 (a / 8 / 8 / 8 / 8) 1,
  bit_and_one (a / 8 / 8 / 8 / 8 / 8),
)

pub bit_and_0x0800 : (a : ℕ) → bit_and a 0x0800 ≡ a / 2048 % 2 * 2048
bit_and_0x0800 a = omega (
  arith,
  bit_and_above3 a 0x100,
  bit_and_above3 (a / 8) 0x20,
  bit_and_above3 (a / 8 / 8) 4,
  bit_and_halve (a / 8 / 8 / 8) 4,
  bit_and_halve (a / 8 / 8 / 8 / 2) 2,
  bit_and_one (a / 8 / 8 / 8 / 2 / 2),
)

pub bit_and_0x0400 : (a : ℕ) → bit_and a 0x0400 ≡ a / 1024 % 2 * 1024
bit_and_0x0400 a = omega (
  arith,
  bit_and_above3 a 0x80,
  bit_and_above3 (a / 8) 0x10,
  bit_and_above3 (a / 8 / 8) 2,
  bit_and_halve (a / 8 / 8 / 8) 2,
  bit_and_one (a / 8 / 8 / 8 / 2),
)

-- Fields that share no bit are joined by `|` as by `+`.
bit_or_above2 : (a m : ℕ) → bit_or a (m * 4) ≡ bit_or (a / 4) m * 4 + a % 4
bit_or_above2 a m = ground (arith, bit_or_halve a (m * 4), bit_or_halve (a / 2) (m * 4 / 2))

bit_or_above4 : (a m : ℕ) → bit_or a (m * 16) ≡ bit_or (a / 16) m * 16 + a % 16
bit_or_above4 a m = ground (arith, bit_or_above2 a (m * 4), bit_or_above2 (a / 4) m)

zero-bit_or : (a : ℕ) → bit_or 0 a ≡ a
zero-bit_or a = bit_or-bitwise 0 a

pub bit_or_byte : (lo hi : ℕ) → lo < 256 → bit_or lo (hi * 256) ≡ hi * 256 + lo
bit_or_byte lo hi h =
    ground (arith, bit_or_above4 lo (hi * 16), bit_or_above4 (lo / 16) hi, zero-bit_or hi)
