-- ===== src/Prelude/Bits.antt =====
-- The bit operations of C at variables: what each does to one bit, and masks as remainders.
use Prim.Native.Nat.{
  ℕ, zero, suc, ◌+◌, ◌-◌, ◌*◌, ◌/◌, ◌%◌, ◌^◌, ◌≤◌, ◌<◌, min, max, bit_and, bit_or, digits, bitwise,
  bit_and-bitwise, bit_or-bitwise,
}
use mathlib.Core.Path.{◌≡◌, refl}
use native.Mathlib.Nat.{pow-suc, one-le-pow}
use native.Mathlib.Omega.{arith}

-- Bit `k` of `n`, as 0 or 1.
abbrev pub bit_at : ℕ → ℕ → ℕ
bit_at n zero = n % 2
bit_at n (suc k) = bit_at (n / 2) k

module _ (z : ℕ → ℕ) (f : ℕ → ℕ → ℕ) where
  -- The digits do not depend on the fuel that exceeds the number.
  digits_enough : (n m a b : ℕ) → a ≤ n → a ≤ m → digits z f n a b ≡ digits z f m a b
  digits_enough zero zero a b p q = refl
  digits_enough zero (suc m) zero b p q = refl
  digits_enough zero (suc m) (suc a) b p q = absurd (omega arith)
  digits_enough (suc n) zero zero b p q = refl
  digits_enough (suc n) zero (suc a) b p q = absurd (omega arith)
  digits_enough (suc n) (suc m) zero b p q = refl
  digits_enough (suc n) (suc m) (suc a) b p q =
      rw (digits_enough n m (suc a / 2) (b / 2) (omega arith) (omega arith))

  bitwise_low :
      (a b : ℕ)
      → bitwise z f (suc a) b ≡ bitwise z f (suc a / 2) (b / 2) * 2 + f (suc a % 2) (b % 2)
  bitwise_low a b =
      omega (arith, digits_enough a (suc a / 2) (suc a / 2) (b / 2) (omega arith) (omega arith))

pub bit_or_low : (a b : ℕ) → bit_or a b ≡ bit_or (a / 2) (b / 2) * 2 + max (a % 2) (b % 2)
bit_or_low zero b = simp bit_or-bitwise (omega arith)
bit_or_low (suc a) b = simp bit_or-bitwise (bitwise_low (λ y. y) max a b)

pub bit_and_low : (a b : ℕ) → bit_and a b ≡ bit_and (a / 2) (b / 2) * 2 + min (a % 2) (b % 2)
bit_and_low zero b = simp bit_and-bitwise (omega arith)
bit_and_low (suc a) b = simp bit_and-bitwise (bitwise_low (λ y. 0) min a b)

-- `|` and `&` act on each bit by itself.
pub bit_at-bit_or : (a b k : ℕ) → bit_at (bit_or a b) k ≡ max (bit_at a k) (bit_at b k)
bit_at-bit_or a b zero = omega (arith, bit_or_low a b)
bit_at-bit_or a b (suc k) =
    let half : bit_or a b / 2 ≡ bit_or (a / 2) (b / 2) = omega (arith, bit_or_low a b) in
    rw half (bit_at-bit_or (a / 2) (b / 2) k)

pub bit_at-bit_and : (a b k : ℕ) → bit_at (bit_and a b) k ≡ min (bit_at a k) (bit_at b k)
bit_at-bit_and a b zero = omega (arith, bit_and_low a b)
bit_at-bit_and a b (suc k) =
    let half : bit_and a b / 2 ≡ bit_and (a / 2) (b / 2) = omega (arith, bit_and_low a b) in
    rw half (bit_at-bit_and (a / 2) (b / 2) k)

pub bit_at-le_one : (n k : ℕ) → bit_at n k ≤ 1
bit_at-le_one n zero = omega arith
bit_at-le_one n (suc k) = bit_at-le_one (n / 2) k

-- In a complement of `w` bits every bit below `w` is flipped.
pub bit_at_complement : (w n k : ℕ) → n < 2 ^ w → k < w → bit_at (2 ^ w - 1 - n) k + bit_at n k ≡ 1
bit_at_complement zero n k h hk = absurd (omega arith)
bit_at_complement (suc w) n zero h hk = omega (arith, pow-suc 2 w, one-le-pow w 2)
bit_at_complement (suc w) n (suc k) h hk =
    let half : (2 ^ suc w - 1 - n) / 2 ≡ 2 ^ w - 1 - n / 2 =
      omega (arith, pow-suc 2 w, one-le-pow w 2) in
    rw half (bit_at_complement w (n / 2) k (omega (arith, pow-suc 2 w)) (omega arith))

bit_and-zero_below : (n a : ℕ) → a ≤ n → bit_and a 0 ≡ 0
bit_and-zero_below n zero h = bit_and-bitwise 0 0
bit_and-zero_below zero (suc a) h = absurd (omega arith)
bit_and-zero_below (suc n) (suc a) h =
    omega (arith, bit_and_low (suc a) 0, bit_and-zero_below n (suc a / 2) (omega arith))

pub bit_and-zero : (a : ℕ) → bit_and a 0 ≡ 0
bit_and-zero a = bit_and-zero_below a a (omega arith)

bit_or-zero_below : (n a : ℕ) → a ≤ n → bit_or a 0 ≡ a
bit_or-zero_below n zero h = bit_or-bitwise 0 0
bit_or-zero_below zero (suc a) h = absurd (omega arith)
bit_or-zero_below (suc n) (suc a) h =
    omega (arith, bit_or_low (suc a) 0, bit_or-zero_below n (suc a / 2) (omega arith))

pub bit_or-zero : (a : ℕ) → bit_or a 0 ≡ a
bit_or-zero a = bit_or-zero_below a a (omega arith)

-- A shift by one bit more.
shift-suc : (k x : ℕ) → x * 2 ^ suc k ≡ x * 2 ^ k + x * 2 ^ k
shift-suc k x = let power = pow-suc 2 k in rw power (omega arith)

-- A value below the shifted one is added by `|`.
pub bit_or_disjoint : (k q r : ℕ) → r < 2 ^ k → bit_or r (q * 2 ^ k) ≡ q * 2 ^ k + r
bit_or_disjoint zero q r h = ground (arith, bit_or-bitwise 0 q)
bit_or_disjoint (suc k) q r h =
    let high = shift-suc k q in
    let halves = bit_or_disjoint k q (r / 2) (omega (arith, pow-suc 2 k)) in
    let lowest = bit_or_low r (q * 2 ^ suc k) in ground (arith, halves, high, lowest)

-- With a mask of ones the bits above it are dropped, and those below it kept.
masked_field : (high low k : ℕ) → low < 2 ^ k → bit_and (high * 2 ^ k + low) (2 ^ k - 1) ≡ low
masked_field high low zero h = omega (arith, bit_and-zero (high * 2 ^ 0 + low))
masked_field high low (suc k) h =
    let halves = masked_field high (low / 2) k (omega (arith, pow-suc 2 k)) in
    let lowest = bit_and_low (high * 2 ^ suc k + low) (2 ^ suc k - 1) in
    ground (arith, halves, lowest, one-le-pow k 2, pow-suc 2 k, shift-suc k high)

-- A mask of `k` ones keeps the remainder by `2 ^ k`.
pub bit_and_mask : (k a : ℕ) → bit_and a (2 ^ k - 1) ≡ a % 2 ^ k
bit_and_mask k a =
    let field = masked_field (a / 2 ^ k) (a % 2 ^ k) k in ground (arith, field, one-le-pow k 2)

bit_and-le_below : (n a b : ℕ) → b ≤ n → bit_and a b ≤ b
bit_and-le_below n a zero h = omega (arith, bit_and-zero a)
bit_and-le_below zero a (suc b) h = absurd (omega arith)
bit_and-le_below (suc n) a (suc b) h =
    omega (arith, bit_and_low a (suc b), bit_and-le_below n (a / 2) (suc b / 2) (omega arith))

pub bit_and-le : (a b : ℕ) → bit_and a b ≤ b
bit_and-le a b = bit_and-le_below b a b (omega arith)

-- `|` of two words of `w` bits is a word of `w` bits.
pub bit_or-lt : (w a b : ℕ) → a < 2 ^ w → b < 2 ^ w → bit_or a b < 2 ^ w
bit_or-lt zero zero zero ha hb = omega (arith, bit_or-zero 0)
bit_or-lt zero (suc a) b ha hb = absurd (omega arith)
bit_or-lt zero zero (suc b) ha hb = absurd (omega arith)
bit_or-lt (suc w) a b ha hb = omega (
  arith,
  pow-suc 2 w,
  bit_or_low a b,
  bit_or-lt w (a / 2) (b / 2) (omega (arith, pow-suc 2 w)) (omega (arith, pow-suc 2 w)),
)

pub bit_at_zero : (k : ℕ) → bit_at 0 k ≡ 0
bit_at_zero zero = refl
bit_at_zero (suc k) = bit_at_zero k

-- A mask of `n` ones has every bit below `n`.
pub bit_at_ones : (n k : ℕ) → k < n → bit_at (2 ^ n - 1) k ≡ 1
bit_at_ones n k h =
    let whole : 2 ^ n - 1 - 0 ≡ 2 ^ n - 1 = omega arith in
    let flipped = bit_at_complement n 0 k (omega (arith, one-le-pow n 2)) h in
    omega (arith, rw whole at flipped, bit_at_zero k)

pub pow_mono : (n m : ℕ) → n ≤ m → 2 ^ n ≤ 2 ^ m
pow_mono n zero h = ground arith
pow_mono zero (suc m) h = omega (arith, one-le-pow (suc m) 2)
pow_mono (suc n) (suc m) h = omega (arith, pow-suc 2 n, pow-suc 2 m, pow_mono n m (omega arith))

-- Clearing `n` low bits by `&= ~mask` leaves them 0.
pub bit_at_cleared :
    (v n k : ℕ) → n ≤ 32 → k < n → bit_at (bit_and v (2 ^ 32 - 1 - (2 ^ n - 1))) k ≡ 0
bit_at_cleared v n k h hk = omega (
  arith,
  bit_at-bit_and v (2 ^ 32 - 1 - (2 ^ n - 1)) k,
  bit_at_complement 32 (2 ^ n - 1) k (omega (arith, pow_mono n 32 h, one-le-pow n 2)) (omega arith),
  bit_at_ones n k hk,
)

-- A mask of one bit keeps that bit.
pub bit_and_flag : (k a : ℕ) → bit_and a (1 * 2 ^ k) ≡ bit_at a k * 2 ^ k
bit_and_flag zero a = omega (arith, bit_and_mask 1 a)
bit_and_flag (suc k) a = ground (
  arith,
  bit_and_low a (1 * 2 ^ suc k),
  shift-suc k 1,
  shift-suc k (bit_at (a / 2) k),
  bit_and_flag k (a / 2),
)

bit_or_comm_below : (n a b : ℕ) → a + b ≤ n → bit_or a b ≡ bit_or b a
bit_or_comm_below n zero zero h = refl
bit_or_comm_below zero zero (suc b) h = absurd (omega arith)
bit_or_comm_below zero (suc a) b h = absurd (omega arith)
bit_or_comm_below (suc n) a b h =
    ground (arith, bit_or_low a b, bit_or_low b a, bit_or_comm_below n (a / 2) (b / 2))

pub bit_or_comm : (a b : ℕ) → bit_or a b ≡ bit_or b a
bit_or_comm a b = bit_or_comm_below (a + b) a b (omega arith)
