-- ===== src/Base/Bits.antt =====
-- The bits of a word at variable positions: what `|`, `&` with a cleared bit, and `leading_zeros`
-- do to each bit.
use Prim.Native.Nat.{
  ℕ, zero, suc, ◌+◌, ◌-◌, ◌*◌, ◌/◌, ◌%◌, ◌^◌, ◌≤◌, ◌<◌, min, max, bit_and, bit_or, digits,
  bit_and-bitwise, bit_or-bitwise,
}
use mathlib.Core.Path.{◌≡◌, refl, sym, ap, ◌∙◌}
use native.Mathlib.Omega.{arith}
use native.Mathlib.Nat.{pow-suc}
use nesso.Base.Tests.{◌==◌, if◌then◌else◌}

-- Bit `k` of `w`, 0 or 1.
abbrev pub test_bit : ℕ → ℕ → ℕ
test_bit w zero = w % 2
test_bit w (suc k) = test_bit (w / 2) k

module _ (z : ℕ → ℕ) (f : ℕ → ℕ → ℕ) where
  digits-zero : (n b : ℕ) → digits z f n zero b ≡ z b
  digits-zero zero b = refl
  digits-zero (suc n) b = refl

  -- Any count of digits that the first number fits in gives the same result.
  digits_count : (n m a b : ℕ) → a ≤ n → a ≤ m → digits z f n a b ≡ digits z f m a b
  digits_count n m zero b p q = digits-zero n b ∙ sym (digits-zero m b)
  digits_count zero m (suc a) b p q = absurd (omega arith)
  digits_count (suc n) zero (suc a) b p q = absurd (omega arith)
  digits_count (suc n) (suc m) (suc a) b p q =
      ap (λ (d : ℕ). d * 2 + f (suc a % 2) (b % 2))
        (digits_count n m (suc a / 2) (b / 2) (omega arith) (omega arith))

-- The lowest digit apart from the others.
bit_and_low : (a b : ℕ) → bit_and a b ≡ bit_and (a / 2) (b / 2) * 2 + min (a % 2) (b % 2)
bit_and_low zero b = omega (arith, bit_and-bitwise 0 b, bit_and-bitwise 0 (b / 2))
bit_and_low (suc a) b = omega (
  arith,
  bit_and-bitwise (suc a) b,
  bit_and-bitwise (suc a / 2) (b / 2),
  digits_count (λ _. 0) min a (suc a / 2) (suc a / 2) (b / 2) (omega arith) (omega arith),
)

bit_or_low : (a b : ℕ) → bit_or a b ≡ bit_or (a / 2) (b / 2) * 2 + max (a % 2) (b % 2)
bit_or_low zero b = omega (arith, bit_or-bitwise 0 b, bit_or-bitwise 0 (b / 2))
bit_or_low (suc a) b = omega (
  arith,
  bit_or-bitwise (suc a) b,
  bit_or-bitwise (suc a / 2) (b / 2),
  digits_count (λ c. c) max a (suc a / 2) (suc a / 2) (b / 2) (omega arith) (omega arith),
)

test_bit-bit_and : (a b j : ℕ) → test_bit (bit_and a b) j ≡ min (test_bit a j) (test_bit b j)
test_bit-bit_and a b zero = omega (arith, bit_and_low a b)
test_bit-bit_and a b (suc j) =
    let half : bit_and a b / 2 ≡ bit_and (a / 2) (b / 2) = omega (arith, bit_and_low a b) in
    ap (λ (w : ℕ). test_bit w j) half ∙ test_bit-bit_and (a / 2) (b / 2) j

test_bit-bit_or : (a b j : ℕ) → test_bit (bit_or a b) j ≡ max (test_bit a j) (test_bit b j)
test_bit-bit_or a b zero = omega (arith, bit_or_low a b)
test_bit-bit_or a b (suc j) =
    let half : bit_or a b / 2 ≡ bit_or (a / 2) (b / 2) = omega (arith, bit_or_low a b) in
    ap (λ (w : ℕ). test_bit w j) half ∙ test_bit-bit_or (a / 2) (b / 2) j

pub test_bit-zero : (j : ℕ) → test_bit 0 j ≡ 0
test_bit-zero zero = refl
test_bit-zero (suc j) = test_bit-zero j

test_bit-pow : (k j : ℕ) → test_bit (2 ^ k) j ≡ (if k == j then 1 else 0)
test_bit-pow zero zero = refl
test_bit-pow zero (suc j) = ground (arith, test_bit-zero j)
test_bit-pow (suc k) zero = ground (arith, pow-suc 2 k)
test_bit-pow (suc k) (suc j) =
    let half : 2 ^ suc k / 2 ≡ 2 ^ k = omega (arith, pow-suc 2 k) in
    ap (λ (w : ℕ). test_bit w j) half ∙ ground (arith, test_bit-pow k j)

test_bit-le : (w j : ℕ) → test_bit w j ≤ 1
test_bit-le w zero = omega arith
test_bit-le w (suc j) = test_bit-le (w / 2) j

-- `!(1 << k)` on n bits.
abbrev pub clear_mask : ℕ → ℕ → ℕ
clear_mask n k = 2 ^ n - 1 - 2 ^ k

one-le-two-pow : (n : ℕ) → 1 ≤ 2 ^ n
one-le-two-pow zero = omega arith
one-le-two-pow (suc n) = omega (arith, pow-suc 2 n, one-le-two-pow n)

test_bit-ones : (n j : ℕ) → j < n → test_bit (2 ^ n - 1) j ≡ 1
test_bit-ones zero j h = elim h [ ]
test_bit-ones (suc n) zero h = omega (arith, pow-suc 2 n, one-le-two-pow n)
test_bit-ones (suc n) (suc j) h =
    let half : (2 ^ suc n - 1) / 2 ≡ 2 ^ n - 1 = omega (arith, pow-suc 2 n, one-le-two-pow n) in
    ap (λ (w : ℕ). test_bit w j) half ∙ test_bit-ones n j (omega arith)

pub two-pow-lt : (k n : ℕ) → k < n → 2 ^ k < 2 ^ n
two-pow-lt k zero h = elim h [ ]
two-pow-lt zero (suc n) h = omega (arith, pow-suc 2 n, one-le-two-pow n)
two-pow-lt (suc k) (suc n) h = omega (arith, pow-suc 2 n, pow-suc 2 k, two-pow-lt k n (omega arith))

test_bit-clear_mask :
    (n k j : ℕ) → k < n → j < n → test_bit (clear_mask n k) j ≡ (if k == j then 0 else 1)
test_bit-clear_mask zero k j h l = elim h [ ]
test_bit-clear_mask (suc n) zero zero h l = omega (arith, pow-suc 2 n, one-le-two-pow n)
test_bit-clear_mask (suc n) zero (suc j) h l =
    let half : (2 ^ suc n - 1 - 1) / 2 ≡ 2 ^ n - 1 = omega (arith, pow-suc 2 n, one-le-two-pow n) in
    ap (λ (w : ℕ). test_bit w j) half ∙ ground (arith, test_bit-ones n j (omega arith))
test_bit-clear_mask (suc n) (suc k) zero h l =
    ground (arith, pow-suc 2 n, pow-suc 2 k, two-pow-lt k n (omega arith))
test_bit-clear_mask (suc n) (suc k) (suc j) h l =
    let half : clear_mask (suc n) (suc k) / 2 ≡ clear_mask n k =
      omega (arith, pow-suc 2 n, pow-suc 2 k, two-pow-lt k n (omega arith)) in
    ap (λ (w : ℕ). test_bit w j) half
    ∙ ground (arith, test_bit-clear_mask n k j (omega arith) (omega arith))

-- `w |= 1 << k` sets bit `k` and no other.
pub test_bit-set :
    (w k j : ℕ) → test_bit (bit_or w (2 ^ k)) j ≡ (if k == j then 1 else test_bit w j)
test_bit-set w k j = ground (arith, test_bit-bit_or w (2 ^ k) j, test_bit-pow k j, test_bit-le w j)

-- `w &= !(1 << k)` clears bit `k` and no other.
pub test_bit-clear :
    (n w k j : ℕ)
    → k < n
    → j < n
    → test_bit (bit_and w (clear_mask n k)) j ≡ (if k == j then 0 else test_bit w j)
test_bit-clear n w k j h l =
    ground
      (arith, test_bit-bit_and w (clear_mask n k) j, test_bit-clear_mask n k j h l, test_bit-le w j)

-- `leading_zeros` of an n-bit word: zeros from bit n - 1 down to the first one.
unfoldable pub leading_zeros : ℕ → ℕ → ℕ
leading_zeros zero w = 0
leading_zeros (suc n) w = if test_bit w n == 0 then suc (leading_zeros n w) else 0

pub leading_zeros-le : (n w : ℕ) → leading_zeros n w ≤ n
unfolding leading_zeros
leading_zeros-le zero w = omega arith
leading_zeros-le (suc n) w = ground (arith, leading_zeros-le n w)

-- Above the first one all bits are zero, and it is one.
pub leading_zeros-zeros : (n w j : ℕ) → j < n → n ≤ j + leading_zeros n w → test_bit w j ≡ 0
unfolding leading_zeros
leading_zeros-zeros zero w j h l = elim h [ ]
leading_zeros-zeros (suc n) w j h l = ground (arith, leading_zeros-zeros n w j)

pub leading_zeros-one : (n w j : ℕ) → j + leading_zeros n w + 1 ≡ n → test_bit w j ≡ 1
unfolding leading_zeros
leading_zeros-one zero w j e = absurd (omega arith)
leading_zeros-one (suc n) w j e = ground (arith, leading_zeros-one n w j, test_bit-le w n)

-- A word is zero exactly when it has no one.
zero_of_zeros : (n w : ℕ) → w < 2 ^ n → ((j : ℕ) → j < n → test_bit w j ≡ 0) → w ≡ 0
zero_of_zeros zero w b h = omega arith
zero_of_zeros (suc n) w b h = omega (
  arith,
  h 0 (omega arith),
  zero_of_zeros n (w / 2) (omega (arith, pow-suc 2 n)) (λ j l. h (suc j) (omega arith)),
)

pub leading_zeros-full : (n w : ℕ) → w < 2 ^ n → leading_zeros n w ≡ n → w ≡ 0
leading_zeros-full n w b e = zero_of_zeros n w b λ j l. leading_zeros-zeros n w j l (omega arith)

pub bit_or-lt : (n a b : ℕ) → a < 2 ^ n → b < 2 ^ n → bit_or a b < 2 ^ n
bit_or-lt zero a b h l = let z : a ≡ 0 = omega arith in rw (bit_or-bitwise a b, z) l
bit_or-lt (suc n) a b h l = omega (
  arith,
  bit_or_low a b,
  pow-suc 2 n,
  bit_or-lt n (a / 2) (b / 2) (omega (arith, pow-suc 2 n)) (omega (arith, pow-suc 2 n)),
)

bit_and-zero : (b : ℕ) → bit_and 0 b ≡ 0
bit_and-zero b = bit_and-bitwise 0 b

pub bit_and-lt : (n a b : ℕ) → a < 2 ^ n → bit_and a b < 2 ^ n
bit_and-lt zero a b h =
    let z : a ≡ 0 = omega arith in omega (arith, ap (λ (c : ℕ). bit_and c b) z, bit_and-zero b)
bit_and-lt (suc n) a b h =
    omega (
      arith,
      bit_and_low a b,
      pow-suc 2 n,
      bit_and-lt n (a / 2) (b / 2) (omega (arith, pow-suc 2 n)),
    )
