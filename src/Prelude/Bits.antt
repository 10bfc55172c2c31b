-- ===== src/Prelude/Bits.antt =====
-- Machine words, and the bit operations of C on them.
use Prim.Native.Nat.{
  ℕ, zero, suc, ◌+◌, ◌*◌, ◌/◌, ◌%◌, ◌^◌, ◌≤◌, ◌<◌, max, bit_or, digits, bit_or-bitwise,
}
use mathlib.Core.Path.{◌≡◌, refl}
use native.Mathlib.Omega.{arith}
use native.Mathlib.Nat.{pow-suc}

abbrev pub u8 : ℕ → ℕ
u8 x = x % 2 ^ 8

abbrev pub u32 : ℕ → ℕ
u32 x = x % 2 ^ 32

-- `size_t` and `uint64_t`
abbrev pub u64 : ℕ → ℕ
u64 x = x % 2 ^ 64

-- Shifts.
abbrev pub shr : ℕ → ℕ → ℕ
shr x k = x / 2 ^ k

abbrev pub shl : ℕ → ℕ → ℕ
shl x k = x * 2 ^ k

-- What the digit recursion of `bit_or` gives does not depend on its bound.
abbrev or_digits : ℕ → ℕ → ℕ → ℕ
or_digits bound x y = digits (λ rest. rest) max bound x y

or_digits_bound : (k l x y : ℕ) → x ≤ k → x ≤ l → or_digits k x y ≡ or_digits l x y
or_digits_bound zero zero zero y hk hl = refl
or_digits_bound zero (suc l) zero y hk hl = refl
or_digits_bound (suc k) zero zero y hk hl = refl
or_digits_bound (suc k) (suc l) zero y hk hl = refl
or_digits_bound zero l (suc x) y hk hl = absurd (omega arith)
or_digits_bound (suc k) zero (suc x) y hk hl = absurd (omega arith)
or_digits_bound (suc k) (suc l) (suc x) y hk hl =
    omega (arith, or_digits_bound k l (suc x / 2) (y / 2) (omega arith) (omega arith))

zero-bit_or : (y : ℕ) → bit_or 0 y ≡ y
zero-bit_or y = bit_or-bitwise 0 y

pub bit_or_halves : (x y : ℕ) → bit_or x y ≡ bit_or (x / 2) (y / 2) * 2 + max (x % 2) (y % 2)
bit_or_halves zero y = omega (arith, zero-bit_or y, zero-bit_or (y / 2))
bit_or_halves (suc x) y = omega (
  arith,
  bit_or-bitwise (suc x) y,
  bit_or-bitwise (suc x / 2) (y / 2),
  or_digits_bound x (suc x / 2) (suc x / 2) (y / 2) (omega arith) (omega arith),
)

bit_or-zero_below : (k x : ℕ) → x ≤ k → bit_or x 0 ≡ x
bit_or-zero_below k zero h = zero-bit_or 0
bit_or-zero_below zero (suc x) h = absurd (omega arith)
bit_or-zero_below (suc k) (suc x) h =
    omega (arith, bit_or_halves (suc x) 0, bit_or-zero_below k (suc x / 2) (omega arith))

double_pow : (k x : ℕ) → x * 2 ^ suc k ≡ x * 2 ^ k * 2
double_pow k x = rw (pow-suc 2 k) (omega arith)

-- Or of a multiple of a power of two with a smaller number is their sum.
pub bit_or_disjoint : (k x y : ℕ) → y < 2 ^ k → bit_or (x * 2 ^ k) y ≡ x * 2 ^ k + y
bit_or_disjoint zero x zero h = omega (arith, bit_or-zero_below (x * 1) (x * 1) (omega arith))
bit_or_disjoint zero x (suc y) h = absurd (omega arith)
bit_or_disjoint (suc k) x y h =
    let less : y / 2 < 2 ^ k = omega (arith, pow-suc 2 k) in
    omega (
      arith,
      double_pow k x,
      bit_or_halves (x * 2 ^ suc k) y,
      rw (halved k x) at (bit_or_disjoint k x (y / 2) less),
    )
  where
    halved : (k x : ℕ) → x * 2 ^ k ≡ x * 2 ^ suc k / 2
    halved k x = omega (arith, double_pow k x)

-- The same where the first word is known to end in zeros.
pub bit_or-eq-add : (k x y z : ℕ) → x ≡ z * 2 ^ k → y < 2 ^ k → bit_or x y ≡ x + y
bit_or-eq-add k x y z e h = rw e (bit_or_disjoint k z y h)
