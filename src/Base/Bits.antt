-- ===== src/Base/Bits.antt =====
-- The bit operations of C as arithmetic: masks of low bits are remainders, and joined fields that
-- do not overlap are sums.
use Prim.Native.Nat.{ℕ, zero, suc, ◌+◌, ◌-◌, ◌*◌, ◌/◌, ◌%◌, ◌^◌, ◌≤◌, ◌<◌, min, max, bit_and}
use Prim.Native.Nat.{bit_or, digits, bit_and-bitwise, bit_or-bitwise}
use mathlib.Core.Path.{◌≡◌, refl, ap}
use native.Mathlib.Nat.{pow-suc, one-le-pow, div-add-mod}
use native.Mathlib.Omega.{arith}

-- A digit loop with rounds to spare gives what one with just enough gives.
module _ (last : ℕ → ℕ) (op : ℕ → ℕ → ℕ) where
  digits-rounds :
      (m : ℕ) {n : ℕ} (a b : ℕ) → a ≤ m → a ≤ n → digits last op m a b ≡ digits last op n a b
  digits-rounds zero {n = zero} zero b hm hn = refl
  digits-rounds zero {n = suc n} zero b hm hn = refl
  digits-rounds zero (suc a) b hm hn = absurd (omega arith)
  digits-rounds (suc m) {n = zero} zero b hm hn = refl
  digits-rounds (suc m) {n = suc n} zero b hm hn = refl
  digits-rounds (suc m) {n = zero} (suc a) b hm hn = absurd (omega arith)
  digits-rounds (suc m) {n = suc n} (suc a) b hm hn =
      ap (λ d. d * 2 + op (suc a % 2) (b % 2))
        (digits-rounds m (suc a / 2) (b / 2) (omega arith) (omega arith))

  -- The lowest digit, and the rest halved.
  lowest_digit :
      (a b : ℕ)
      → digits last op (suc a) (suc a) b
        ≡ digits last op (suc a / 2) (suc a / 2) (b / 2) * 2 + op (suc a % 2) (b % 2)
  lowest_digit a b =
      ap (λ d. d * 2 + op (suc a % 2) (b % 2))
        (digits-rounds a (suc a / 2) (b / 2) (omega arith) (omega arith))

and_lowest : (a b : ℕ) → bit_and a b ≡ bit_and (a / 2) (b / 2) * 2 + min (a % 2) (b % 2)
and_lowest zero b = simp bit_and-bitwise (omega arith)
and_lowest (suc a) b = simp bit_and-bitwise (lowest_digit (λ d. 0) min a b)

or_lowest : (a b : ℕ) → bit_or a b ≡ bit_or (a / 2) (b / 2) * 2 + max (a % 2) (b % 2)
or_lowest zero b = simp bit_or-bitwise (omega arith)
or_lowest (suc a) b = simp bit_or-bitwise (lowest_digit (λ d. d) max a b)

pub zero-bit_or : (b : ℕ) → bit_or 0 b ≡ b
zero-bit_or b = simp bit_or-bitwise

-- By the number of binary digits that the mask or the low field has.
and_nothing : (bound a : ℕ) → a ≤ bound → bit_and a 0 ≡ 0
and_nothing bound zero h = refl
and_nothing zero (suc a) h = absurd (omega arith)
and_nothing (suc bound) (suc a) h =
    omega (arith, and_lowest (suc a) 0, and_nothing bound (suc a / 2) (omega arith))

or_nothing : (bound a : ℕ) → a ≤ bound → bit_or a 0 ≡ a
or_nothing bound zero h = refl
or_nothing zero (suc a) h = absurd (omega arith)
or_nothing (suc bound) (suc a) h =
    omega (arith, or_lowest (suc a) 0, or_nothing bound (suc a / 2) (omega arith))

double_field : (q k : ℕ) → 2 ^ suc k * q ≡ 2 * (2 ^ k * q)
double_field q k = omega (arith, ap (λ (p : ℕ). p * q) (pow-suc 2 k))

mask_field : (k q r : ℕ) → r < 2 ^ k → bit_and (2 ^ k * q + r) (2 ^ k - 1) ≡ r
mask_field zero q r h = ground (arith, and_nothing (1 * q + r) (1 * q + r) (omega arith))
mask_field (suc k) q r h = ground (
  arith,
  and_lowest (2 ^ suc k * q + r) (2 ^ suc k - 1),
  double_field q k,
  pow-suc 2 k,
  mask_field k q (r / 2) (omega (arith, pow-suc 2 k)),
)

-- `a & (2^k - 1)`
pub bit_and_low : (k a : ℕ) → bit_and a (2 ^ k - 1) ≡ a % 2 ^ k
bit_and_low k a = ground (
  arith,
  one-le-pow k 2,
  div-add-mod a (2 ^ k),
  mask_field k (a / 2 ^ k) (a % 2 ^ k) (omega (arith, one-le-pow k 2)),
)

-- `hi | lo`, where `lo` has at most the k bits that are clear in `hi`
pub bit_or_join : (k q r : ℕ) → r < 2 ^ k → bit_or (2 ^ k * q) r ≡ 2 ^ k * q + r
bit_or_join zero q r h = ground (arith, or_nothing (1 * q) (1 * q) (omega arith))
bit_or_join (suc k) q r h = ground (
  arith,
  or_lowest (2 ^ suc k * q) r,
  double_field q k,
  bit_or_join k q (r / 2) (omega (arith, pow-suc 2 k)),
)

or_swap : (bound a b : ℕ) → a ≤ bound → b ≤ bound → bit_or a b ≡ bit_or b a
or_swap zero zero zero h k = refl
or_swap zero zero (suc b) h k = absurd (omega arith)
or_swap zero (suc a) b h k = absurd (omega arith)
or_swap (suc bound) a b h k =
    omega (
      arith,
      or_lowest a b,
      or_lowest b a,
      or_swap bound (a / 2) (b / 2) (omega arith) (omega arith),
    )

pub bit_or_comm : (a b : ℕ) → bit_or a b ≡ bit_or b a
bit_or_comm a b = or_swap (a + b) a b (omega arith) (omega arith)
