-- ===== src/Base/Int.antt =====
-- Signed integers over the native numbers, under the library's names (its ℤ stands on another ℕ).
use Prim.Native.Nat.{ℕ, suc, ◌+◌, ◌-◌, ◌≤◌}
use mathlib.Core.Path.{◌≡◌}
use mathlib.Core.Bool.{Bool}
use native.Mathlib.Omega.{arith}
use mini_win.Base.Tests.{ltb, leb, if◌then◌else◌}

-- `negsuc n` is -(n + 1).
pub data ℤ : Type 0 where
  pos : ℕ → ℤ
  negsuc : ℕ → ℤ

abbrev pub pos_part : ℤ → ℕ
pos_part (pos n) = n
pos_part (negsuc n) = 0

abbrev pub neg_part : ℤ → ℕ
neg_part (pos n) = 0
neg_part (negsuc n) = suc n

-- a - b, as an integer.
abbrev pub sub_ℕ : ℕ → ℕ → ℤ
sub_ℕ a b = if leb b a then pos (a - b) else negsuc (b - a - 1)

infixl 65 ◌+ℤ◌ ◌-ℤ◌
infix 50 ◌≤ℤ◌
abbrev pub ◌+ℤ◌ : ℤ → ℤ → ℤ
a +ℤ b = sub_ℕ (pos_part a + pos_part b) (neg_part a + neg_part b)

abbrev pub ◌-ℤ◌ : ℤ → ℤ → ℤ
a -ℤ b = sub_ℕ (pos_part a + neg_part b) (neg_part a + pos_part b)

abbrev pub ◌≤ℤ◌ : ℤ → ℤ → Type 0
a ≤ℤ b = pos_part a + neg_part b ≤ pos_part b + neg_part a

abbrev pub ltb_ℤ : ℤ → ℤ → Bool
ltb_ℤ a b = ltb (pos_part a + neg_part b) (pos_part b + neg_part a)

abbrev pub neg_ℤ : ℤ → ℤ
neg_ℤ a = sub_ℕ (neg_part a) (pos_part a)

-- The integer identities of adding an offset and taking it back.
pub sub-add-neg : (a o b : ℤ) → a +ℤ o -ℤ b +ℤ neg_ℤ o ≡ a -ℤ b
sub-add-neg (pos a) (pos o) (pos b) = ground arith
sub-add-neg (pos a) (pos o) (negsuc b) = ground arith
sub-add-neg (pos a) (negsuc o) (pos b) = ground arith
sub-add-neg (pos a) (negsuc o) (negsuc b) = ground arith
sub-add-neg (negsuc a) (pos o) (pos b) = ground arith
sub-add-neg (negsuc a) (pos o) (negsuc b) = ground arith
sub-add-neg (negsuc a) (negsuc o) (pos b) = ground arith
sub-add-neg (negsuc a) (negsuc o) (negsuc b) = ground arith

pub sub-add : (a : ℤ) (n : ℕ) → a -ℤ pos n +ℤ pos n ≡ a
sub-add (pos a) n = ground arith
sub-add (negsuc a) n = ground arith

pub add-add-neg : (a o : ℤ) (n : ℕ) → a +ℤ o +ℤ pos n +ℤ neg_ℤ o ≡ a +ℤ pos n
add-add-neg (pos a) (pos o) n = ground arith
add-add-neg (pos a) (negsuc o) n = ground arith
add-add-neg (negsuc a) (pos o) n = ground arith
add-add-neg (negsuc a) (negsuc o) n = ground arith

pub add-sub : (a : ℤ) (n : ℕ) → a +ℤ pos n -ℤ pos n ≡ a
add-sub (pos a) n = ground arith
add-sub (negsuc a) n = ground arith

pub add-neg : (a o : ℤ) → a +ℤ o +ℤ neg_ℤ o ≡ a
add-neg (pos a) (pos o) = ground arith
add-neg (pos a) (negsuc o) = ground arith
add-neg (negsuc a) (pos o) = ground arith
add-neg (negsuc a) (negsuc o) = ground arith
