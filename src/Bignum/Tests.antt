-- ===== src/Bignum/Tests.antt =====
-- kernel/bignum.h: the theorems at small numbers.
use mini_win.Base.{ℕ, ◌%◌, ◌^◌, ◌<◌, ◌≡◌, List, [], ◌∷◌, arith, replicate}
use mini_win.Bignum.{limbs, used_limbs, bn_modpow_u32exp, bn_modpow, bn_from_bytes_be}
use mini_win.Bignum.{bn_to_bytes_be}
use mini_win.Bignum.Value.{value, HasLimbs, zeros-HasLimbs}
use mini_win.Bignum.Reduce.{IsModulus}
use mini_win.Bignum.Power.{bn_modpow_u32exp-value, bn_modpow-value}
use mini_win.Bignum.Bytes.{IsBytes, bn_to_bytes_be-bn_from_bytes_be}

-- A number of one limb.
abbrev small : ℕ → List ℕ
small n = n ∷ replicate 129 0

small-HasLimbs : (n : ℕ) → n < 2 ^ 32 → HasLimbs limbs (small n)
small-HasLimbs n h = let (l, g) = zeros-HasLimbs 129 in (omega (arith, l), (h, g))

-- The modulus 61 * 53 of the textbook example of RSA.
textbook-IsModulus : IsModulus (small 3233)
unfolding used_limbs
textbook-IsModulus = record {
  shape = small-HasLimbs 3233 (omega arith);
  positive = omega arith;
  slack = omega arith;
}

bn_modpow_u32exp-value_example :
    HasLimbs limbs (bn_modpow_u32exp (small 65) 17 (small 3233))
    × (value (bn_modpow_u32exp (small 65) 17 (small 3233))
        ≡ value (small 65) ^ 17 % value (small 3233))
bn_modpow_u32exp-value_example =
    bn_modpow_u32exp-value (small 65) 17 (small 3233) (small-HasLimbs 65 (omega arith))
      (omega arith) textbook-IsModulus (omega arith)

bn_modpow-value_example :
    HasLimbs limbs (bn_modpow (small 65) (small 17) (small 3233))
    × (value (bn_modpow (small 65) (small 17) (small 3233))
        ≡ value (small 65) ^ value (small 17) % value (small 3233))
bn_modpow-value_example =
    bn_modpow-value (small 65) (small 17) (small 3233) (small-HasLimbs 65 (omega arith))
      (small-HasLimbs 17 (omega arith)) textbook-IsModulus (omega arith)

five-IsBytes : IsBytes (1 ∷ 2 ∷ 3 ∷ 4 ∷ 5 ∷ [])
five-IsBytes = (omega arith, (omega arith, (omega arith, (omega arith, (omega arith, tt)))))

bn_to_bytes_be-bn_from_bytes_be_example :
    bn_to_bytes_be (bn_from_bytes_be (1 ∷ 2 ∷ 3 ∷ 4 ∷ 5 ∷ [])) 5 ≡ 1 ∷ 2 ∷ 3 ∷ 4 ∷ 5 ∷ []
bn_to_bytes_be-bn_from_bytes_be_example =
    bn_to_bytes_be-bn_from_bytes_be (1 ∷ 2 ∷ 3 ∷ 4 ∷ 5 ∷ []) (omega arith) five-IsBytes
