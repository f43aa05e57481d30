-- ===== src/Bignum/Length.antt =====
-- kernel/bignum.h: bn_bit_length counts every bit of a number.

use mini_win.Base.{Option, false, ◌-◌, none, some, [], ◌∷◌, subst, get_or, take, ◌<◌, ℕ, zero}
use mini_win.Base.{suc, ◌+◌, ◌*◌, ◌^◌, ◌≡◌, refl, sym, ap, ◌∙◌, List, arith, ◌==◌, if◌then◌else◌}
use mini_win.Bignum.{radix, used_limbs, highest, up_to, bn_bit_length}
use mini_win.Bignum.Value.{value-take_used, value, IsLimbs}
use mini_win.Bignum.Bits.{pow_add, highest-none, highest-some, pow_pos}

top_limb-bounds :
    (k : ℕ) (xs : List ℕ) (p : ℕ)
    → IsLimbs xs
    → 0 < p
    → get_or xs k 0 < p
    → value (take (suc k) xs) < 2 ^ (k * 32) * p
top_limb-bounds zero [] p h pos lt = omega arith
top_limb-bounds zero (x ∷ xs) p h pos lt = omega arith
top_limb-bounds (suc k) [] p h pos lt = grind (arith, pow_pos (suc k * 32))
top_limb-bounds (suc k) (x ∷ xs) p h pos lt =
    subst (λ q. x + radix * value (take (suc k) xs) < q * p) {x = 2 ^ 32 * 2 ^ (k * 32)}
      {y = 2 ^ (suc k * 32)}
      (sym (pow_add 32 (k * 32)) ∙ ap (λ n. 2 ^ n) {x = 32 + k * 32} {y = suc k * 32} (omega arith))
      (omega (arith, h.0, top_limb-bounds k xs p h.1 pos lt))

limb_lt : (xs : List ℕ) (k : ℕ) → IsLimbs xs → get_or xs k 0 < radix
limb_lt [] k h = omega arith
limb_lt (x ∷ xs) zero h = h.0
limb_lt (x ∷ xs) (suc k) h = limb_lt xs k h.1

not_zero : (k : ℕ) → (suc k == 0) ≡ false
not_zero k = ground arith

one_less : (k : ℕ) → suc k - 1 ≡ k
one_less k = omega arith

joined_power : (k b : ℕ) → 2 ^ (k * 32) * 2 ^ (b + 1) ≡ 2 ^ (k * 32 + b + 1)
joined_power k b =
    sym (pow_add (k * 32) (b + 1))
    ∙ ap (λ n. 2 ^ n) {x = k * 32 + (b + 1)} {y = k * 32 + b + 1} (omega arith)

-- bn_bit_length counts enough bits.
pub bn_bit_length-bounds : (xs : List ℕ) → IsLimbs xs → value xs < 2 ^ bn_bit_length xs
unfolding bn_bit_length
bn_bit_length-bounds xs h = from_top (used_limbs xs) (value-take_used xs)
  where
    below :
        (k : ℕ) (o : Option ℕ)
        → highest 32 (get_or xs k 0) ≡ o
        → value (take (suc k) xs) ≡ value xs
        → value xs < 2 ^ up_to k o
    below k none e f = omega (
      arith,
      f,
      top_limb-bounds k xs 1 h (omega arith)
          (omega (arith, highest-none 32 (get_or xs k 0) (limb_lt xs k h) e)),
    )
    below k (some b) e f =
        subst (λ n. value xs < n) (joined_power k b)
          (omega (
            arith,
            f,
            top_limb-bounds k xs (2 ^ (b + 1)) h (pow_pos (b + 1))
                (highest-some 32 (get_or xs k 0) (limb_lt xs k h) e),
          ))

    from_top :
        (u : ℕ)
        → value (take u xs) ≡ value xs
        → value xs < 2 ^ (if u == 0 then 0 else up_to (u - 1) (highest 32 (get_or xs (u - 1) 0)))
    from_top zero e = omega (arith, e)
    from_top (suc k) e =
        subst (λ n. value xs < 2 ^ n) {x = up_to k (highest 32 (get_or xs k 0))}
          {y = if suc k == 0 then 0 else up_to (suc k - 1) (highest 32 (get_or xs (suc k - 1) 0))}
          (rw (not_zero k, one_less k) refl) (below k (highest 32 (get_or xs k 0)) refl e)
