-- ===== src/Bignum/Field.antt =====
-- kernel/bignum.h: bn_addmod and bn_submod on reduced numbers.
use native.Mathlib.Nat.{mod-eq_of_lt, add-mod_left}
use mini_win.Base.{ℕ, zero, suc, ◌+◌, ◌-◌, ◌%◌, ◌≤◌, ◌<◌, min, ◌≡◌, ap, ◌∙◌, inl, inr, List, []}
use mini_win.Base.{◌∷◌, arith, take}
use mini_win.Bignum.{limbs, used_limbs, bn_sub, bn_add, bn_addmod, bn_submod}
use mini_win.Bignum.Value.{value, capacity, HasLimbs, bn_ge_iff, value-add_from}
use mini_win.Bignum.Value.{add_from-HasLimbs, value-sub_from, sub_from-HasLimbs}
use mini_win.Bignum.Reduce.{IsModulus, subtract_once, work_room}

capacity-take-le : (k : ℕ) (xs : List ℕ) → capacity (take k xs) ≤ capacity xs
capacity-take-le zero [] = omega arith
capacity-take-le zero (x ∷ xs) = omega (arith, capacity-take-le zero xs)
capacity-take-le (suc k) [] = omega arith
capacity-take-le (suc k) (x ∷ xs) = omega (arith, capacity-take-le k xs)

add-value :
    (a b m : List ℕ)
    → HasLimbs limbs a
    → HasLimbs limbs b
    → IsModulus m
    → value a < value m
    → value b < value m
    → HasLimbs limbs (bn_add a b) × (value (bn_add a b) ≡ value a + value b)
unfolding bn_add
add-value a b m (la, ha) (lb, hb) w x y =
    let (l, h) = add_from-HasLimbs 0 a b (omega (arith, la, lb)) in
    (
      (omega (arith, l, la), h),
      value-add_from 0 a b (omega (arith, la, lb)) (
            omega
              (arith, x, y, work_room m a w la, capacity-take-le (min (used_limbs m + 1) limbs) a))
          ∙ omega arith,
    )

-- bn_addmod of two numbers below a modulus that is not zero and whose top limb is zero gives their
-- sum modulo it.
pub bn_addmod-value :
    (a b m : List ℕ)
    → HasLimbs limbs a
    → HasLimbs limbs b
    → IsModulus m
    → value a < value m
    → value b < value m
    → HasLimbs limbs (bn_addmod a b m) × (value (bn_addmod a b m) ≡ (value a + value b) % value m)
unfolding bn_addmod
bn_addmod-value a b m ha hb w x y =
    let (k, e) = add-value a b m ha hb w x y in
    let (g, f) = subtract_once (bn_add a b) m k w.shape (omega (arith, e, x, y)) in
    (g, f ∙ ap (λ n. n % value m) e)

sub-value :
    (a b : List ℕ)
    → HasLimbs limbs a
    → HasLimbs limbs b
    → value b ≤ value a
    → HasLimbs limbs (bn_sub a b) × (value (bn_sub a b) ≡ value a - value b)
unfolding bn_sub
sub-value a b (la, ha) (lb, hb) le =
    let (l, h) = sub_from-HasLimbs 0 a b (omega (arith, la, lb)) (omega arith) ha hb in
    (
      (omega (arith, l, la), h),
      omega (
        arith,
        value-sub_from 0 a b (omega (arith, la, lb)) ha hb (omega arith) (omega (arith, le)),
      ),
    )

-- bn_submod of two numbers below a modulus that is not zero and whose top limb is zero gives a
-- number below it that, with the second one added, is the first one modulo it.
pub bn_submod-value :
    (a b m : List ℕ)
    → HasLimbs limbs a
    → HasLimbs limbs b
    → IsModulus m
    → value a < value m
    → value b < value m
    → HasLimbs limbs (bn_submod a b m)
      × (value (bn_submod a b m) < value m)
      × ((value (bn_submod a b m) + value b) % value m ≡ value a)
unfolding bn_submod
bn_submod-value a b m ha hb w x y = elim (bn_ge_iff a b ha.1 hb.1 (omega (arith, ha.0, hb.0))) [
  | inl (e, le) ↦
      let (k, f) = sub-value a b ha hb le in
      rw e (
        k,
        omega (arith, f, x),
        ap (λ n. n % value m) {x = value (bn_sub a b) + value b} {y = value a}
              (omega (arith, f, le))
            ∙ mod-eq_of_lt x,
      )
  | inr (e, lt) ↦
      let (k, f) = sub-value b a hb ha (omega (arith, lt)) in
      let (g, d) = sub-value m (bn_sub b a) w.shape k (omega (arith, f, y)) in
      rw e (
        g,
        omega (arith, d, f, lt, y),
        ap (λ n. n % value m) {x = value (bn_sub m (bn_sub b a)) + value b} {y = value m + value a}
              (omega (arith, d, f, lt, y))
            ∙ add-mod_left (value m) (value a)
            ∙ mod-eq_of_lt x,
      )
]
