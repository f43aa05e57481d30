-- ===== src/Bignum/Mul.antt =====
-- kernel/bignum.h: bn_mul_wide is multiplication.
use mini_win.Base.{replicate, length-append, ◌++◌, take, drop, ℕ, ◌+◌, ◌*◌, ◌/◌, ◌<◌, ◌≡◌, refl}
use mini_win.Base.{◌∙◌, inl, inr, List, [], ◌∷◌, arith, ◌==◌, Bool-cases, length}
use mini_win.Bignum.{radix, limbs, used_limbs, carry_on, mul_row, mul_rows, bn_mul_wide}
use mini_win.Bignum.Value.{value, capacity, IsLimbs, HasLimbs, value-take_used, capacity-append}
use mini_win.Bignum.Value.{value-zeros, zeros-HasLimbs, value-lt, capacity-length}

product-lt : (a b p q : ℕ) → a < p → b < q → a * b < p * q
product-lt a b p q h k = grind arith

value-carry_on :
    (c : ℕ) (rs : List ℕ) → value rs + c < capacity rs → value (carry_on c rs) ≡ value rs + c
unfolding carry_on
value-carry_on c [] h = omega arith
value-carry_on c (r ∷ rs) h = ground (arith, value-carry_on ((r + c) / radix) rs (omega arith))

carry_on-HasLimbs : (c : ℕ) (rs : List ℕ) → IsLimbs rs → HasLimbs (length rs) (carry_on c rs)
unfolding carry_on
carry_on-HasLimbs c [] h = (refl, tt)
carry_on-HasLimbs c (r ∷ rs) h = elim (Bool-cases (c == 0)) [
  | inl e ↦ rw e (refl, h)
  | inr n ↦
      let (l, g) = carry_on-HasLimbs ((r + c) / radix) rs h.1 in
      rw n (omega (arith, l), (omega arith, g))
]

-- A row adds the limb's multiple at its place, if the result has room for the sum.
value-mul_row :
    (x : ℕ) (ys rs : List ℕ) (c : ℕ)
    → x * value ys + value rs + c < capacity rs
    → value (mul_row x ys rs c) ≡ x * value ys + value rs + c
unfolding mul_row
value-mul_row x [] rs c h = value-carry_on c rs (omega arith) ∙ omega arith
value-mul_row x (y ∷ ys) [] c h = omega arith
value-mul_row x (y ∷ ys) (r ∷ rs) c h =
    omega (arith, value-mul_row x ys rs ((x * y + r + c) / radix) (omega arith))

mul_row-HasLimbs :
    (x : ℕ) (ys rs : List ℕ) (c : ℕ) → IsLimbs rs → HasLimbs (length rs) (mul_row x ys rs c)
unfolding mul_row
mul_row-HasLimbs x [] rs c h = carry_on-HasLimbs c rs h
mul_row-HasLimbs x (y ∷ ys) [] c h = (refl, tt)
mul_row-HasLimbs x (y ∷ ys) (r ∷ rs) c h =
    let (l, g) = mul_row-HasLimbs x ys rs ((x * y + r + c) / radix) h.1 in
    (omega (arith, l), (omega arith, g))

Adds : List ℕ → List ℕ → List ℕ → Type 0
Adds xs ys rs =
    IsLimbs rs
    → value xs * value ys + value rs < capacity rs
    → value (mul_rows xs ys rs) ≡ value xs * value ys + value rs

-- After the first row, its lowest limb stays.
after_row :
    (x : ℕ) (xs ys rs rs' : List ℕ)
    → HasLimbs (length rs) rs'
    → value rs' ≡ x * value ys + value rs
    → value (x ∷ xs) * value ys + value rs < capacity rs
    → ((t : List ℕ) → Adds xs ys t)
    → value (take 1 rs' ++ mul_rows xs ys (drop 1 rs')) ≡ value (x ∷ xs) * value ys + value rs
unfolding Adds
after_row x xs ys rs [] (l, h) e room more = omega (
  arith,
  e,
  capacity-length rs [] (omega (arith, l)),
  more [] tt (omega (arith, capacity-length rs [] (omega (arith, l)))),
)
after_row x xs ys rs (r ∷ t) (l, h) e room more =
    omega (arith, e, more t h.1 (omega (arith, e, capacity-length rs (r ∷ t) (omega (arith, l)))))

-- The rows add up, from the limb `i` on, to the product.
value-mul_rows : (xs ys rs : List ℕ) → Adds xs ys rs
unfolding mul_rows Adds
value-mul_rows [] ys rs h room = omega arith
value-mul_rows (x ∷ xs) ys rs h room = elim (Bool-cases (x == 0)) [
  | inl z ↦ rw z (after_row x xs ys rs rs (refl, h) (ground (arith, z)) room (value-mul_rows xs ys))
  | inr n ↦ rw n (
      after_row x xs ys rs (mul_row x ys rs 0) (mul_row-HasLimbs x ys rs 0 h)
        (value-mul_row x ys rs 0 (omega arith) ∙ omega arith) room (value-mul_rows xs ys))
]

mul_rows-HasLimbs : (xs ys rs : List ℕ) → IsLimbs rs → HasLimbs (length rs) (mul_rows xs ys rs)
unfolding mul_rows
mul_rows-HasLimbs [] ys rs h = (refl, h)
mul_rows-HasLimbs (x ∷ xs) ys rs h = elim (Bool-cases (x == 0)) [
  | inl z ↦ rw z (kept rs rs (refl, h) (mul_rows-HasLimbs xs ys))
  | inr n ↦
      rw n (kept rs (mul_row x ys rs 0) (mul_row-HasLimbs x ys rs 0 h) (mul_rows-HasLimbs xs ys))
]
  where
    kept :
        (rs rs' : List ℕ)
        → HasLimbs (length rs) rs'
        → ((t : List ℕ) → IsLimbs t → HasLimbs (length t) (mul_rows xs ys t))
        → HasLimbs (length rs) (take 1 rs' ++ mul_rows xs ys (drop 1 rs'))
    kept rs [] (l, h) more = let (k, g) = more [] tt in (omega (arith, l, k), g)
    kept rs (r ∷ t) (l, h) more = let (k, g) = more t h.1 in (omega (arith, l, k), (h.0, g))

wide_zero : List ℕ
wide_zero = replicate (2 * limbs) 0

-- bn_mul_wide of two numbers of BIGNUM_LIMBS limbs gives their product, in twice as many limbs.
pub bn_mul_wide-value :
    (xs ys : List ℕ)
    → HasLimbs limbs xs
    → HasLimbs limbs ys
    → HasLimbs (2 * limbs) (bn_mul_wide xs ys) × (value (bn_mul_wide xs ys) ≡ value xs * value ys)
unfolding bn_mul_wide wide_zero Adds
bn_mul_wide-value xs ys (lx, hx) (ly, hy) = (
  (omega (arith, shape.0, zeros.0), shape.1),
  value-mul_rows (take (used_limbs xs) xs) (take (used_limbs ys) ys) wide_zero zeros.1 room
      ∙ rw (value-take_used xs, value-take_used ys, no_value) (omega arith),
)
  where
    zeros : HasLimbs (2 * limbs) wide_zero
    zeros = zeros-HasLimbs (2 * limbs)

    no_value : value wide_zero ≡ 0
    no_value = value-zeros (2 * limbs)

    shape : HasLimbs (length wide_zero) (bn_mul_wide xs ys)
    shape = mul_rows-HasLimbs (take (used_limbs xs) xs) (take (used_limbs ys) ys) wide_zero zeros.1

    room :
        value (take (used_limbs xs) xs) * value (take (used_limbs ys) ys) + value wide_zero
        < capacity wide_zero
    room =
        rw (value-take_used xs, value-take_used ys, no_value)
          (omega (
            arith,
            product-lt (value xs) (value ys) (capacity xs) (capacity ys) (value-lt xs hx)
                (value-lt ys hy),
            capacity-append xs ys,
            capacity-length (xs ++ ys) wide_zero
                (omega (arith, length-append xs ys, lx, ly, zeros.0)),
          ))
