-- ===== src/Bignum/Value.antt =====
-- kernel/bignum.h: what a list of limbs stands for, and the operations that go over it once.
use native.Mathlib.Decide.{dec_lt}
use mini_win.Base.{sym, ◌∙◌, zero, suc, ap, ◌⊎◌, true, false, ◌++◌, take, replicate, inl, inr}
use mini_win.Base.{Bool-cases, ℕ, ◌+◌, ◌*◌, ◌/◌, ◌≤◌, ◌<◌, ◌≡◌, refl, List, [], ◌∷◌, arith, ltb}
use mini_win.Base.{◌==◌, if◌then◌else◌, length}
use mini_win.Bignum.{radix, used_limbs, Order, less, equal, greater, bn_cmp, at_least, bn_ge}
use mini_win.Bignum.{sub_from, add_from}

-- The number that a list of limbs stands for.
abbrev pub value : List ℕ → ℕ
value [] = 0
value (x ∷ xs) = x + radix * value xs

-- One more than the largest number of as many limbs.
abbrev pub capacity : List ℕ → ℕ
capacity [] = 1
capacity (x ∷ xs) = radix * capacity xs

-- Every limb is one of 32 bits.
abbrev pub IsLimbs : List ℕ → Type 0
IsLimbs [] = Unit
IsLimbs (x ∷ xs) = (x < radix) × IsLimbs xs

pub value-lt : (xs : List ℕ) → IsLimbs xs → value xs < capacity xs
value-lt [] h = omega arith
value-lt (x ∷ xs) h = omega (arith, value-lt xs h.1, h.0)

-- How an order stands for two numbers.
abbrev pub Orders : Order → ℕ → ℕ → Type 0
Orders less a b = a < b
Orders equal a b = a ≡ b
Orders greater a b = b < a

Orders-top :
    (o : Order) (x y a b : ℕ)
    → x < radix
    → y < radix
    → Orders o a b
    → Orders
        (elim o [
          | less ↦ less
          | greater ↦ greater
          | equal ↦ if x == y then equal else if ltb x y then less else greater
        ])
        (x + radix * a)
        (y + radix * b)
Orders-top less x y a b hx hy h = omega (arith, hx, hy, h)
Orders-top greater x y a b hx hy h = omega (arith, hx, hy, h)
Orders-top equal x y a b hx hy h = elim (Bool-cases (x == y)) [
  | inl e ↦ rw e (ground (arith, h, e))
  | inr n ↦ elim (Bool-cases (ltb x y)) [
    | inl l ↦ rw (n, l) (ground (arith, h, l))
    | inr l ↦ rw (n, l) (ground (arith, h, l, n))
  ]
]

pub bn_cmp-Orders :
    (xs ys : List ℕ)
    → IsLimbs xs
    → IsLimbs ys
    → length xs ≡ length ys
    → Orders (bn_cmp xs ys) (value xs) (value ys)
unfolding bn_cmp
bn_cmp-Orders [] [] hx hy e = refl
bn_cmp-Orders [] (y ∷ ys) hx hy e = absurd (omega arith)
bn_cmp-Orders (x ∷ xs) [] hx hy e = absurd (omega arith)
bn_cmp-Orders (x ∷ xs) (y ∷ ys) hx hy e =
    Orders-top (bn_cmp xs ys) x y (value xs) (value ys) hx.0 hy.0
      (bn_cmp-Orders xs ys hx.1 hy.1 (omega arith))

-- The loop of bn_add: the sum, but for the carry out of the last limb.
pub value-add_from :
    (c : ℕ) (xs ys : List ℕ)
    → length xs ≡ length ys
    → value xs + value ys + c < capacity xs
    → value (add_from c xs ys) ≡ value xs + value ys + c
unfolding add_from
value-add_from c [] [] e h = omega arith
value-add_from c [] (y ∷ ys) e h = absurd (omega arith)
value-add_from c (x ∷ xs) [] e h = absurd (omega arith)
value-add_from c (x ∷ xs) (y ∷ ys) e h =
    omega (arith, value-add_from ((x + y + c) / radix) xs ys (omega arith) (omega arith))

pub value-sub_from :
    (c : ℕ) (xs ys : List ℕ)
    → length xs ≡ length ys
    → IsLimbs xs
    → IsLimbs ys
    → c ≤ 1
    → value ys + c ≤ value xs
    → value (sub_from c xs ys) + (value ys + c) ≡ value xs
unfolding sub_from
value-sub_from c [] [] e hx hy lt h = omega arith
value-sub_from c [] (y ∷ ys) e hx hy lt h = absurd (omega arith)
value-sub_from c (x ∷ xs) [] e hx hy lt h = absurd (omega arith)
value-sub_from c (x ∷ xs) (y ∷ ys) e hx hy lt h = elim (dec_lt x (y + c)) [
  | yes l ↦ ground (
    arith,
    l,
    hx.0,
    hy.0,
    value-sub_from 1 xs ys (omega arith) hx.1 hy.1 (omega arith) (omega (arith, hx.0, hy.0)),
  )
  | no l ↦ ground (
    arith,
    l,
    hx.0,
    hy.0,
    value-sub_from 0 xs ys (omega arith) hx.1 hy.1 (omega arith) (omega (arith, hx.0, hy.0)),
  )
]

at_least_iff :
    (o : Order) (a b : ℕ)
    → Orders o a b
    → ((at_least o ≡ true) × (b ≤ a)) ⊎ ((at_least o ≡ false) × (a < b))
at_least_iff less a b h = inr (refl, h)
at_least_iff equal a b h = inl (refl, omega (arith, h))
at_least_iff greater a b h = inl (refl, omega (arith, h))

-- The test that the reductions make.
pub bn_ge_iff :
    (xs ys : List ℕ)
    → IsLimbs xs
    → IsLimbs ys
    → length xs ≡ length ys
    → ((bn_ge xs ys ≡ true) × (value ys ≤ value xs))
      ⊎ ((bn_ge xs ys ≡ false) × (value xs < value ys))
unfolding bn_ge
bn_ge_iff xs ys hx hy e =
    at_least_iff (bn_cmp xs ys) (value xs) (value ys) (bn_cmp-Orders xs ys hx hy e)

-- Numbers of `n` limbs.
abbrev pub HasLimbs : ℕ → List ℕ → Type 0
HasLimbs n xs = (length xs ≡ n) × IsLimbs xs

pub add_from-HasLimbs :
    (c : ℕ) (xs ys : List ℕ) → length xs ≡ length ys → HasLimbs (length xs) (add_from c xs ys)
unfolding add_from
add_from-HasLimbs c [] [] e = (refl, tt)
add_from-HasLimbs c [] (y ∷ ys) e = absurd (omega arith)
add_from-HasLimbs c (x ∷ xs) [] e = absurd (omega arith)
add_from-HasLimbs c (x ∷ xs) (y ∷ ys) e =
    let (l, h) = add_from-HasLimbs ((x + y + c) / radix) xs ys (omega arith) in
    (omega (arith, l), (omega arith, h))

pub sub_from-HasLimbs :
    (c : ℕ) (xs ys : List ℕ)
    → length xs ≡ length ys
    → c ≤ 1
    → IsLimbs xs
    → IsLimbs ys
    → HasLimbs (length xs) (sub_from c xs ys)
unfolding sub_from
sub_from-HasLimbs c [] [] e lt hx hy = (refl, tt)
sub_from-HasLimbs c [] (y ∷ ys) e lt hx hy = absurd (omega arith)
sub_from-HasLimbs c (x ∷ xs) [] e lt hx hy = absurd (omega arith)
sub_from-HasLimbs c (x ∷ xs) (y ∷ ys) e lt hx hy =
    let (l, h) =
      sub_from-HasLimbs (if ltb x (y + c) then 1 else 0) xs ys (omega arith) (ground arith) hx.1
        hy.1 in
    (omega (arith, l), (ground (arith, hx.0, hy.0), h))

-- bn_used_limbs: what lies above is zero.
pub value-take_used : (xs : List ℕ) → value (take (used_limbs xs) xs) ≡ value xs
unfolding used_limbs
value-take_used [] = refl
value-take_used (x ∷ xs) =
    let nothing : (used_limbs xs ≡ 0) → value xs ≡ 0 =
      λ e. sym (value-take_used xs) ∙ ap (λ k. value (take k xs)) e in
    elim (Bool-cases (used_limbs xs == 0)) [
      | inl e ↦ elim (Bool-cases (x == 0)) [
        | inl z ↦ rw (e, z) (ground (arith, nothing (ground (arith, e)), z))
        | inr z ↦ rw (e, z) (ground (arith, nothing (ground (arith, e))))
      ]
      | inr n ↦ rw n (omega (arith, value-take_used xs))
    ]

pub used_limbs-le : (xs : List ℕ) → used_limbs xs ≤ length xs
unfolding used_limbs
used_limbs-le [] = omega arith
used_limbs-le (x ∷ xs) = ground (arith, used_limbs-le xs)

pub IsLimbs-take : (n : ℕ) (xs : List ℕ) → IsLimbs xs → IsLimbs (take n xs)
IsLimbs-take zero xs h = tt
IsLimbs-take (suc n) [] h = tt
IsLimbs-take (suc n) (x ∷ xs) h = (h.0, IsLimbs-take n xs h.1)

pub value-append : (xs ys : List ℕ) → value (xs ++ ys) ≡ value xs + capacity xs * value ys
value-append [] ys = omega arith
value-append (x ∷ xs) ys = omega (arith, value-append xs ys)

pub capacity-append : (xs ys : List ℕ) → capacity (xs ++ ys) ≡ capacity xs * capacity ys
capacity-append [] ys = omega arith
capacity-append (x ∷ xs) ys = omega (arith, capacity-append xs ys)

pub capacity-length : (xs ys : List ℕ) → length xs ≡ length ys → capacity xs ≡ capacity ys
capacity-length [] [] e = refl
capacity-length [] (y ∷ ys) e = absurd (omega arith)
capacity-length (x ∷ xs) [] e = absurd (omega arith)
capacity-length (x ∷ xs) (y ∷ ys) e = ap (λ c. radix * c) (capacity-length xs ys (omega arith))

pub value-zeros : (n : ℕ) → value (replicate n 0) ≡ 0
value-zeros zero = refl
value-zeros (suc n) = omega (arith, value-zeros n)

pub zeros-HasLimbs : (n : ℕ) → HasLimbs n (replicate n 0)
zeros-HasLimbs zero = (refl, tt)
zeros-HasLimbs (suc n) = let (l, h) = zeros-HasLimbs n in (omega (arith, l), (omega arith, h))

pub append-HasLimbs :
    {m n : ℕ} (xs ys : List ℕ) → HasLimbs m xs → HasLimbs n ys → HasLimbs (m + n) (xs ++ ys)
append-HasLimbs [] ys (l, h) (k, g) = (omega (arith, l, k), g)
append-HasLimbs {m = zero} (x ∷ xs) ys (l, h) (k, g) = absurd (omega (arith, l))
append-HasLimbs {m = suc m} (x ∷ xs) ys (l, h) (k, g) =
    let (j, f) = append-HasLimbs {m = m} xs ys (omega (arith, l), h.1) (k, g) in
    (omega (arith, j), (h.0, f))
