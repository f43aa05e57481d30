-- ===== src/Bignum/Reduce.antt =====
-- kernel/bignum.h: bn_mod_wide gives the remainder, and what is built on it.
use native.Mathlib.Nat.{mod-lt, mod-eq_of_lt, mod-eq-sub-mod, add-mul-mod_self_left, pow-suc}
use native.Mathlib.Nat.{div-add-mod}
use mini_win.Base.{Option, none, some, replicate, ◌-◌, ◌/◌, ◌^◌, sym, ◌∙◌, inl, inr}
use mini_win.Base.{if◌then◌else◌, ℕ, zero, suc, ◌+◌, ◌*◌, ◌%◌, ◌≤◌, ◌<◌, min, ◌≡◌, refl, ap, List}
use mini_win.Base.{[], ◌∷◌, arith, subst, length, take, length-take}
use mini_win.Bignum.{radix, limbs, used_limbs, bn_ge, bn_sub, sub_from, bn_zero, shift_left}
use mini_win.Bignum.{or_low, bit_of, mod_step, mod_bits, bit_length_from, rounds, bn_mod_wide}
use mini_win.Bignum.{bn_mulmod, bn_mul_wide}
use mini_win.Bignum.Value.{value, capacity, IsLimbs, HasLimbs, value-lt, value-take_used}
use mini_win.Bignum.Value.{bn_ge_iff, value-sub_from, sub_from-HasLimbs, IsLimbs-take}
use mini_win.Bignum.Value.{capacity-length, value-zeros, zeros-HasLimbs}
use mini_win.Bignum.Mul.{bn_mul_wide-value}
use mini_win.Bignum.Bits.{bit_of-value, Bounds, bit_length_from-Bounds, value-shift_left}
use mini_win.Bignum.Bits.{shift_left-HasLimbs, value-or_low, pow_pos}

-- A modulus: not zero, and with its top limb zero, so that the remainder can be shifted.
pub record IsModulus (m : List ℕ) : Type 0 where
  pub shape : HasLimbs limbs m
  pub positive : 0 < value m
  pub slack : used_limbs m < limbs

capacity-take-suc :
    (k : ℕ) (xs : List ℕ)
    → k < length xs
    → capacity (take (suc k) xs) ≡ radix * capacity (take k xs)
capacity-take-suc zero [] h = absurd (omega arith)
capacity-take-suc (suc k) [] h = absurd (omega arith)
capacity-take-suc zero (x ∷ xs) h = refl
capacity-take-suc (suc k) (x ∷ xs) h = ap (λ c. radix * c) (capacity-take-suc k xs (omega arith))

capacity-take :
    (k : ℕ) (xs ys : List ℕ) → length xs ≡ length ys → capacity (take k xs) ≡ capacity (take k ys)
capacity-take k xs ys e =
    capacity-length (take k xs) (take k ys) (omega (arith, length-take k xs, length-take k ys))

-- The limbs that a round works on have room for twice the modulus.
pub work_room :
    (m rem : List ℕ)
    → IsModulus m
    → length rem ≡ limbs
    → 2 * value m < capacity (take (min (used_limbs m + 1) limbs) rem)
work_room m rem w l =
    subst (λ n. 2 * value m < capacity (take n rem)) {x = suc (used_limbs m)}
      {y = min (used_limbs m + 1) limbs} (omega (arith, w.slack))
      (omega (
        arith,
        capacity-take-suc (used_limbs m) rem (omega (arith, w.slack, l)),
        capacity-take (used_limbs m) rem m (omega (arith, l, w.shape.0)),
        value-take_used m,
        value-lt (take (used_limbs m) m) (IsLimbs-take (used_limbs m) m w.shape.1),
      ))

-- A number below twice another one has it or nothing taken off.
once : (a b r : ℕ) → a < 2 * b → b ≤ a → r + b ≡ a → r ≡ a % b
once a b r lt le e =
    sym (mod-eq_of_lt {n = r} {m = b} (omega arith))
    ∙ ap (λ n. n % b) {x = r} {y = a - b} (omega arith)
    ∙ sym (mod-eq-sub-mod le)

-- The subtraction that ends a round of the division, and bn_addmod.
pub subtract_once :
    (xs m : List ℕ)
    → HasLimbs limbs xs
    → HasLimbs limbs m
    → value xs < 2 * value m
    → HasLimbs limbs (if bn_ge xs m then bn_sub xs m else xs)
      × (value (if bn_ge xs m then bn_sub xs m else xs) ≡ value xs % value m)
unfolding bn_sub
subtract_once xs m (lx, hx) (lm, hm) lt = elim (bn_ge_iff xs m hx hm (omega (arith, lx, lm))) [
  | inl (e, le) ↦
      let same : length xs ≡ length m = omega (arith, lx, lm) in
      let (l, h) = sub_from-HasLimbs 0 xs m same (omega arith) hx hm in
      rw e (
        (omega (arith, l, lx), h),
        once (value xs) (value m) (value (sub_from 0 xs m)) lt le
            (omega (arith, value-sub_from 0 xs m same hx hm (omega arith) (omega (arith, le)))),
      )
  | inr (e, small) ↦ rw e ((lx, hx), sym (mod-eq_of_lt small))
]

-- The remainder, shifted, with the next bit in it.
shifted :
    (m rem : List ℕ) (b : ℕ)
    → IsModulus m
    → HasLimbs limbs rem
    → value rem < value m
    → b ≤ 1
    → let xs = or_low b (shift_left (min (used_limbs m + 1) limbs) 0 rem) in
      HasLimbs limbs xs × (value xs ≡ 2 * value rem + b)
shifted m rem b w (lr, hr) small lt =
    let work = min (used_limbs m + 1) limbs in
    let twice =
      value-shift_left work 0 rem hr (omega arith) (omega (arith, work_room m rem w lr, small)) in
    let (ls, hs) = shift_left-HasLimbs work 0 rem hr (omega arith) in
    let (e, k) =
      value-or_low b (shift_left work 0 rem) lt (omega (arith, ls, lr)) (omega (arith, twice)) hs in
    ((omega (arith, k.0, ls, lr), k.1), omega (arith, e, twice))

-- One round doubles the remainder and takes a bit in.
mod_step-value :
    (m rem : List ℕ) (b : ℕ)
    → IsModulus m
    → HasLimbs limbs rem
    → value rem < value m
    → b ≤ 1
    → HasLimbs limbs (mod_step m (min (used_limbs m + 1) limbs) rem b)
      × (value (mod_step m (min (used_limbs m + 1) limbs) rem b) ≡ (2 * value rem + b) % value m)
unfolding mod_step
mod_step-value m rem b w r small lt =
    let (k, e) = shifted m rem b w r small lt in
    let (g, f) = subtract_once _ m k w.shape (omega (arith, e, small, lt)) in
    (g, f ∙ ap (λ n. n % value m) e)

-- A remainder may be taken early.
pub mod-mul-add : (x p q m : ℕ) → ((x % m) * p + q) % m ≡ (x * p + q) % m
mod-mul-add x p q m =
    sym (add-mul-mod_self_left ((x % m) * p + q) m (x / m * p))
    ∙ ap (λ n. n % m) {x = (x % m) * p + q + m * (x / m * p)} {y = x * p + q}
        (omega (arith, ap (λ n. n * p) (div-add-mod x m)))

next_bit : (v r n : ℕ) → (2 * r + v / 2 ^ n % 2) * 2 ^ n + v % 2 ^ n ≡ r * 2 ^ suc n + v % 2 ^ suc n
next_bit v r n = rw (pow-suc 2 n) (omega (arith, whole))
  where
    p : ℕ
    p = 2 ^ n

    q : ℕ
    q = v / 2 ^ n

    below : v % p < p
    below = mod-lt v (pow_pos n)

    fits : q % 2 * p + v % p < p * 2
    fits = grind (arith, below)

    parts : v ≡ q % 2 * p + v % p + p * 2 * (q / 2)
    parts =
        sym (div-add-mod v p)
        ∙ ap (λ k. p * k + v % p) {x = q} {y = q % 2 + 2 * (q / 2)} (omega arith)
        ∙ omega arith

    whole : v % (p * 2) ≡ q % 2 * p + v % p
    whole =
        ap (λ k. k % (p * 2)) parts
        ∙ add-mul-mod_self_left (q % 2 * p + v % p) (p * 2) (q / 2)
        ∙ mod-eq_of_lt fits

-- The rounds for the lowest `n` bits of the wide number.
mod_bits-value :
    (wide m : List ℕ) (n : ℕ) (rem : List ℕ)
    → IsLimbs wide
    → IsModulus m
    → HasLimbs limbs rem
    → value rem < value m
    → let r = mod_bits wide m (min (used_limbs m + 1) limbs) n rem in
      HasLimbs limbs r × (value r ≡ (value rem * 2 ^ n + value wide % 2 ^ n) % value m)
unfolding mod_bits
mod_bits-value wide m zero rem hw w r small = (
  r,
  sym (mod-eq_of_lt small)
      ∙ ap (λ k. k % value m) {x = value rem} {y = value rem * 2 ^ 0 + value wide % 2 ^ 0}
          (omega arith),
)
mod_bits-value wide m (suc n) rem hw w r small =
    let b = bit_of wide n in
    let bit = bit_of-value wide n hw in
    let (k, e) = mod_step-value m rem b w r small (omega (arith, bit)) in
    let (g, f) =
      mod_bits-value wide m n (mod_step m (min (used_limbs m + 1) limbs) rem b) hw w k
        (rw e (mod-lt (2 * value rem + b) w.positive)) in
    (
      g,
      f
          ∙ rw e (mod-mul-add (2 * value rem + b) (2 ^ n) (value wide % 2 ^ n) (value m))
          ∙ ap (λ k. k % value m) {x = (2 * value rem + b) * 2 ^ n + value wide % 2 ^ n}
              {y = value rem * 2 ^ suc n + value wide % 2 ^ suc n}
              (rw bit (next_bit (value wide) (value rem) n)),
    )

-- bn_mod_wide, for a number of 32-bit limbs and a modulus that is not zero and whose top limb is
-- zero, leaves the remainder, in BIGNUM_LIMBS limbs.
pub bn_mod_wide-value :
    (wide m : List ℕ)
    → IsLimbs wide
    → IsModulus m
    → HasLimbs limbs (bn_mod_wide wide m) × (value (bn_mod_wide wide m) ≡ value wide % value m)
unfolding bn_mod_wide bn_zero
bn_mod_wide-value wide m hw w =
    let (g, f) =
      mod_bits-value wide m (rounds (bit_length_from 0 wide)) (replicate limbs 0) hw w
        (zeros-HasLimbs limbs) (omega (arith, value-zeros limbs, w.positive)) in
    (
      g,
      f
          ∙ ap (λ n. n % value m)
              {x = value (replicate limbs 0) * 2 ^ rounds (bit_length_from 0 wide)
                + value wide % 2 ^ rounds (bit_length_from 0 wide)}
              {y = value wide}
              (rw (value-zeros limbs)
                (within (bit_length_from 0 wide) (bit_length_from-Bounds 0 wide hw))),
    )
  where
    within :
        (o : Option ℕ)
        → Bounds 0 (value wide) o
        → 0 * 2 ^ rounds o + value wide % 2 ^ rounds o ≡ value wide
    within none e = omega (arith, e)
    within (some b) (lo, h) = omega (
      arith,
      mod-eq_of_lt {n = value wide} {m = 2 ^ (b + 1)}
          (subst (λ k. value wide < 2 ^ k) {x = b + 1 - 0 * 32} {y = b + 1} (omega arith) h),
    )

-- bn_mulmod of two numbers of BIGNUM_LIMBS limbs, for a modulus that is not zero and whose top limb
-- is zero, gives their product modulo it.
pub bn_mulmod-value :
    (a b m : List ℕ)
    → HasLimbs limbs a
    → HasLimbs limbs b
    → IsModulus m
    → HasLimbs limbs (bn_mulmod a b m) × (value (bn_mulmod a b m) ≡ value a * value b % value m)
unfolding bn_mulmod
bn_mulmod-value a b m ha hb w =
    let (k, e) = bn_mul_wide-value a b ha hb in
    let (g, f) = bn_mod_wide-value (bn_mul_wide a b) m k.1 w in (g, f ∙ ap (λ n. n % value m) e)
