-- ===== src/Bignum/Power.antt =====
-- kernel/bignum.h: both modular powers are powers.
use native.Mathlib.Nat.{div-eq_of_lt, pow-zero, mod-mod, mod-lt, mod-eq_of_lt, pow-suc}
use native.Mathlib.Nat.{div-div-eq-div-mul}
use mini_win.Base.{◌<◌, ap₂, ◌++◌, replicate, ℕ, zero, suc, ◌+◌, ◌*◌, ◌/◌, ◌%◌, ◌^◌, ◌≡◌, refl}
use mini_win.Base.{sym, ap, ◌∙◌, inl, inr, List, arith, ◌==◌, if◌then◌else◌, Bool-cases}
use mini_win.Bignum.{limbs, bn_mulmod, bn_one, reduced_base, power, highest, rounds}
use mini_win.Bignum.{bn_bit_length, bit_of, bn_modpow_u32exp, bn_modpow}
use mini_win.Bignum.Value.{value, HasLimbs, bn_ge_iff, value-append, append-HasLimbs, value-zeros}
use mini_win.Bignum.Value.{zeros-HasLimbs}
use mini_win.Bignum.Bits.{highest-bounds, bit_of-value}
use mini_win.Bignum.Length.{bn_bit_length-bounds}
use mini_win.Bignum.Reduce.{IsModulus, mod-mul-add, bn_mod_wide-value, bn_mulmod-value}

-- Both factors of a product may be reduced first.
mod-mul : (a b m : ℕ) → (a % m) * (b % m) % m ≡ a * b % m
mod-mul a b m =
    ap (λ k. k % m) {x = (a % m) * (b % m)} {y = (a % m) * (b % m) + 0} (omega arith)
    ∙ mod-mul-add a (b % m) 0 m
    ∙ ap (λ k. k % m) {x = a * (b % m) + 0} {y = (b % m) * a + 0} (omega arith)
    ∙ mod-mul-add b a 0 m
    ∙ ap (λ k. k % m) {x = b * a + 0} {y = a * b} (omega arith)

pow_split : (b n : ℕ) → b ^ (n + n) ≡ b ^ n * b ^ n
pow_split b zero = pow-zero b ∙ rw (pow-zero b) refl
pow_split b (suc n) =
    ap (λ k. b ^ k) {x = suc n + suc n} {y = suc (suc (n + n))} (omega arith)
    ∙ pow-suc b (suc (n + n))
    ∙ rw (pow-suc b (n + n), pow_split b n, pow-suc b n) (omega arith)

-- The exponent that the bits read so far make.
next_exponent : (e n : ℕ) → e / 2 ^ n ≡ e / 2 ^ suc n + e / 2 ^ suc n + e / 2 ^ n % 2
next_exponent e n = rw (pow-suc 2 n, sym (div-div-eq-div-mul e (2 ^ n) 2)) (omega arith)

module _ (bit : ℕ → ℕ) (e : ℕ) (b m : List ℕ) (bits : (i : ℕ) → bit i ≡ e / 2 ^ i % 2)
    (w : IsModulus m) (hb : HasLimbs limbs b) where
  -- The accumulator holds the power to the bits read so far.
  Holds : ℕ → List ℕ → Type 0
  Holds n acc =
      HasLimbs limbs acc
      × (value acc < value m)
      × (value acc % value m ≡ value b ^ (e / 2 ^ n) % value m)

  squared :
      (n : ℕ) (acc : List ℕ)
      → Holds (suc n) acc
      → HasLimbs limbs (bn_mulmod acc acc m)
        × (value (bn_mulmod acc acc m) < value m)
        × (value (bn_mulmod acc acc m) % value m
            ≡ value b ^ (e / 2 ^ suc n + e / 2 ^ suc n) % value m)
  unfolding Holds
  squared n acc (h, small, e') =
      let (k, f) = bn_mulmod-value acc acc m h h w in
      (
        k,
        rw f (mod-lt (value acc * value acc) w.positive),
        ap (λ x. x % value m) f
            ∙ mod-mod (value acc * value acc) (value m)
            ∙ sym (mod-mul (value acc) (value acc) (value m))
            ∙ ap (λ x. x * x % value m) e'
            ∙ mod-mul (value b ^ (e / 2 ^ suc n)) (value b ^ (e / 2 ^ suc n)) (value m)
            ∙ ap (λ x. x % value m) (sym (pow_split (value b) (e / 2 ^ suc n))),
      )

  even : (n : ℕ) → bit n ≡ 0 → e / 2 ^ n ≡ e / 2 ^ suc n + e / 2 ^ suc n
  even n z = omega (arith, next_exponent e n, bits n, z)

  odd : (n : ℕ) → bit n ≡ 1 → e / 2 ^ n ≡ suc (e / 2 ^ suc n + e / 2 ^ suc n)
  odd n z = omega (arith, next_exponent e n, bits n, z)

  power_round :
      (n : ℕ) (acc : List ℕ)
      → Holds (suc n) acc
      → Holds n (if bit n == 0 then bn_mulmod acc acc m else bn_mulmod (bn_mulmod acc acc m) b m)
  unfolding Holds
  power_round n acc h =
      let (k, below, s) = squared n acc h in
      elim (Bool-cases (bit n == 0)) [
        | inl z ↦
            rw z (k, below, s ∙ ap (λ x. value b ^ x % value m) (sym (even n (ground (arith, z)))))
        | inr o ↦
            let (g, f) = bn_mulmod-value (bn_mulmod acc acc m) b m k hb w in
            rw o (
              g,
              rw f (mod-lt (value (bn_mulmod acc acc m) * value b) w.positive),
              ap (λ x. x % value m) f
                  ∙ mod-mod (value (bn_mulmod acc acc m) * value b) (value m)
                  ∙ sym (mod-mul (value (bn_mulmod acc acc m)) (value b) (value m))
                  ∙ ap (λ x. x * (value b % value m) % value m) s
                  ∙ mod-mul (value b ^ (e / 2 ^ suc n + e / 2 ^ suc n)) (value b) (value m)
                  ∙ ap (λ x. x % value m) (sym (pow-suc (value b) (e / 2 ^ suc n + e / 2 ^ suc n)))
                  ∙ ap (λ x. value b ^ x % value m) (sym (odd n (ground (arith, o, bits n)))),
            )
      ]

  power-value : (n : ℕ) (acc : List ℕ) → Holds n acc → Holds 0 (power bit b m n acc)
  unfolding power
  power-value zero acc h = h
  power-value (suc n) acc h =
      power-value n
        (if bit n == 0 then bn_mulmod acc acc m else bn_mulmod (bn_mulmod acc acc m) b m)
        (power_round n acc h)

-- The base, reduced.
reduced_base-value :
    (base m : List ℕ)
    → HasLimbs limbs base
    → IsModulus m
    → HasLimbs limbs (reduced_base base m) × (value (reduced_base base m) ≡ value base % value m)
unfolding reduced_base
reduced_base-value base m h w =
    elim (bn_ge_iff base m h.1 w.shape.1 (omega (arith, h.0, w.shape.0))) [
      | inr (e, small) ↦ rw e (h, sym (mod-eq_of_lt small))
      | inl (e, le) ↦
          let (l, k) =
            append-HasLimbs {m = limbs} {n = limbs} base (replicate limbs 0) h
              (zeros-HasLimbs limbs) in
          let (g, f) = bn_mod_wide-value (base ++ replicate limbs 0) m k w in
          rw e (
            g,
            f
                ∙ ap (λ n. n % value m)
                    (value-append base (replicate limbs 0) ∙ rw (value-zeros limbs) (omega arith)),
          )
    ]

one-HasLimbs : HasLimbs limbs bn_one × (value bn_one ≡ 1)
unfolding bn_one
one-HasLimbs =
    let (l, h) = zeros-HasLimbs 129 in
    ((omega (arith, l), (omega arith, h)), omega (arith, value-zeros 129))

pow_reduced : (b m n : ℕ) → (b % m) ^ n % m ≡ b ^ n % m
pow_reduced b m zero = ap (λ k. k % m) (pow-zero (b % m) ∙ sym (pow-zero b))
pow_reduced b m (suc n) =
    ap (λ k. k % m) (pow-suc (b % m) n)
    ∙ sym (mod-mul ((b % m) ^ n) (b % m) m)
    ∙ ap₂ (λ x y. x * y % m) (pow_reduced b m n) (mod-mod b m)
    ∙ mod-mul (b ^ n) b m
    ∙ ap (λ k. k % m) (sym (pow-suc b n))

-- The loop, from 1 and over all bits of the exponent.
power-all :
    (bit : ℕ → ℕ) (e n : ℕ) (base m : List ℕ)
    → ((i : ℕ) → bit i ≡ e / 2 ^ i % 2)
    → e < 2 ^ n
    → HasLimbs limbs base
    → IsModulus m
    → 1 < value m
    → HasLimbs limbs (power bit (reduced_base base m) m n bn_one)
      × (value (power bit (reduced_base base m) m n bn_one) ≡ value base ^ e % value m)
unfolding Holds
power-all bit e n base m bits small h w big =
    let (k, f) = reduced_base-value base m h w in
    let (g, one) = one-HasLimbs in
    let (l, below, r) =
      power-value bit e (reduced_base base m) m bits w k n bn_one
        (g, omega (arith, one, big), start one) in
    (
      l,
      sym (mod-eq_of_lt below)
          ∙ r
          ∙ ap (λ x. x ^ (e / 2 ^ 0) % value m) f
          ∙ pow_reduced (value base) (value m) (e / 2 ^ 0)
          ∙ ap (λ x. value base ^ x % value m) {x = e / 2 ^ 0} {y = e} (omega arith),
    )
  where
    start :
        value bn_one ≡ 1
        → value bn_one % value m ≡ value (reduced_base base m) ^ (e / 2 ^ n) % value m
    start one =
        ap (λ x. x % value m)
          (one
            ∙ sym (pow-zero (value (reduced_base base m)))
            ∙ ap (λ x. value (reduced_base base m) ^ x) {x = 0} {y = e / 2 ^ n}
                (sym (div-eq_of_lt small)))

-- bn_modpow_u32exp, for numbers of BIGNUM_LIMBS limbs, an exponent below 2^32 and a modulus above 1
-- whose top limb is zero, gives the power of the base modulo the modulus, in BIGNUM_LIMBS limbs.
pub bn_modpow_u32exp-value :
    (base : List ℕ) (e : ℕ) (m : List ℕ)
    → HasLimbs limbs base
    → e < 2 ^ 32
    → IsModulus m
    → 1 < value m
    → HasLimbs limbs (bn_modpow_u32exp base e m)
      × (value (bn_modpow_u32exp base e m) ≡ value base ^ e % value m)
unfolding bn_modpow_u32exp
bn_modpow_u32exp-value base e m h small w big =
    power-all (λ i. e / 2 ^ i % 2) e (rounds (highest 32 e)) base m (λ i. refl)
      (highest-bounds e small) h w big

-- bn_modpow, for numbers of BIGNUM_LIMBS limbs and a modulus above 1 whose top limb is zero, gives
-- the power of the base to the full-width exponent modulo the modulus, in BIGNUM_LIMBS limbs.
pub bn_modpow-value :
    (base e m : List ℕ)
    → HasLimbs limbs base
    → HasLimbs limbs e
    → IsModulus m
    → 1 < value m
    → HasLimbs limbs (bn_modpow base e m)
      × (value (bn_modpow base e m) ≡ value base ^ value e % value m)
unfolding bn_modpow
bn_modpow-value base e m h he w big =
    power-all (bit_of e) (value e) (bn_bit_length e) base m (λ i. bit_of-value e i he.1)
      (bn_bit_length-bounds e he.1) h w big
