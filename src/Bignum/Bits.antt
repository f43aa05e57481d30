-- ===== src/Bignum/Bits.antt =====
-- kernel/bignum.h: single bits of a number, the bit lengths, and the shift of the remainder.
use mathlib.Core.Option
use native.Mathlib.Nat.{div-div-eq-div-mul, add-mul-div_left, pow-suc, div-eq_of_lt, zero-div}
use native.Mathlib.Decide.{dec_lt}
use mini_win.Base.{bit_or, refl, Option, Option-cases, length, take, ◌-◌, ◌≤◌, inl, inr, false}
use mini_win.Base.{subst, ◌==◌, Bool-cases, get_or, some_eq, ℕ, zero, suc, ◌+◌, ◌*◌, ◌/◌, ◌%◌}
use mini_win.Base.{◌^◌, ◌<◌, ◌≡◌, sym, ap, ◌∙◌, none, some, List, [], ◌∷◌, arith}
use mini_win.Base.Bits.{bit_or_join}
use mini_win.Bignum.{radix, highest, bit_length_from, bit_of, rounds, shift_left, or_low}
use mini_win.Bignum.Value.{value, capacity, IsLimbs, HasLimbs}

pub pow_add : (a b : ℕ) → 2 ^ (a + b) ≡ 2 ^ a * 2 ^ b
pow_add zero b = ap (λ n. 2 ^ n) {x = 0 + b} {y = b} (omega arith) ∙ omega arith
pow_add (suc a) b =
    ap (λ n. 2 ^ n) {x = suc a + b} {y = suc (a + b)} (omega arith)
    ∙ pow-suc 2 (a + b)
    ∙ rw (pow_add a b, pow-suc 2 a) (omega arith)

pub pow_pos : (a : ℕ) → 0 < 2 ^ a
pow_pos zero = omega arith
pow_pos (suc a) = omega (arith, pow_pos a)

or_even : (n b : ℕ) → n % 2 ≡ 0 → b ≤ 1 → bit_or n b ≡ n + b
or_even n b even lt =
    ap (λ k. bit_or k b) {x = n} {y = 2 ^ 1 * (n / 2)} (omega arith)
    ∙ bit_or_join 1 (n / 2) b (omega arith)
    ∙ omega arith

-- A bit of the lowest limb, and of the ones above.
low_bit : (x v k : ℕ) → k < 32 → (x + radix * v) / 2 ^ k % 2 ≡ x / 2 ^ k % 2
low_bit x v k h =
    ap (λ n. n / 2 ^ k % 2) spread
    ∙ ap (λ n. n % 2) (add-mul-div_left x (2 * (2 ^ (31 - k) * v)) (pow_pos k))
    ∙ omega arith
  where
    whole : radix ≡ 2 ^ k * 2 ^ (suc (31 - k))
    whole = ap (λ n. 2 ^ n) {x = 32} {y = k + suc (31 - k)} (omega arith) ∙ pow_add k (suc (31 - k))

    spread : x + radix * v ≡ x + 2 ^ k * (2 * (2 ^ (31 - k) * v))
    spread =
        rw whole (omega (arith, pow-suc 2 (31 - k), ap (λ n. 2 ^ k * n * v) (pow-suc 2 (31 - k))))

pub high_bit : (x v k : ℕ) → x < radix → (x + radix * v) / 2 ^ (32 + k) ≡ v / 2 ^ k
high_bit x v k h =
    ap (λ p. (x + radix * v) / p) (pow_add 32 k)
    ∙ sym (div-div-eq-div-mul (x + radix * v) radix (2 ^ k))
    ∙ ap (λ n. n / 2 ^ k) (omega arith)

place :
    (xs : List ℕ) {i i' j j' : ℕ}
    → i ≡ i'
    → j ≡ j'
    → get_or xs i 0 / 2 ^ j % 2 ≡ get_or xs i' 0 / 2 ^ j' % 2
place xs e f = rw (e, f)

pub bit_of-value : (xs : List ℕ) (k : ℕ) → IsLimbs xs → bit_of xs k ≡ value xs / 2 ^ k % 2
unfolding bit_of
bit_of-value [] k h = ap (λ n. n % 2) (zero-div (2 ^ (k % 32)) ∙ sym (zero-div (2 ^ k)))
bit_of-value (x ∷ xs) k h = elim (dec_lt k 32) [
  | yes l ↦
      place (x ∷ xs) {i' = 0} {j' = k} (omega arith) (omega arith) ∙ sym (low_bit x (value xs) k l)
  | no l ↦
      place (x ∷ xs) {i' = suc ((k - 32) / 32)} {j' = (k - 32) % 32} (omega arith) (omega arith)
      ∙ bit_of-value xs (k - 32) h.1
      ∙ ap (λ n. n % 2) (sym (high_bit x (value xs) (k - 32) h.0))
      ∙ ap (λ n. (x + radix * value xs) / 2 ^ n % 2) {x = 32 + (k - 32)} {y = k} (omega arith)
]

-- Below a bit that is not set.
below_clear : (n x : ℕ) → x < 2 ^ suc n → (x / 2 ^ n % 2 == 1) ≡ false → x < 2 ^ n
below_clear n x h e = elim (dec_lt x (2 ^ n)) [
  | yes l ↦ l
  | no l ↦ absurd (ground (arith, e, one l))
]
  where
    one : ¬ x < 2 ^ n → x / 2 ^ n ≡ 1
    one l =
        ap (λ y. y / 2 ^ n) (omega arith)
        ∙ add-mul-div_left (x - 2 ^ n) 1 (pow_pos n)
        ∙ omega (arith, div-eq_of_lt {n = x - 2 ^ n} {m = 2 ^ n} (omega (arith, pow-suc 2 n)))

pub highest-none : (n x : ℕ) → x < 2 ^ n → highest n x ≡ none → x ≡ 0
unfolding highest
highest-none zero x h e = omega arith
highest-none (suc n) x h e = elim (Bool-cases (x / 2 ^ n % 2 == 1)) [
  | inl t ↦ cc (rw t at e)
  | inr f ↦ highest-none n x (below_clear n x h f) (rw f at e)
]

pub highest-some : (n x : ℕ) {b : ℕ} → x < 2 ^ n → highest n x ≡ some b → x < 2 ^ (b + 1)
unfolding highest
highest-some zero x h e = cc
highest-some (suc n) x h e = elim (Bool-cases (x / 2 ^ n % 2 == 1)) [
  | inl t ↦
      subst (λ b. x < 2 ^ (b + 1)) (some_eq (rw t at e)) (subst (λ k. x < 2 ^ k) (omega arith) h)
  | inr f ↦ highest-some n x (below_clear n x h f) (rw f at e)
]

highest-lt : (n x : ℕ) {b : ℕ} → highest n x ≡ some b → b < n
unfolding highest
highest-lt zero x e = cc
highest-lt (suc n) x e = elim (Bool-cases (x / 2 ^ n % 2 == 1)) [
  | inl t ↦ omega (arith, some_eq (rw t at e))
  | inr f ↦ omega (arith, highest-lt n x (rw f at e))
]

-- The bits of a limb, from the highest one that is set, and those of a number.
pub highest-bounds : (x : ℕ) → x < radix → x < 2 ^ rounds (highest 32 x)
highest-bounds x h = elim (Option-cases (highest 32 x)) [
  | inl e ↦ rw e (omega (arith, highest-none 32 x h e))
  | inr (b, e) ↦ rw e (highest-some 32 x h e)
]

-- What bn_wide_bit_length finds: no limb is set, or a bit no lower than the limbs looked at, with
-- nothing above it.
abbrev pub Bounds : ℕ → ℕ → Option ℕ → Type 0
Bounds limb v none = v ≡ 0
Bounds limb v (some b) = (limb * 32 ≤ b) × (v < 2 ^ (b + 1 - limb * 32))

-- One limb more below.
below_limb :
    (limb x v b : ℕ)
    → x < radix
    → (limb + 1) * 32 ≤ b
    → v < 2 ^ (b + 1 - (limb + 1) * 32)
    → x + radix * v < 2 ^ (b + 1 - limb * 32)
below_limb limb x v b hx lo h =
    subst (λ p. x + radix * v < p)
      (sym (pow_add 32 (b + 1 - (limb + 1) * 32))
        ∙ ap (λ n. 2 ^ n) {x = 32 + (b + 1 - (limb + 1) * 32)} {y = b + 1 - limb * 32}
            (omega arith))
      (omega arith)

pub bit_length_from-Bounds :
    (limb : ℕ) (xs : List ℕ) → IsLimbs xs → Bounds limb (value xs) (bit_length_from limb xs)
unfolding bit_length_from
bit_length_from-Bounds limb [] h = refl
bit_length_from-Bounds limb (x ∷ xs) h =
    joined (bit_length_from (limb + 1) xs) (bit_length_from-Bounds (limb + 1) xs h.1)
  where
    joined :
        (o : Option ℕ)
        → Bounds (limb + 1) (value xs) o
        → Bounds limb
            (x + radix * value xs)
            (elim o [ some b ↦ some b | none ↦ Option.map (λ bit. limb * 32 + bit) (highest 32 x) ])
    joined (some b) (lo, k) = (omega arith, below_limb limb x (value xs) b h.0 lo k)
    joined none k = elim (Option-cases (highest 32 x)) [
      | inl e ↦ rw e (omega (arith, k, highest-none 32 x h.0 e))
      | inr (b, e) ↦ rw e (
        omega arith,
        subst (λ n. x + radix * value xs < 2 ^ n) {x = b + 1} {y = limb * 32 + b + 1 - limb * 32}
            (omega arith) (omega (arith, k, highest-some 32 x h.0 e)),
      )
    ]

-- The shift by one bit, with a bit coming in, where the limbs it goes over have room for it.
pub value-shift_left :
    (work c : ℕ) (rs : List ℕ)
    → IsLimbs rs
    → c ≤ 1
    → 2 * value rs + c < capacity (take work rs)
    → value (shift_left work c rs) ≡ 2 * value rs + c
unfolding shift_left
value-shift_left zero c rs h lt room = omega arith
value-shift_left (suc work) c [] h lt room = omega arith
value-shift_left (suc work) c (r ∷ rs) h lt room = omega (
  arith,
  h.0,
  or_even (r * 2 % radix) c (omega arith) lt,
  value-shift_left work (r / 2 ^ 31) rs h.1 (omega (arith, h.0)) (omega (arith, h.0)),
)

pub shift_left-HasLimbs :
    (work c : ℕ) (rs : List ℕ) → IsLimbs rs → c ≤ 1 → HasLimbs (length rs) (shift_left work c rs)
unfolding shift_left
shift_left-HasLimbs zero c rs h lt = (refl, h)
shift_left-HasLimbs (suc work) c [] h lt = (refl, tt)
shift_left-HasLimbs (suc work) c (r ∷ rs) h lt =
    let (l, g) = shift_left-HasLimbs work (r / 2 ^ 31) rs h.1 (omega (arith, h.0)) in
    (omega (arith, l), (omega (arith, or_even (r * 2 % radix) c (omega arith) lt), g))

-- A bit put into an even number.
pub value-or_low :
    (b : ℕ) (rs : List ℕ)
    → b ≤ 1
    → 0 < length rs
    → value rs % 2 ≡ 0
    → IsLimbs rs
    → (value (or_low b rs) ≡ value rs + b) × HasLimbs (length rs) (or_low b rs)
unfolding or_low
value-or_low b [] lt some_limb even h = absurd (omega arith)
value-or_low b (r ∷ rs) lt some_limb even h =
    let e = or_even r b (omega arith) lt in (omega (arith, e), (refl, (omega (arith, e, h.0), h.1)))
