-- ===== src/Bignum/Bytes.antt =====
-- kernel/bignum.h: the byte strings of numbers, most significant byte first, are read and written
-- as numbers.
use native.Mathlib.Nat.{zero-div, div-div-eq-div-mul, pow-suc, pow-zero, lt_of_mul-lt-mul_left}
use mini_win.Base.{ap₂, replicate, reverse-reverse, ℕ, zero, suc, ◌+◌, ◌*◌, ◌/◌, ◌%◌, ◌^◌, ◌≤◌}
use mini_win.Base.{◌<◌, bit_or, ◌≡◌, refl, sym, ap, ◌∙◌, true, List, [], ◌∷◌, ◌++◌, arith, subst}
use mini_win.Base.{ltb, length, get_or, set, length-set, reverse, reverse-cons, length-reverse}
use mini_win.Base.Bits.{bit_or_join, bit_or_comm}
use mini_win.Bignum.{radix, limbs, bn_zero, load, unload, bn_from_bytes_be, bn_to_bytes_be}
use mini_win.Bignum.Value.{value, IsLimbs, HasLimbs, value-zeros, zeros-HasLimbs}
use mini_win.Bignum.Bits.{pow_add, high_bit}

abbrev pub IsBytes : List ℕ → Type 0
IsBytes [] = Unit
IsBytes (b ∷ bs) = (b < 256) × IsBytes bs

-- The number that a byte string stands for.
abbrev pub big_endian : List ℕ → ℕ
big_endian [] = 0
big_endian (b ∷ bs) = b * 256 ^ length bs + big_endian bs

abbrev little_endian : List ℕ → ℕ
little_endian [] = 0
little_endian (b ∷ bs) = b + 256 * little_endian bs

little_endian-append :
    (xs : List ℕ) (b : ℕ) → little_endian (xs ++ (b ∷ [])) ≡ little_endian xs + 256 ^ length xs * b
little_endian-append [] b = omega (arith, pow-zero 256)
little_endian-append (x ∷ xs) b =
    omega (arith, little_endian-append xs b, ap (λ p. p * b) (pow-suc 256 (length xs)))

little_endian-reverse : (bs : List ℕ) → little_endian (reverse bs) ≡ big_endian bs
little_endian-reverse [] = refl
little_endian-reverse (b ∷ bs) =
    ap little_endian (reverse-cons b bs)
    ∙ little_endian-append (reverse bs) b
    ∙ rw (length-reverse bs, little_endian-reverse bs) (omega arith)

IsBytes-append : (xs : List ℕ) (b : ℕ) → IsBytes xs → b < 256 → IsBytes (xs ++ (b ∷ []))
IsBytes-append [] b h k = (k, tt)
IsBytes-append (x ∷ xs) b h k = (h.0, IsBytes-append xs b h.1 k)

IsBytes-reverse : (bs : List ℕ) → IsBytes bs → IsBytes (reverse bs)
IsBytes-reverse [] h = tt
IsBytes-reverse (b ∷ bs) h =
    subst IsBytes (sym (reverse-cons b bs))
      (IsBytes-append (reverse bs) b (IsBytes-reverse bs h.1) h.0)

next_limb : (k : ℕ) → 2 ^ (suc k * 32) ≡ radix * 2 ^ (k * 32)
next_limb k = ap (λ n. 2 ^ n) {x = suc k * 32} {y = 32 + k * 32} (omega arith) ∙ pow_add 32 (k * 32)

-- One limb replaced.
value-set :
    (xs : List ℕ) (k v : ℕ)
    → k < length xs
    → value (set xs k v) + 2 ^ (k * 32) * get_or xs k 0 ≡ value xs + 2 ^ (k * 32) * v
value-set [] k v h = absurd (omega arith)
value-set (x ∷ xs) zero v h = omega arith
value-set (x ∷ xs) (suc k) v h = rw (next_limb k) (omega (arith, value-set xs k v (omega arith)))

limb-le : (xs : List ℕ) (k : ℕ) → 2 ^ (k * 32) * get_or xs k 0 ≤ value xs
limb-le [] k = omega arith
limb-le (x ∷ xs) zero = omega arith
limb-le (x ∷ xs) (suc k) = rw (next_limb k) (omega (arith, limb-le xs k))

IsLimbs-set : (xs : List ℕ) (k v : ℕ) → IsLimbs xs → v < radix → IsLimbs (set xs k v)
IsLimbs-set [] k v h lt = tt
IsLimbs-set (x ∷ xs) zero v h lt = (lt, h.1)
IsLimbs-set (x ∷ xs) (suc k) v h lt = (h.0, IsLimbs-set xs k v h.1 lt)

-- A byte put above the bits of a limb that are there, at one of the four places.
byte_in :
    (g b s : ℕ)
    → s < 4
    → b < 256
    → g < 2 ^ (s * 8)
    → (bit_or g (b * 2 ^ (s * 8) % radix) ≡ g + 2 ^ (s * 8) * b) × (g + 2 ^ (s * 8) * b < radix)
byte_in g b zero h lt small = (
  bit_or_comm g (b * 2 ^ 0 % radix)
      ∙ ap (λ k. bit_or k g) {x = b * 2 ^ 0 % radix} {y = 2 ^ 0 * b} (omega arith)
      ∙ bit_or_join 0 b g small
      ∙ omega arith,
  omega arith,
)
byte_in g b (suc zero) h lt small = (
  bit_or_comm g (b * 2 ^ 8 % radix)
      ∙ ap (λ k. bit_or k g) {x = b * 2 ^ 8 % radix} {y = 2 ^ 8 * b} (omega arith)
      ∙ bit_or_join 8 b g small
      ∙ omega arith,
  omega arith,
)
byte_in g b (suc (suc zero)) h lt small = (
  bit_or_comm g (b * 2 ^ 16 % radix)
      ∙ ap (λ k. bit_or k g) {x = b * 2 ^ 16 % radix} {y = 2 ^ 16 * b} (omega arith)
      ∙ bit_or_join 16 b g small
      ∙ omega arith,
  omega arith,
)
byte_in g b (suc (suc (suc zero))) h lt small = (
  bit_or_comm g (b * 2 ^ 24 % radix)
      ∙ ap (λ k. bit_or k g) {x = b * 2 ^ 24 % radix} {y = 2 ^ 24 * b} (omega arith)
      ∙ bit_or_join 24 b g small
      ∙ omega arith,
  omega arith,
)
byte_in g b (suc (suc (suc (suc s)))) h lt small = absurd (omega arith)

byte_place : (i : ℕ) → 2 ^ (i * 8) ≡ 2 ^ (i / 4 * 32) * 2 ^ (i % 4 * 8)
byte_place i =
    ap (λ n. 2 ^ n) {x = i * 8} {y = i / 4 * 32 + i % 4 * 8} (omega arith)
    ∙ pow_add (i / 4 * 32) (i % 4 * 8)

next_byte : (i : ℕ) → 2 ^ ((i + 1) * 8) ≡ 256 * 2 ^ (i * 8)
next_byte i = ap (λ n. 2 ^ n) {x = (i + 1) * 8} {y = 8 + i * 8} (omega arith) ∙ pow_add 8 (i * 8)

-- One round of the loop adds its byte.
load_round :
    (i b : ℕ) (xs : List ℕ)
    → i < 520
    → b < 256
    → HasLimbs limbs xs
    → value xs < 2 ^ (i * 8)
    → let ys = set xs (i / 4) (bit_or (get_or xs (i / 4) 0) (b * 2 ^ (i % 4 * 8) % radix)) in
      HasLimbs limbs ys × (value ys ≡ value xs + 2 ^ (i * 8) * b)
load_round i b xs bound lt (l, h) small =
    let (e, fits) = byte_in (get_or xs (i / 4) 0) b (i % 4) (omega arith) lt free in
    (
      (
        omega (
          arith,
          l,
          length-set xs (i / 4) (bit_or (get_or xs (i / 4) 0) (b * 2 ^ (i % 4 * 8) % radix)),
        ),
        IsLimbs-set xs (i / 4) (bit_or (get_or xs (i / 4) 0) (b * 2 ^ (i % 4 * 8) % radix)) h
            (omega (arith, e, fits)),
      ),
      rw (byte_place i) (
          omega (
            arith,
            value-set xs (i / 4) (bit_or (get_or xs (i / 4) 0) (b * 2 ^ (i % 4 * 8) % radix))
                (omega (arith, l)),
            ap (λ v. 2 ^ (i / 4 * 32) * v) e,
          )),
    )
  where
    free : get_or xs (i / 4) 0 < 2 ^ (i % 4 * 8)
    free =
        lt_of_mul-lt-mul_left (2 ^ (i / 4 * 32))
          (omega (arith, limb-le xs (i / 4), small, byte_place i))

in_range : (i : ℕ) → i < 520 → ltb (i / 4) limbs ≡ true
in_range i h = ground arith

load-value :
    (bs : List ℕ) (i : ℕ) (xs : List ℕ)
    → i + length bs ≤ 520
    → IsBytes bs
    → HasLimbs limbs xs
    → value xs < 2 ^ (i * 8)
    → HasLimbs limbs (load i bs xs)
      × (value (load i bs xs) ≡ value xs + 2 ^ (i * 8) * little_endian bs)
unfolding load
load-value [] i xs bound hb h small = (h, omega arith)
load-value (b ∷ bs) i xs bound hb h small =
    let (k, e) = load_round i b xs (omega arith) hb.0 h small in
    let (g, f) =
      load-value bs (i + 1) _ (omega arith) hb.1 k
        (rw e (rw (next_byte i) (grind (arith, hb.0, small)))) in
    rw (in_range i (omega arith)) (g, f ∙ rw e (rw (next_byte i) (omega arith)))

byte_at :
    (xs : List ℕ) {i i' j j' : ℕ}
    → i ≡ i'
    → j ≡ j'
    → get_or xs i 0 / 2 ^ j % 256 ≡ get_or xs i' 0 / 2 ^ j' % 256
byte_at xs e f = rw (e, f)

-- A byte of a number, at its place.
byte_of :
    (xs : List ℕ) (i : ℕ)
    → IsLimbs xs
    → get_or xs (i / 4) 0 / 2 ^ (i % 4 * 8) % 256 ≡ value xs / 2 ^ (i * 8) % 256
byte_of [] i h = ap (λ n. n % 256) (zero-div (2 ^ (i % 4 * 8)) ∙ sym (zero-div (2 ^ (i * 8))))
byte_of (x ∷ xs) zero h = omega arith
byte_of (x ∷ xs) (suc zero) h = omega arith
byte_of (x ∷ xs) (suc (suc zero)) h = omega arith
byte_of (x ∷ xs) (suc (suc (suc zero))) h = omega arith
byte_of (x ∷ xs) (suc (suc (suc (suc i)))) h =
    byte_at (x ∷ xs) {i' = suc (i / 4)} {j' = i % 4 * 8} (omega arith) (omega arith)
    ∙ byte_of xs i h.1
    ∙ ap (λ n. n % 256) (sym (high_bit x (value xs) (i * 8) h.0))
    ∙ ap (λ n. (x + radix * value xs) / 2 ^ n % 256) {x = 32 + i * 8}
        {y = suc (suc (suc (suc i))) * 8} (omega arith)

-- Writing gives the bytes that stand above a place.
unload-bytes :
    (bs : List ℕ) (i : ℕ) (xs : List ℕ)
    → i + length bs ≤ 520
    → IsBytes bs
    → IsLimbs xs
    → value xs / 2 ^ (i * 8) ≡ little_endian bs
    → unload xs i (length bs) ≡ bs
unfolding unload
unload-bytes [] i xs bound hb h e = refl
unload-bytes (b ∷ bs) i xs bound hb h e = rw (in_range i (omega arith)) (
    ap₂ (λ c cs. c ∷ cs) (byte_of xs i h ∙ omega (arith, e, hb.0))
      (unload-bytes bs (i + 1) xs (omega arith) hb.1 h (
        ap (λ n. value xs / n) (next_byte i ∙ omega arith)
        ∙ sym (div-div-eq-div-mul (value xs) (2 ^ (i * 8)) 256)
        ∙ omega (arith, e, hb.0))))

-- Reading a byte string of at most 520 bytes gives the number that it stands for, most significant
-- byte first, in BIGNUM_LIMBS limbs.
pub bn_from_bytes_be-value :
    (bytes : List ℕ)
    → length bytes ≤ 520
    → IsBytes bytes
    → HasLimbs limbs (bn_from_bytes_be bytes) × (value (bn_from_bytes_be bytes) ≡ big_endian bytes)
unfolding bn_from_bytes_be bn_zero
bn_from_bytes_be-value bytes bound h =
    let (k, e) =
      load-value (reverse bytes) 0 (replicate limbs 0) (omega (arith, length-reverse bytes, bound))
        (IsBytes-reverse bytes h) (zeros-HasLimbs limbs) (omega (arith, value-zeros limbs)) in
    (k, e ∙ omega (arith, value-zeros limbs, little_endian-reverse bytes))

-- Reading a byte string of at most 520 bytes as a number and writing as many bytes of it gives the
-- byte string back.
pub bn_to_bytes_be-bn_from_bytes_be :
    (bytes : List ℕ)
    → length bytes ≤ 520
    → IsBytes bytes
    → bn_to_bytes_be (bn_from_bytes_be bytes) (length bytes) ≡ bytes
unfolding bn_to_bytes_be
bn_to_bytes_be-bn_from_bytes_be bytes bound h =
    let (k, e) = bn_from_bytes_be-value bytes bound h in
    ap (λ n. reverse (unload (bn_from_bytes_be bytes) 0 n)) (sym (length-reverse bytes))
    ∙ ap reverse (
        unload-bytes (reverse bytes) 0 (bn_from_bytes_be bytes)
          (omega (arith, length-reverse bytes, bound)) (IsBytes-reverse bytes h) k.1
          (omega (arith, e, little_endian-reverse bytes)))
    ∙ reverse-reverse bytes
