-- ===== src/Bignum.antt =====
-- kernel/bignum.h: the multi-precision arithmetic under RSA and X25519. A number is the list of its
-- limbs, the least significant one first; every number has `limbs` of them, and a wide buffer twice
-- as many. A loop that goes up the limbs is a recursion on the list, one that comes down them looks
-- at the rest of the list first; an index that stays in step with a list is not kept.
pub mod Value
pub mod Mul
pub mod Bits
pub mod Reduce
pub mod Length
pub mod Power
pub mod Field
pub mod Bytes
mod Tests
use mathlib.Core.Option
use mini_win.Base.{reverse, set, zero, suc, min, bit_or, Option, none, some, ◌++◌, get_or, drop}
use mini_win.Base.{◌+◌, ◌-◌, ◌*◌, ◌/◌, ◌%◌, ◌^◌, Bool, true, false, not, List, [], ◌∷◌, ltb, ◌==◌}
use mini_win.Base.{if◌then◌else◌, take, replicate, ℕ}

-- BIGNUM_LIMBS
abbrev pub limbs : ℕ
limbs = 130

-- The base of the limbs, 2^32.
abbrev pub radix : ℕ
radix = 2 ^ 32

-- bn_zero
pub bn_zero : List ℕ
bn_zero = replicate limbs 0

-- bn_used_limbs, bn_wide's too: the scan from the top for a limb that is not zero.
pub used_limbs : List ℕ → ℕ
used_limbs [] = 0
used_limbs (x ∷ xs) =
    let above = used_limbs xs in
    if not (above == 0) then suc above else if not (x == 0) then 1 else 0

-- What bn_cmp gives: -1, 0 or 1.
pub data Order : Type 0 where
  less : Order
  equal : Order
  greater : Order

pub bn_cmp : List ℕ → List ℕ → Order
bn_cmp (x ∷ xs) (y ∷ ys) = elim (bn_cmp xs ys) [
  | less ↦ less
  | greater ↦ greater
  | equal ↦ if x == y then equal else if ltb x y then less else greater
]
bn_cmp [] ys = equal
bn_cmp (x ∷ xs) [] = equal

-- `bn_cmp(a, b) >= 0`
abbrev pub at_least : Order → Bool
at_least less = false
at_least equal = true
at_least greater = true

pub bn_ge : List ℕ → List ℕ → Bool
bn_ge xs ys = at_least (bn_cmp xs ys)

-- The loop of bn_sub from some limb on, with its borrow: a difference below 0 gets 2^32 added.
pub sub_from : ℕ → List ℕ → List ℕ → List ℕ
sub_from borrow (x ∷ xs) (y ∷ ys) =
    (if ltb x (y + borrow) then x + radix - (y + borrow) else x - (y + borrow))
    ∷ sub_from (if ltb x (y + borrow) then 1 else 0) xs ys
sub_from borrow [] ys = []
sub_from borrow (x ∷ xs) [] = []

pub bn_sub : List ℕ → List ℕ → List ℕ
bn_sub = sub_from 0

-- The loop of bn_add.
pub add_from : ℕ → List ℕ → List ℕ → List ℕ
add_from carry (x ∷ xs) (y ∷ ys) =
    (x + y + carry) % radix ∷ add_from ((x + y + carry) / radix) xs ys
add_from carry [] ys = []
add_from carry (x ∷ xs) [] = []

pub bn_add : List ℕ → List ℕ → List ℕ
bn_add = add_from 0

-- The `while (carry)` loop of bn_mul_wide, on the limbs from `k` on.
pub carry_on : ℕ → List ℕ → List ℕ
carry_on carry [] = []
carry_on carry (r ∷ rs) =
    let rest = carry_on ((r + carry) / radix) rs in
    if carry == 0 then r ∷ rs else (r + carry) % radix ∷ rest

-- The inner loop of bn_mul_wide and what follows it, on the limbs of the result from `i + j` on:
-- a limb `x` times the rest of the limbs of `b`.
pub mul_row : ℕ → List ℕ → List ℕ → ℕ → List ℕ
mul_row x [] rs carry = carry_on carry rs
mul_row x (y ∷ ys) [] carry = []
mul_row x (y ∷ ys) (r ∷ rs) carry =
    (x * y + r + carry) % radix ∷ mul_row x ys rs ((x * y + r + carry) / radix)

-- The outer loop, on the limbs of the result from `i` on; the limb at `i` is not touched again.
pub mul_rows : List ℕ → List ℕ → List ℕ → List ℕ
mul_rows [] ys rs = rs
mul_rows (x ∷ xs) ys rs =
    let rs' = if x == 0 then rs else mul_row x ys rs 0 in take 1 rs' ++ mul_rows xs ys (drop 1 rs')

-- bn_mul_wide
pub bn_mul_wide : List ℕ → List ℕ → List ℕ
bn_mul_wide xs ys =
    mul_rows (take (used_limbs xs) xs) (take (used_limbs ys) ys) (replicate (2 * limbs) 0)

-- The highest set bit among the lowest `n` of a limb.
pub highest : ℕ → ℕ → Option ℕ
highest zero x = none
highest (suc n) x = let below = highest n x in if x / 2 ^ n % 2 == 1 then some n else below

-- bn_wide_bit_length, on the limbs from `limb` on; -1 is `none`.
pub bit_length_from : ℕ → List ℕ → Option ℕ
bit_length_from limb [] = none
bit_length_from limb (x ∷ xs) = elim (bit_length_from (limb + 1) xs) [
  | some b ↦ some b
  | none ↦ Option.map (λ bit. limb * 32 + bit) (highest 32 x)
]

-- The sum that bn_bit_length returns, for the highest used limb and the top bit found in it.
abbrev pub up_to : ℕ → Option ℕ → ℕ
up_to limb none = limb * 32
up_to limb (some bit) = limb * 32 + bit + 1

-- bn_bit_length
pub bn_bit_length : List ℕ → ℕ
bn_bit_length xs =
    let used = used_limbs xs in
    if used == 0 then 0 else up_to (used - 1) (highest 32 (get_or xs (used - 1) 0))

-- The shift of the remainder by one bit, over its first `work` limbs; the rest stay.
pub shift_left : ℕ → ℕ → List ℕ → List ℕ
shift_left zero carry rs = rs
shift_left (suc work) carry [] = []
shift_left (suc work) carry (r ∷ rs) =
    bit_or (r * 2 % radix) carry ∷ shift_left work (r / 2 ^ 31) rs

-- `rem.limb[0] |= in_bit`
pub or_low : ℕ → List ℕ → List ℕ
or_low b [] = []
or_low b (r ∷ rs) = bit_or r b ∷ rs

-- `(wide[bit / 32] >> (bit % 32)) & 1`
pub bit_of : List ℕ → ℕ → ℕ
bit_of wide bit = get_or wide (bit / 32) 0 / 2 ^ (bit % 32) % 2

-- One round of the loop of bn_mod_wide.
pub mod_step : List ℕ → ℕ → List ℕ → ℕ → List ℕ
mod_step m work rem in_bit =
    let shifted = or_low in_bit (shift_left work 0 rem) in
    if bn_ge shifted m then bn_sub shifted m else shifted

-- The rounds for the lowest `n` bits, from the highest of them down.
pub mod_bits : List ℕ → List ℕ → ℕ → ℕ → List ℕ → List ℕ
mod_bits wide m work zero rem = rem
mod_bits wide m work (suc bit) rem =
    mod_bits wide m work bit (mod_step m work rem (bit_of wide bit))

-- How many rounds a top bit makes.
abbrev pub rounds : Option ℕ → ℕ
rounds none = 0
rounds (some b) = b + 1

-- bn_mod_wide
pub bn_mod_wide : List ℕ → List ℕ → List ℕ
bn_mod_wide wide m =
    mod_bits wide m (min (used_limbs m + 1) limbs) (rounds (bit_length_from 0 wide)) bn_zero

-- bn_mulmod
pub bn_mulmod : List ℕ → List ℕ → List ℕ → List ℕ
bn_mulmod a b m = bn_mod_wide (bn_mul_wide a b) m

-- bn_addmod and bn_submod
pub bn_addmod : List ℕ → List ℕ → List ℕ → List ℕ
bn_addmod a b m = let sum = bn_add a b in if bn_ge sum m then bn_sub sum m else sum

pub bn_submod : List ℕ → List ℕ → List ℕ → List ℕ
bn_submod a b m = if bn_ge a b then bn_sub a b else bn_sub m (bn_sub b a)

-- `acc = 1`
pub bn_one : List ℕ
bn_one = 1 ∷ replicate 129 0

-- The base, reduced where it is not below the modulus.
pub reduced_base : List ℕ → List ℕ → List ℕ
reduced_base base m = if bn_ge base m then bn_mod_wide (base ++ replicate limbs 0) m else base

-- The square-and-multiply loop over the lowest `n` bits, from the highest of them down.
pub power : (ℕ → ℕ) → List ℕ → List ℕ → ℕ → List ℕ → List ℕ
power bit b m zero acc = acc
power bit b m (suc i) acc =
    let sq = bn_mulmod acc acc m in power bit b m i (if bit i == 0 then sq else bn_mulmod sq b m)

-- bn_modpow_u32exp, with an exponent of 32 bits, and bn_modpow, with one of any number of limbs.
pub bn_modpow_u32exp : List ℕ → ℕ → List ℕ → List ℕ
bn_modpow_u32exp base e m =
    power (λ i. e / 2 ^ i % 2) (reduced_base base m) m (rounds (highest 32 e)) bn_one

pub bn_modpow : List ℕ → List ℕ → List ℕ → List ℕ
bn_modpow base e m = power (bit_of e) (reduced_base base m) m (bn_bit_length e) bn_one

-- The loop of bn_from_bytes_be from the byte `i` on, the least significant one first.
pub load : ℕ → List ℕ → List ℕ → List ℕ
load i [] xs = xs
load i (b ∷ bs) xs = load (i + 1) bs (
    if ltb (i / 4) limbs
    then set xs (i / 4) (bit_or (get_or xs (i / 4) 0) (b * 2 ^ (i % 4 * 8) % radix))
    else xs)

-- bn_from_bytes_be
pub bn_from_bytes_be : List ℕ → List ℕ
bn_from_bytes_be bytes = load 0 (reverse bytes) bn_zero

-- The loop of bn_to_bytes_be from the byte `i` on, with `n` rounds left.
pub unload : List ℕ → ℕ → ℕ → List ℕ
unload xs i zero = []
unload xs i (suc n) =
    (if ltb (i / 4) limbs then get_or xs (i / 4) 0 / 2 ^ (i % 4 * 8) % 256 else 0)
    ∷ unload xs (i + 1) n

-- bn_to_bytes_be
pub bn_to_bytes_be : List ℕ → ℕ → List ℕ
bn_to_bytes_be xs out_len = reverse (unload xs 0 out_len)
