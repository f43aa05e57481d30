-- ===== src/Base/Bytes.antt =====
-- One bit of a byte set or cleared, by evaluation over all bytes.
use Prim.Native.Nat.{ℕ, ◌-◌, ◌/◌, ◌%◌, ◌^◌, ◌<◌, bit_and, bit_or}
use mathlib.Core.Path.{◌≡◌, refl}
use mathlib.Core.Bool.{Bool, true, false, not}
use mini_win.Base.Tests.{ltb, ◌==◌, if◌then◌else◌, every_below, every_below_sound, ltb→lt}

abbrev bool_eqb : Bool → Bool → Bool
bool_eqb true b = b
bool_eqb false b = not b

bool_eqb-eq : (a b : Bool) → bool_eqb a b ≡ true → a ≡ b
bool_eqb-eq true true h = refl
bool_eqb-eq true false h = cc
bool_eqb-eq false true h = cc
bool_eqb-eq false false h = refl

-- The bit `j` of a byte, and what setting or clearing bit `k` makes of it.
abbrev pub byte_bit : ℕ → ℕ → Bool
byte_bit b j = b / 2 ^ j % 2 == 1

abbrev or_law : ℕ → ℕ → ℕ → Bool
or_law b k j =
    bool_eqb (byte_bit (bit_or b (2 ^ k) % 256) j) (if j == k then true else byte_bit b j)

abbrev and_law : ℕ → ℕ → ℕ → Bool
and_law b k j =
    bool_eqb (byte_bit (bit_and b (255 - 2 ^ k)) j) (if j == k then false else byte_bit b j)

or_table : every_below 256 (λ b. every_below 8 (λ k. every_below 8 (or_law b k))) ≡ true
unfolding every_below
or_table = refl

and_table : every_below 256 (λ b. every_below 8 (λ k. every_below 8 (and_law b k))) ≡ true
unfolding every_below
and_table = refl

and_stays : every_below 256 (λ b. every_below 8 (λ k. ltb (bit_and b (255 - 2 ^ k)) 256)) ≡ true
unfolding every_below
and_stays = refl

pub or_byte :
    (b k j : ℕ)
    → b < 256
    → k < 8
    → j < 8
    → byte_bit (bit_or b (2 ^ k) % 256) j ≡ (if j == k then true else byte_bit b j)
or_byte b k j hb hk hj = bool_eqb-eq _ _ (
    every_below_sound 8 (or_law b k) j
      (every_below_sound 8 _ k (every_below_sound 256 _ b or_table hb) hk) hj)

pub and_byte :
    (b k j : ℕ)
    → b < 256
    → k < 8
    → j < 8
    → (byte_bit (bit_and b (255 - 2 ^ k)) j ≡ (if j == k then false else byte_bit b j))
and_byte b k j hb hk hj = bool_eqb-eq _ _ (
    every_below_sound 8 (and_law b k) j
      (every_below_sound 8 _ k (every_below_sound 256 _ b and_table hb) hk) hj)

pub and_byte-lt : (b k : ℕ) → b < 256 → k < 8 → bit_and b (255 - 2 ^ k) < 256
and_byte-lt b k hb hk =
    ltb→lt _ _ (every_below_sound 8 _ k (every_below_sound 256 _ b and_stays hb) hk)
