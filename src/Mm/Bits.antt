-- ===== src/Mm/Bits.antt =====
-- kernel/mm.h: reading a bit of the bitmap after one or a run of them has been set or cleared.
use native.Mathlib.Nat.{zero-div}
use mini_win.Base.{zero, suc, ◌≤◌, leb, ◌+◌, ◌<◌, arith, ℕ, ◌/◌, ◌%◌, ◌^◌, ◌≡◌, refl, true, false}
use mini_win.Base.{◌&&◌, ltb, ◌==◌, if◌then◌else◌}
use mini_win.Base.Bytes.{or_byte, and_byte, and_byte-lt}
use mini_win.Mm.{clear_bytes, bit, bit_set, bit_clr, set_run, clr_run, all_set}

-- Every address holds a byte.
abbrev pub IsBytes : (ℕ → ℕ) → Type 0
IsBytes m = (a : ℕ) → m a < 256

module _ (base : ℕ) where
  pub bit_set-IsBytes : (m : ℕ → ℕ) (p : ℕ) → IsBytes m → IsBytes (bit_set base m p)
  unfolding bit_set
  bit_set-IsBytes m p h a = ground (arith, h a)

  pub bit_clr-IsBytes : (m : ℕ → ℕ) (p : ℕ) → IsBytes m → IsBytes (bit_clr base m p)
  unfolding bit_clr
  bit_clr-IsBytes m p h a =
      ground (arith, h a, and_byte-lt (m (base + p / 8)) (p % 8) (h _) (omega arith))

  pub bit-bit_set :
      (m : ℕ → ℕ) (p q : ℕ)
      → IsBytes m
      → bit base (bit_set base m p) q ≡ (if q == p then true else bit base m q)
  unfolding bit bit_set
  bit-bit_set m p q h =
      ground (arith, or_byte (m (base + p / 8)) (p % 8) (q % 8) (h _) (omega arith) (omega arith))

  pub bit-bit_clr :
      (m : ℕ → ℕ) (p q : ℕ)
      → IsBytes m
      → bit base (bit_clr base m p) q ≡ (if q == p then false else bit base m q)
  unfolding bit bit_clr
  bit-bit_clr m p q h =
      ground (arith, and_byte (m (base + p / 8)) (p % 8) (q % 8) (h _) (omega arith) (omega arith))

  -- A run of bits, set or cleared.
  pub set_run-IsBytes : (m : ℕ → ℕ) (first n : ℕ) → IsBytes m → IsBytes (set_run base m first n)
  unfolding set_run
  set_run-IsBytes m first zero h = h
  set_run-IsBytes m first (suc n) h = bit_set-IsBytes _ (first + n) (set_run-IsBytes m first n h)

  pub clr_run-IsBytes : (m : ℕ → ℕ) (first n : ℕ) → IsBytes m → IsBytes (clr_run base m first n)
  unfolding clr_run
  clr_run-IsBytes m first zero h = h
  clr_run-IsBytes m first (suc n) h = bit_clr-IsBytes _ (first + n) (clr_run-IsBytes m first n h)

  pub bit-set_run :
      (m : ℕ → ℕ) (first n q : ℕ)
      → IsBytes m
      → bit base (set_run base m first n) q
        ≡ (if leb first q && ltb q (first + n) then true else bit base m q)
  unfolding set_run
  bit-set_run m first zero q h = ground arith
  bit-set_run m first (suc n) q h = ground (
    arith,
    bit-bit_set (set_run base m first n) (first + n) q (set_run-IsBytes m first n h),
    bit-set_run m first n q h,
  )

  pub bit-clr_run :
      (m : ℕ → ℕ) (first n q : ℕ)
      → IsBytes m
      → bit base (clr_run base m first n) q
        ≡ (if leb first q && ltb q (first + n) then false else bit base m q)
  unfolding clr_run
  bit-clr_run m first zero q h = ground arith
  bit-clr_run m first (suc n) q h = ground (
    arith,
    bit-bit_clr (clr_run base m first n) (first + n) q (clr_run-IsBytes m first n h),
    bit-clr_run m first n q h,
  )

  pub all_set-bit :
      (m : ℕ → ℕ) (first n q : ℕ)
      → all_set base m first n ≡ true
      → first ≤ q
      → q < first + n
      → bit base m q ≡ true
  unfolding all_set
  all_set-bit m first zero q h lo hi = absurd (omega arith)
  all_set-bit m first (suc n) q h lo hi = ground (arith, all_set-bit m (first + 1) n q)

  pub all_set_of :
      (m : ℕ → ℕ) (first n : ℕ)
      → ((q : ℕ) → first ≤ q → q < first + n → bit base m q ≡ true)
      → all_set base m first n ≡ true
  unfolding all_set
  all_set_of m first zero h = refl
  all_set_of m first (suc n) h =
      ground (arith, h first, all_set_of m (first + 1) n (λ q u v. h q (omega arith) (omega arith)))

  -- Cleared bytes hold clear bits, and the bits of other bytes stay.
  pub bit-clear_bytes :
      (m : ℕ → ℕ) (at n q : ℕ)
      → bit base (clear_bytes m at n) q
        ≡ (if leb at (base + q / 8) && ltb (base + q / 8) (at + n) then false else bit base m q)
  unfolding bit
  bit-clear_bytes m at n q = ground (arith, zero-div (2 ^ (q % 8)))

pub clear_bytes-IsBytes : (m : ℕ → ℕ) (at n : ℕ) → IsBytes m → IsBytes (clear_bytes m at n)
clear_bytes-IsBytes m at n h a = ground (arith, h a)
