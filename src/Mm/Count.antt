-- ===== src/Mm/Count.antt =====
-- kernel/mm.h: counting the clear bits of the bitmap, as mm_check does.
use native.Mathlib.Nat.{add-zero, add-suc, add_assoc}
use mini_win.Base.{◌-◌, ap, ◌⊎◌, inl, inr, ℕ, zero, suc, ◌+◌, ◌≤◌, ◌<◌, ◌≡◌, refl, true, false}
use mini_win.Base.{arith}
use mini_win.Mm.{bit, count_clear}

module _ (base : ℕ) where
  pub count-append :
      (m : ℕ → ℕ) (from a b : ℕ)
      → count_clear base m from (a + b)
        ≡ count_clear base m from a + count_clear base m (from + a) b
  unfolding count_clear
  count-append m from a zero = rw add-zero (omega arith)
  count-append m from a (suc b) = rw (add-suc, add_assoc) (omega (arith, count-append m from a b))

  pub count-le : (m : ℕ → ℕ) (from n : ℕ) → count_clear base m from n ≤ n
  unfolding count_clear
  count-le m from zero = omega arith
  count-le m from (suc n) = ground (arith, count-le m from n)

  -- Only the counted bits matter.
  pub count_ext :
      (m m' : ℕ → ℕ) (from n : ℕ)
      → ((q : ℕ) → from ≤ q → q < from + n → bit base m q ≡ bit base m' q)
      → count_clear base m from n ≡ count_clear base m' from n
  unfolding count_clear
  count_ext m m' from zero h = refl
  count_ext m m' from (suc n) h = rw (
    count_ext m m' from n (λ q u v. h q u (omega arith)),
    h (from + n) (omega arith) (omega arith),
  )

  pub count_all_clear :
      (m : ℕ → ℕ) (from n : ℕ)
      → ((q : ℕ) → from ≤ q → q < from + n → bit base m q ≡ false)
      → count_clear base m from n ≡ n
  unfolding count_clear
  count_all_clear m from zero h = refl
  count_all_clear m from (suc n) h =
      ground (arith, count_all_clear m from n (λ q u v. h q u (omega arith)), h (from + n))

  pub count_all_set :
      (m : ℕ → ℕ) (from n : ℕ)
      → ((q : ℕ) → from ≤ q → q < from + n → bit base m q ≡ true)
      → count_clear base m from n ≡ 0
  unfolding count_clear
  count_all_set m from zero h = refl
  count_all_set m from (suc n) h =
      ground (arith, count_all_set m from n (λ q u v. h q u (omega arith)), h (from + n))

  -- A range from `lo` to `hi` in which the `n` bits from `first` on change, from `c` clear ones to
  -- `c'`, and no others.
  pub count_changed :
      (m m' : ℕ → ℕ) (lo hi first n c c' : ℕ)
      → lo ≤ first
      → first + n ≤ hi
      → ((q : ℕ) → lo ≤ q → q < hi → (q < first) ⊎ (first + n ≤ q) → bit base m q ≡ bit base m' q)
      → count_clear base m first n ≡ c
      → count_clear base m' first n ≡ c'
      → count_clear base m lo (hi - lo) + c' ≡ count_clear base m' lo (hi - lo) + c
  count_changed m m' lo hi first n c c' x y same old new =
      let a = first - lo in
      let b = hi - (first + n) in
      let e : hi - lo ≡ a + n + b = omega arith in
      let f : lo + a ≡ first = omega arith in
      let g : lo + (a + n) ≡ first + n = omega arith in
      rw e (
        omega (
          arith,
          count-append m lo (a + n) b,
          count-append m' lo (a + n) b,
          count-append m lo a n,
          count-append m' lo a n,
          ap (λ (k : ℕ). count_clear base m k n) f,
          ap (λ (k : ℕ). count_clear base m' k n) f,
          count_ext m m' lo a (λ q u v. same q u (omega arith) (inl (omega arith))),
          count_ext m m' (lo + (a + n)) b
              (λ q u v. same q (omega arith) (omega arith) (inr (omega arith))),
        ))

  -- A clear run is counted.
  pub count-ge :
      (m : ℕ → ℕ) (lo hi first n : ℕ)
      → lo ≤ first
      → first + n ≤ hi
      → ((q : ℕ) → first ≤ q → q < first + n → bit base m q ≡ false)
      → n ≤ count_clear base m lo (hi - lo)
  count-ge m lo hi first n x y clear =
      let a = first - lo in
      let b = hi - (first + n) in
      let e : hi - lo ≡ a + n + b = omega arith in
      let f : lo + a ≡ first = omega arith in
      rw e (
        omega (
          arith,
          count-append m lo (a + n) b,
          count-append m lo a n,
          ap (λ (k : ℕ). count_clear base m k n) f,
          count_all_clear m first n clear,
        ))
