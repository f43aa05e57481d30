-- ===== src/Mm/Free.antt =====
-- kernel/mm.h: mm_pages_free gives a run back or refuses, and what it takes back can be had again.

use mini_win.Base.{refl, ap, ◌∙◌, ◌⊎◌, inl, inr, false, subst, Bool-cases, ◌%◌, Bool, not, ◌&&◌}
use mini_win.Base.{arith, leb, ◌==◌, ℕ, ◌+◌, ◌-◌, ◌*◌, ◌/◌, ◌^◌, ◌≤◌, ◌<◌, ◌≡◌, true, ltb}
use mini_win.Base.{if◌then◌else◌}
use mini_win.Mm.{Mm, page, u32, clr_run, all_set, refuse, pages_free}
use mini_win.Mm.Bits.{clr_run-IsBytes, bit-clr_run, all_set-bit, all_set_of}
use mini_win.Mm.Count.{count_changed, count_all_clear, count_all_set, count-le}
use mini_win.Mm.Invariant.{IsReady, bit_at}

-- What mm_pages_free checks of an address and a count: a page boundary past the bitmap, whose `n`
-- pages lie in the range and are all marked.
pub record IsUsedRun (s : Mm) (address n first : ℕ) : Type 0 where
  pub at : address ≡ s.base + first * page
  pub some_pages : 0 < n
  pub lo : s.bitmap_pages ≤ first
  pub hi : first + n ≤ s.npages
  pub used : (q : ℕ) → first ≤ q → q < first + n → bit_at s q ≡ true

abbrev released : Mm → ℕ → ℕ → Mm
released s first n = record s {
  memory = clr_run s.base s.memory first n;
  free_pg = s.free_pg + n;
  hint = if ltb first s.hint then first else s.hint;
}

-- The checks of mm_pages_free, with no sum that wraps.
abbrev passes : Mm → ℕ → ℕ → ℕ → Bool
passes s p n first =
    not (ltb p s.base)
    && (p - s.base) % page == 0
    && not (n == 0)
    && leb s.bitmap_pages first
    && leb (first + n) s.npages
    && all_set s.base s.memory first n

module _ {s : Mm} (r : IsReady s) (p n : ℕ) (word : n < 2 ^ 31) (address : p < 2 ^ 32) where
  abbrev first_of : ℕ
  first_of = (p - s.base) / page

  sum_fits : u32 (first_of + n) ≡ first_of + n
  sum_fits = omega arith

  rounds : u32 (first_of + n) - first_of ≡ n
  rounds = omega arith

  free-le : s.free_pg ≤ s.npages
  free-le = omega (
    arith,
    r.counted,
    count-le s.base s.memory s.bitmap_pages (s.npages - s.bitmap_pages),
    r.hint_lo,
    r.hint_hi,
  )

  free_fits : u32 (s.free_pg + n) ≡ s.free_pg + n
  free_fits = omega (arith, r.small, free-le)

  without_wrap :
      pages_free s p n ≡ (if passes s p n first_of then (true, released s first_of n) else refuse s)
  unfolding pages_free
  without_wrap = rw (rounds, sum_fits, free_fits) (ground (arith, r.started))

  passes-IsUsedRun : passes s p n first_of ≡ true → IsUsedRun s p n first_of
  passes-IsUsedRun e = record {
    at = ground arith;
    some_pages = ground arith;
    lo = ground arith;
    hi = ground arith;
    used = λ q u v. all_set-bit s.base s.memory first_of n q (ground arith) u v;
  }

  IsUsedRun-first : {first : ℕ} → IsUsedRun s p n first → first ≡ first_of
  IsUsedRun-first u = omega (arith, u.at)

  IsUsedRun-passes : {first : ℕ} → IsUsedRun s p n first → passes s p n first_of ≡ true
  IsUsedRun-passes {first} u =
      subst (λ k. passes s p n k ≡ true) (IsUsedRun-first u)
        (ground (arith, u.at, u.lo, u.hi, u.some_pages, all_set_of s.base s.memory first n u.used))

-- What a successful call leaves.
pub record Released (s s' : Mm) (n first : ℕ) : Type 0 where
  pub bits :
      (q : ℕ) → bit_at s' q ≡ (if leb first q && ltb q (first + n) then false else bit_at s q)
  pub more : s'.free_pg ≡ s.free_pg + n
  pub ready : IsReady s'

released-Released :
    {s : Mm} (r : IsReady s) (p n first : ℕ)
    → IsUsedRun s p n first
    → Released s (released s first n) n first
released-Released {s} r p n first u = record {
  bits = bits;
  more = refl;
  ready = record {
    started = r.started;
    small = r.small;
    bytes = clr_run-IsBytes s.base s.memory first n r.bytes;
    covered = r.covered;
    hint_lo = ground (arith, u.lo, r.hint_lo);
    hint_hi = ground (arith, u.hi, r.hint_hi);
    own = λ p h. ground (arith, bits p, u.lo, r.own p);
    counted = omega (
      arith,
      r.counted,
      count_changed s.base s.memory (released s first n).memory s.bitmap_pages s.npages first n 0 n
          u.lo u.hi (λ q x y z. ground (arith, bits q))
          (count_all_set s.base s.memory first n u.used)
          (count_all_clear s.base (released s first n).memory first n
            (λ q x y. ground (arith, bits q))),
    );
  };
}
  where
    bits :
        (q : ℕ)
        → bit_at (released s first n) q
          ≡ (if leb first q && ltb q (first + n) then false else bit_at s q)
    bits q = bit-clr_run s.base s.memory first n q r.bytes

-- mm_pages_free, on a ready state, for a count below 2^31 and an address below 2^32: a run of
-- marked pages past the bitmap is released, and anything else is refused and only counted.
pub pages_free_lem :
    {s : Mm} (p n : ℕ)
    → IsReady s
    → n < 2 ^ 31
    → p < 2 ^ 32
    → ((first : ℕ) × IsUsedRun s p n first
        × ((pages_free s p n).0 ≡ true)
        × Released s (pages_free s p n).1 n first)
      ⊎ ((pages_free s p n ≡ (false, record s { bad_frees = u32 (s.bad_frees + 1) }))
          × ((first : ℕ) → ¬ IsUsedRun s p n first))
unfolding refuse
pages_free_lem {s} p n r word address =
    let first = (p - s.base) / page in
    let e = without_wrap r p n word address in
    elim (Bool-cases (passes s p n first)) [
      | inl ok ↦
          let u = passes-IsUsedRun r p n word address ok in
          let e' : pages_free s p n ≡ (true, released s first n) = e ∙ rw ok in
          inl (first, u, ap (λ x. x.0) e', rw e' (released-Released r p n first u))
      | inr bad ↦ inr (e ∙ rw bad, λ first u. cc (IsUsedRun-passes r p n word address u))
    ]
