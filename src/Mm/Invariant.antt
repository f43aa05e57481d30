-- ===== src/Mm/Invariant.antt =====
-- kernel/mm.h: what holds of the page allocator's state between calls.
use mini_win.Base.{refl, subst, sym, false, some, arith, ℕ, ◌+◌, ◌-◌, ◌*◌, ◌/◌, ◌%◌, ◌^◌, ◌≤◌}
use mini_win.Base.{◌<◌, ◌≡◌, ◌≢◌, ◌↔◌, ◌⊎◌, Bool, true}
use mini_win.Mm.{Mm, page, bit, set_run, clear_bytes, count_clear, init_region, managed}
use mini_win.Mm.Bits.{IsBytes, set_run-IsBytes, clear_bytes-IsBytes, bit-set_run, bit-clear_bytes}
use mini_win.Mm.Count.{count_all_clear}

abbrev pub bit_at : Mm → ℕ → Bool
bit_at s p = bit s.base s.memory p

-- The range is initialised and below 2^18 pages (MM_MAX_TOP), its bitmap lies in its own first
-- pages and these are marked, the hint is a page to start from, and the counter of free pages is
-- the number of clear bits.
pub record IsReady (s : Mm) : Type 0 where
  pub started : s.base ≢ 0
  pub small : s.npages ≤ 2 ^ 18
  pub bytes : IsBytes s.memory
  pub covered : s.npages ≤ 32768 * s.bitmap_pages
  pub hint_lo : s.bitmap_pages ≤ s.hint
  pub hint_hi : s.hint ≤ s.npages
  pub own : (p : ℕ) → p < s.bitmap_pages → bit_at s p ≡ true
  pub counted : s.free_pg ≡ count_clear s.base s.memory s.bitmap_pages (s.npages - s.bitmap_pages)

-- How many pages the region that mm_init_region takes has, and how many its bitmap gets.
abbrev bitmap_room : ℕ → ℕ
bitmap_room n = (n / 8 + page - 1) / page

-- The bitmap has a bit for every page unless the number of pages is 1 to 7 above a multiple of
-- 32768: `n / 8` rounds down.
bitmap_covers_iff : (n : ℕ) → (n ≤ 32768 * bitmap_room n) ↔ ((n % 32768 ≡ 0) ⊎ (8 ≤ n % 32768))
bitmap_covers_iff n = (λ h. omega arith, λ h. omega arith)

module _ (m : ℕ → ℕ) (base n pages : ℕ) (h : IsBytes m) (fits : n ≤ 32768 * pages) where
  fresh : ℕ → ℕ
  fresh = set_run base (clear_bytes m base (pages * page)) 0 pages

  fresh-own : (p : ℕ) → p < pages → bit base fresh p ≡ true
  unfolding fresh
  fresh-own p q = ground (
    arith,
    bit-set_run base (clear_bytes m base (pages * page)) 0 pages p
        (clear_bytes-IsBytes m base (pages * page) h),
  )

  fresh-clear : (p : ℕ) → pages ≤ p → p < n → bit base fresh p ≡ false
  unfolding fresh
  fresh-clear p q r = ground (
    arith,
    bit-set_run base (clear_bytes m base (pages * page)) 0 pages p
        (clear_bytes-IsBytes m base (pages * page) h),
    bit-clear_bytes base m base (pages * page) p,
  )

  fresh-IsBytes : IsBytes fresh
  unfolding fresh
  fresh-IsBytes =
      set_run-IsBytes base (clear_bytes m base (pages * page)) 0 pages
        (clear_bytes-IsBytes m base (pages * page) h)

  fresh-counted : pages ≤ n → n - pages ≡ count_clear base fresh pages (n - pages)
  fresh-counted le =
      sym (count_all_clear base fresh pages (n - pages) (λ q u v. fresh-clear q u (omega arith)))

init_region-managed :
    (m : ℕ → ℕ) (base bytes : ℕ) {s : Mm}
    → init_region m base bytes ≡ some s
    → (managed m base (bytes / page) (bitmap_room (bytes / page)) ≡ s)
      × (base ≢ 0)
      × (8 ≤ bytes / page)
unfolding init_region
init_region-managed m base bytes e = ground arith

managed-IsReady :
    (m : ℕ → ℕ) (base n pages : ℕ)
    → IsBytes m
    → base ≢ 0
    → n ≤ 2 ^ 18
    → n ≤ 32768 * pages
    → pages ≤ n
    → IsReady (managed m base n pages)
unfolding fresh
managed-IsReady m base n pages h start small fits le = record {
  started = start;
  small = small;
  bytes = fresh-IsBytes m base n pages h fits;
  covered = fits;
  hint_lo = omega arith;
  hint_hi = le;
  own = fresh-own m base n pages h fits;
  counted = fresh-counted m base n pages h fits le;
}

-- The bitmap that mm_init_region sets up for a number of pages has a bit for every page unless that
-- number is 1 to 7 above a multiple of 32768.
pub init_region-covers_iff :
    (m : ℕ → ℕ) (base bytes : ℕ) {s : Mm}
    → init_region m base bytes ≡ some s
    → (s.npages ≤ 32768 * s.bitmap_pages) ↔ ((s.npages % 32768 ≡ 0) ⊎ (8 ≤ s.npages % 32768))
init_region-covers_iff m base bytes e =
    subst
      (λ s. (s.npages ≤ 32768 * s.bitmap_pages) ↔ ((s.npages % 32768 ≡ 0) ⊎ (8 ≤ s.npages % 32768)))
      (init_region-managed m base bytes e).0 (bitmap_covers_iff (bytes / page))

-- A region that mm_init_region accepts, of at most 2^18 pages and not 1 to 7 above a multiple of
-- 32768 of them, is ready for use, with every page free but those of the bitmap.
pub init_region-IsReady :
    (m : ℕ → ℕ) (base bytes : ℕ) {s : Mm}
    → IsBytes m
    → bytes / page ≤ 2 ^ 18
    → (bytes / page % 32768 ≡ 0) ⊎ (8 ≤ bytes / page % 32768)
    → init_region m base bytes ≡ some s
    → IsReady s × (s.npages ≡ bytes / page) × (s.free_pg ≡ s.npages - s.bitmap_pages)
init_region-IsReady m base bytes {s} h small whole e =
    let (is, start, enough) = init_region-managed m base bytes e in
    subst (λ s. IsReady s × (s.npages ≡ bytes / page) × (s.free_pg ≡ s.npages - s.bitmap_pages)) is
      (
        managed-IsReady m base (bytes / page) (bitmap_room (bytes / page)) h start small
            ((bitmap_covers_iff (bytes / page)).1 whole) (omega arith),
        refl,
        refl,
      )
