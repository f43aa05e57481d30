-- ===== src/Mm/Tests.antt =====
-- kernel/mm.h: a small region, and the theorems at it.
use mini_win.Base.{ℕ, ◌-◌, ◌*◌, ◌/◌, ◌%◌, ◌≤◌, ◌<◌, ◌≡◌, refl, ◌↔◌, ◌⊎◌, inr, true, false, none}
use mini_win.Base.{some, arith}
use mini_win.Mm.{Mm, page, managed, init_region, find_run, scan, bit, set_run, bit_set}
use mini_win.Mm.{pages_alloc_z, pages_free}
use mini_win.Mm.Bits.{IsBytes}
use mini_win.Mm.Invariant.{IsReady, bit_at, init_region-covers_iff, init_region-IsReady}
use mini_win.Mm.Alloc.{IsFreeRun, Granted, pages_alloc_z_lem}
use mini_win.Mm.Free.{IsUsedRun, Released, pages_free_lem}
use mini_win.Mm.RoundTrip.{pages_free-pages_alloc_z}

-- Sixteen pages from 1 MB on, over a memory of zeros.
abbrev zeros : ℕ → ℕ
zeros a = 0

abbrev small_region : Mm
small_region = managed zeros 0x100000 16 1

zeros-IsBytes : IsBytes zeros
zeros-IsBytes a = omega arith

small_region-made : init_region zeros 0x100000 65536 ≡ some small_region
unfolding init_region
small_region-made = refl

init_region-IsReady_example :
    IsReady small_region
    × (small_region.npages ≡ 65536 / page)
    × (small_region.free_pg ≡ small_region.npages - small_region.bitmap_pages)
init_region-IsReady_example =
    init_region-IsReady zeros 0x100000 65536 zeros-IsBytes (omega arith) (inr (omega arith))
      small_region-made

small_region-IsReady : IsReady small_region
small_region-IsReady =
    (init_region-IsReady zeros 0x100000 65536 zeros-IsBytes (omega arith) (inr (omega arith))
      small_region-made).0

-- 32775 pages are one of the sizes whose bitmap is too small.
abbrev large_region : Mm
large_region = managed zeros 0x100000 32775 1

large_region-made : init_region zeros 0x100000 134246400 ≡ some large_region
unfolding init_region
large_region-made = refl

init_region-covers_iff_example :
    (32775 ≤ 32768 * large_region.bitmap_pages) ↔ ((32775 % 32768 ≡ 0) ⊎ (8 ≤ 32775 % 32768))
init_region-covers_iff_example =
    init_region-covers_iff zeros 0x100000 134246400 {s = large_region} large_region-made

pages_alloc_z_lem_example :
    ((a : ℕ) × ((pages_alloc_z small_region 3 true).0 ≡ some a)
      × Granted small_region (pages_alloc_z small_region 3 true).1 3 a)
    ⊎ ((pages_alloc_z small_region 3 true ≡ (none, record small_region { failed = 1 }))
        × ((first : ℕ) → ¬ IsFreeRun small_region 3 first))
pages_alloc_z_lem_example =
    pages_alloc_z_lem {s = small_region} 3 true small_region-IsReady (omega arith)

pages_free_lem_example :
    ((first : ℕ) × IsUsedRun small_region 0x101000 1 first
      × ((pages_free small_region 0x101000 1).0 ≡ true)
      × Released small_region (pages_free small_region 0x101000 1).1 1 first)
    ⊎ ((pages_free small_region 0x101000 1 ≡ (false, record small_region { bad_frees = 1 }))
        × ((first : ℕ) → ¬ IsUsedRun small_region 0x101000 1 first))
pages_free_lem_example =
    pages_free_lem {s = small_region} 0x101000 1 small_region-IsReady (omega arith) (omega arith)

-- The first three free pages are the ones after the bitmap's.
small_grant : (pages_alloc_z small_region 3 true).0 ≡ some 0x101000
unfolding pages_alloc_z find_run scan bit set_run bit_set
small_grant = refl

pages_free-pages_alloc_z_example :
    let (freed, s'') = pages_free (pages_alloc_z small_region 3 true).1 0x101000 3 in
    (freed ≡ true)
    × IsReady s''
    × (s''.free_pg ≡ 15)
    × ((q : ℕ) → q < 16 → bit_at s'' q ≡ bit_at small_region q)
pages_free-pages_alloc_z_example =
    pages_free-pages_alloc_z {s = small_region} 3 true {a = 0x101000} small_region-IsReady
      (omega arith) (omega arith) small_grant
