-- ===== src/Mm.antt =====
-- kernel/mm.h: the page-frame allocator. Memory is a function from addresses to bytes, so the
-- bitmap lies at the start of the managed range as in the kernel; a null pointer is address 0, and
-- what a function returns through a pointer that may be null is an option. `x >> 3` and `x & 7` are
-- written `x / 8` and `x % 8`, and every `u32` sum that could wrap is cut to 32 bits.
pub mod Bits
pub mod Count
pub mod Search
pub mod Invariant
pub mod Alloc
pub mod Free
pub mod RoundTrip
mod Tests
use mini_win.Base.{ℕ, zero, suc, ◌+◌, ◌-◌, ◌*◌, ◌/◌, ◌%◌, ◌^◌, min, bit_and, bit_or, Bool, true}
use mini_win.Base.{false, not, ◌&&◌, ◌||◌, Option, none, some, ltb, leb, ◌==◌, if◌then◌else◌}

-- The static variables of the page allocator, and the memory.
pub record Mm : Type 0 where
  pub base : ℕ
  pub npages : ℕ
  pub bitmap_pages : ℕ
  pub hint : ℕ
  pub free_pg : ℕ
  pub failed : ℕ
  pub bad_frees : ℕ
  pub memory : ℕ → ℕ

abbrev pub page : ℕ
page = 4096

abbrev pub u32 : ℕ → ℕ
u32 n = n % 2 ^ 32

-- One byte stored.
abbrev pub store : (ℕ → ℕ) → ℕ → ℕ → ℕ → ℕ
store m at v a = if a == at then v else m a

-- The `n` bytes from `at` on set to 0.
abbrev pub clear_bytes : (ℕ → ℕ) → ℕ → ℕ → ℕ → ℕ
clear_bytes m at n a = if leb at a && ltb a (at + n) then 0 else m a

module _ (base : ℕ) where
  -- mm_bit
  pub bit : (ℕ → ℕ) → ℕ → Bool
  bit m p = m (base + p / 8) / 2 ^ (p % 8) % 2 == 1

  -- mm_bit_set
  pub bit_set : (ℕ → ℕ) → ℕ → ℕ → ℕ
  bit_set m p = store m (base + p / 8) (bit_or (m (base + p / 8)) (2 ^ (p % 8)) % 256)

  -- mm_bit_clr: `(u8)~(1 << k)` is 255 - 2^k.
  pub bit_clr : (ℕ → ℕ) → ℕ → ℕ → ℕ
  bit_clr m p = store m (base + p / 8) (bit_and (m (base + p / 8)) (255 - 2 ^ (p % 8)))

  -- The loops that set or clear `n` bits from `first` on.
  pub set_run : (ℕ → ℕ) → ℕ → ℕ → ℕ → ℕ
  set_run m first zero = m
  set_run m first (suc n) = bit_set (set_run m first n) (first + n)

  pub clr_run : (ℕ → ℕ) → ℕ → ℕ → ℕ → ℕ
  clr_run m first zero = m
  clr_run m first (suc n) = bit_clr (clr_run m first n) (first + n)

  -- The loop over `p`, `left` rounds before its end, with `run` clear bits just before `p`: the
  -- first page of the run that it finds.
  pub scan : (ℕ → ℕ) → ℕ → ℕ → ℕ → ℕ → Option ℕ
  scan m n zero p run = none
  scan m n (suc left) p run = elim (bit m p) [
    | true ↦ scan m n left (p + 1) 0
    | false ↦ elim (run + 1 == n) [
      | true ↦ some (p + 1 - n)
      | false ↦ scan m n left (p + 1) (run + 1)
    ]
  ]

  -- The check of mm_pages_free: whether all `n` bits from `first` on are set.
  pub all_set : (ℕ → ℕ) → ℕ → ℕ → Bool
  all_set m first zero = true
  all_set m first (suc n) = bit m first && all_set m (first + 1) n

-- What mm_init_region sets up: the bitmap's bytes cleared, then its own pages marked.
abbrev pub managed : (ℕ → ℕ) → ℕ → ℕ → ℕ → Mm
managed m base n pages = record {
  base = base;
  npages = n;
  bitmap_pages = pages;
  hint = pages;
  free_pg = n - pages;
  failed = 0;
  bad_frees = 0;
  memory = set_run base (clear_bytes m base (pages * page)) 0 pages;
}

-- mm_init_region on `bytes` bytes from `base`, over what the memory holds.
pub init_region : (ℕ → ℕ) → ℕ → ℕ → Option Mm
init_region m base bytes =
    let n = bytes / page in
    if base == 0 || ltb n 8 || not (base % page == 0)
    then none
    else some (managed m base n ((n / 8 + page - 1) / page))

-- The two passes of mm_pages_alloc_z: from the hint on, and then from the start up to where a run
-- that begins before the hint can end.
pub find_run : Mm → ℕ → Option ℕ
find_run s n = elim (scan s.base s.memory n (s.npages - s.hint) s.hint 0) [
  | some first ↦ some first
  | none ↦
      scan s.base s.memory n (min (u32 (s.hint + n)) s.npages - s.bitmap_pages) s.bitmap_pages 0
]

-- What it does with the run that it found.
pub take_run : Mm → ℕ → Bool → ℕ → Mm
take_run s n zero_fill first =
    let m = set_run s.base s.memory first n in
    record s {
      free_pg = s.free_pg - n;
      hint = if ltb (first + n) s.npages then first + n else s.bitmap_pages;
      memory = if zero_fill then clear_bytes m (s.base + first * page) (u32 (n * page)) else m;
    }

-- mm_pages_alloc_z
pub pages_alloc_z : Mm → ℕ → Bool → Option ℕ × Mm
pages_alloc_z s n zero_fill =
    if s.base == 0 || n == 0 || ltb s.free_pg n
    then (none, record s { failed = u32 (s.failed + 1) })
    else elim (find_run s n) [
      | some first ↦ (some (s.base + first * page), take_run s n zero_fill first)
      | none ↦ (none, record s { failed = u32 (s.failed + 1) })
    ]

-- mm_pages_alloc, mm_page_alloc
pub pages_alloc : Mm → ℕ → Option ℕ × Mm
pages_alloc s n = pages_alloc_z s n false

pub page_alloc : Mm → Option ℕ × Mm
page_alloc s = pages_alloc_z s 1 true

refuse : Mm → Bool × Mm
refuse s = (false, record s { bad_frees = u32 (s.bad_frees + 1) })

-- mm_pages_free
pub pages_free : Mm → ℕ → ℕ → Bool × Mm
unfolding refuse
pages_free s p n =
    let off = p - s.base in
    let first = off / page in
    if s.base == 0 || ltb p s.base || not (off % page == 0) || n == 0
    then refuse s
    else if ltb first s.bitmap_pages || ltb s.npages (u32 (first + n))
    then refuse s
    else if not (all_set s.base s.memory first (u32 (first + n) - first))
    then refuse s
    else (
      true,
      record s {
        memory = clr_run s.base s.memory first (u32 (first + n) - first);
        free_pg = u32 (s.free_pg + n);
        hint = if ltb first s.hint then first else s.hint;
      },
    )

-- The page numbers of mm_stats: total, free, used.
pub page_stats : Mm → ℕ × ℕ × ℕ
page_stats s = (s.npages - s.bitmap_pages, s.free_pg, s.npages - s.bitmap_pages - s.free_pg)

-- The number of clear bits among the `n` from `from` on, as mm_check recounts them.
pub count_clear : ℕ → (ℕ → ℕ) → ℕ → ℕ → ℕ
count_clear base m from zero = 0
count_clear base m from (suc n) =
    count_clear base m from n + (if bit base m (from + n) then 0 else 1)
