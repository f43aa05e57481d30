-- ===== src/Mm/Alloc.antt =====
-- kernel/mm.h: mm_pages_alloc_z hands out a run of free pages and nothing else, and fails only when
-- there is no such run.
use native.Mathlib.Decide.{dec_lt, dec_le}
use mini_win.Base.{refl, ap, ◌≢◌, ◌⊎◌, ◌*◌, false, sym, ◌∙◌, Bool, true, ◌&&◌, Option, ltb, leb}
use mini_win.Base.{if◌then◌else◌, ℕ, ◌+◌, ◌-◌, ◌≤◌, ◌<◌, min, ◌≡◌, inl, inr, none, some, arith}
use mini_win.Base.{Option-cases}
use mini_win.Mm.{Mm, page, u32, bit, set_run, count_clear, find_run, take_run, scan}
use mini_win.Mm.{pages_alloc_z}
use mini_win.Mm.Bits.{IsBytes, set_run-IsBytes, clear_bytes-IsBytes, bit-set_run, bit-clear_bytes}
use mini_win.Mm.Count.{count_changed, count_all_clear, count_all_set, count-le, count-ge}
use mini_win.Mm.Search.{IsClear, FirstRun, scan-FirstRun, scan-none}
use mini_win.Mm.Invariant.{IsReady, bit_at}

-- A run of `n` free pages within the managed range, past the bitmap.
pub record IsFreeRun (s : Mm) (n first : ℕ) : Type 0 where
  pub lo : s.bitmap_pages ≤ first
  pub hi : first + n ≤ s.npages
  pub clear : IsClear s.base s.memory first n

module _ {s : Mm} (r : IsReady s) (n : ℕ) (pos : 0 < n) (enough : n ≤ s.free_pg) where
  free-le : s.free_pg ≤ s.npages
  free-le = omega (
    arith,
    r.counted,
    count-le s.base s.memory s.bitmap_pages (s.npages - s.bitmap_pages),
    r.hint_lo,
    r.hint_hi,
  )

  no_wrap : u32 (s.hint + n) ≡ s.hint + n
  no_wrap = omega (arith, free-le, r.small, r.hint_hi)

  abbrev second_pass : ℕ
  second_pass = min (u32 (s.hint + n)) s.npages - s.bitmap_pages

  abbrev first_scan : Option ℕ
  first_scan = scan s.base s.memory n (s.npages - s.hint) s.hint 0

  abbrev second_scan : Option ℕ
  second_scan = scan s.base s.memory n second_pass s.bitmap_pages 0

  in_first : {g : ℕ} → first_scan ≡ some g → find_run s n ≡ some g
  unfolding find_run
  in_first e = rw (e, find_run)

  in_second : first_scan ≡ none → find_run s n ≡ second_scan
  unfolding find_run
  in_second e = rw (e, find_run)

  FirstRun-IsFreeRun :
      (lo left : ℕ) {first : ℕ}
      → s.bitmap_pages ≤ lo
      → lo + left ≤ s.npages
      → FirstRun s.base s.memory n (lo - 0) (lo + left) first
      → IsFreeRun s n first
  FirstRun-IsFreeRun lo left x y f = record {
    lo = omega (arith, f.after);
    hi = omega (arith, f.before);
    clear = f.clear;
  }

  scanned :
      (lo left : ℕ) {first : ℕ}
      → s.bitmap_pages ≤ lo
      → lo + left ≤ s.npages
      → scan s.base s.memory n left lo 0 ≡ some first
      → IsFreeRun s n first
  scanned lo left x y e = FirstRun-IsFreeRun lo left x y (
      scan-FirstRun s.base s.memory n left lo 0 pos pos (omega arith)
        (λ q u v. absurd (omega arith)) e)

  find_run-IsFreeRun : {first : ℕ} → find_run s n ≡ some first → IsFreeRun s n first
  find_run-IsFreeRun {first} e = elim (Option-cases first_scan) [
    | inr (g, one) ↦
        scanned s.hint (s.npages - s.hint) r.hint_lo (omega (arith, r.hint_hi))
          (one ∙ (sym (in_first one) ∙ e))
    | inl none_yet ↦
        scanned s.bitmap_pages second_pass (omega arith) (omega (arith, r.hint_lo, r.hint_hi))
          (sym (in_second none_yet) ∙ e)
  ]

  find_run-none : (g : ℕ) → find_run s n ≡ none → ¬ IsFreeRun s n g
  find_run-none g e f = elim (Option-cases first_scan) [
    | inr (h, one) ↦ cc (in_first one)
    | inl none_yet ↦ elim (dec_lt g s.hint) [
      | yes early ↦
          scan-none s.base s.memory n second_pass s.bitmap_pages 0 g pos pos (omega arith)
            (sym (in_second none_yet) ∙ e) (omega (arith, f.lo)) (omega (arith, f.hi, no_wrap))
            f.clear
      | no late ↦
          scan-none s.base s.memory n (s.npages - s.hint) s.hint 0 g pos pos (omega arith) none_yet
            (omega arith) (omega (arith, f.hi, r.hint_hi)) f.clear
    ]
  ]

  module _ (zero_fill : Bool) {first : ℕ} (f : IsFreeRun s n first) where
    abbrev marked : ℕ → ℕ
    marked = set_run s.base s.memory first n

    -- The bits of the managed pages afterwards: zero-filling writes to no byte of the bitmap.
    pub bit-take_run :
        (q : ℕ)
        → q < s.npages
        → bit_at (take_run s n zero_fill first) q
          ≡ (if leb first q && ltb q (first + n) then true else bit_at s q)
    unfolding take_run
    bit-take_run q h =
        elim zero_fill
          as (λ z.
            bit_at (take_run s n z first) q
            ≡ (if leb first q && ltb q (first + n) then true else bit_at s q)) [
              | true ↦ ground (
                arith,
                r.covered,
                f.lo,
                bit-clear_bytes s.base marked (s.base + first * page) (u32 (n * page)) q,
                bit-set_run s.base s.memory first n q r.bytes,
              )
              | false ↦ bit-set_run s.base s.memory first n q r.bytes
            ]

    take_run-IsBytes : IsBytes (take_run s n zero_fill first).memory
    unfolding take_run
    take_run-IsBytes = elim zero_fill as (λ z. IsBytes (take_run s n z first).memory) [
      | true ↦
          clear_bytes-IsBytes marked (s.base + first * page) (u32 (n * page))
            (set_run-IsBytes s.base s.memory first n r.bytes)
      | false ↦ set_run-IsBytes s.base s.memory first n r.bytes
    ]

    same :
        (q : ℕ)
        → q < s.npages
        → (q < first) ⊎ (first + n ≤ q)
        → bit s.base s.memory q ≡ bit s.base (take_run s n zero_fill first).memory q
    unfolding take_run
    same q v w = ground (arith, bit-take_run q v)

    used :
        (q : ℕ)
        → first ≤ q
        → q < first + n
        → bit s.base (take_run s n zero_fill first).memory q ≡ true
    unfolding take_run
    used q u v = ground (arith, bit-take_run q (omega (arith, f.hi)))

    take_run-counted :
        s.free_pg - n
        ≡ count_clear s.base
            (take_run s n zero_fill first).memory
            s.bitmap_pages
            (s.npages - s.bitmap_pages)
    take_run-counted = omega (
      arith,
      r.counted,
      count_changed s.base s.memory (take_run s n zero_fill first).memory s.bitmap_pages s.npages
          first n n 0 f.lo f.hi (λ q u v w. same q v w)
          (count_all_clear s.base s.memory first n f.clear)
          (count_all_set s.base (take_run s n zero_fill first).memory first n
            (λ q u v. used q u v)),
    )

    pub take_run-IsReady : IsReady (take_run s n zero_fill first)
    unfolding take_run
    take_run-IsReady = record {
      started = r.started;
      small = r.small;
      bytes = take_run-IsBytes;
      covered = r.covered;
      hint_lo = ground (arith, f.lo);
      hint_hi = ground (arith, f.hi, r.hint_lo, r.hint_hi);
      own = λ p h.
          ground (arith, bit-take_run p (omega (arith, r.hint_lo, r.hint_hi)), f.lo, r.own p);
      counted = take_run-counted;
    }

-- What a successful call leaves: the address of a run of pages that were free and lie past the
-- bitmap, marked now, every other page as it was, that many fewer pages free, and a ready state.
pub record Granted (s s' : Mm) (n address : ℕ) : Type 0 where
  pub first : ℕ
  pub at : address ≡ s.base + first * page
  pub run : IsFreeRun s n first
  pub bits :
      (q : ℕ)
      → q < s.npages
      → bit_at s' q ≡ (if leb first q && ltb q (first + n) then true else bit_at s q)
  pub fewer : s'.free_pg + n ≡ s.free_pg
  pub range : (s'.base ≡ s.base) × (s'.npages ≡ s.npages) × (s'.bitmap_pages ≡ s.bitmap_pages)
  pub ready : IsReady s'

pages_alloc-found :
    (s : Mm) (n : ℕ) (z : Bool)
    → s.base ≢ 0
    → 0 < n
    → n ≤ s.free_pg
    → (first : ℕ) → find_run s n ≡ some first
    → pages_alloc_z s n z ≡ (some (s.base + first * page), take_run s n z first)
unfolding pages_alloc_z
pages_alloc-found s n z b pos enough first e = rw (e, pages_alloc_z) (ground arith)

pages_alloc-full :
    (s : Mm) (n : ℕ) (z : Bool)
    → find_run s n ≡ none
    → pages_alloc_z s n z ≡ (none, record s { failed = u32 (s.failed + 1) })
unfolding pages_alloc_z
pages_alloc-full s n z e = rw (e, pages_alloc_z) (ground arith)

pages_alloc-short :
    (s : Mm) (n : ℕ) (z : Bool)
    → ¬ (n ≤ s.free_pg)
    → pages_alloc_z s n z ≡ (none, record s { failed = u32 (s.failed + 1) })
unfolding pages_alloc_z
pages_alloc-short s n z short = ground arith

take_run-Granted :
    {s : Mm} (r : IsReady s) (n : ℕ) (z : Bool) (pos : 0 < n) (enough : n ≤ s.free_pg) {first : ℕ}
    → IsFreeRun s n first
    → Granted s (take_run s n z first) n (s.base + first * page)
unfolding take_run
take_run-Granted {s} r n z pos enough {first} f = record {
  first = first;
  at = refl;
  run = f;
  bits = bit-take_run r n pos enough z f;
  fewer = omega arith;
  range = (refl, refl, refl);
  ready = take_run-IsReady r n pos enough z f;
}

-- mm_pages_alloc_z, on a ready state and for at least one page: where there is a run of that many
-- free pages, it grants one; where there is none, it returns 0 and only counts the failure.
pub pages_alloc_z_lem :
    {s : Mm} (n : ℕ) (z : Bool)
    → IsReady s
    → 0 < n
    → ((a : ℕ) × ((pages_alloc_z s n z).0 ≡ some a) × Granted s (pages_alloc_z s n z).1 n a)
      ⊎ ((pages_alloc_z s n z ≡ (none, record s { failed = u32 (s.failed + 1) }))
          × ((first : ℕ) → ¬ IsFreeRun s n first))
pages_alloc_z_lem {s} n z r pos = elim (dec_le n s.free_pg) [
  | yes enough ↦ elim (Option-cases (find_run s n)) [
    | inr (first, e) ↦
        let same = pages_alloc-found s n z r.started pos enough first e in
        inl (
          s.base + first * page,
          ap (λ x. x.0) same,
          rw same (take_run-Granted r n z pos enough (find_run-IsFreeRun r n pos enough e)),
        )
    | inl e ↦ inr (pages_alloc-full s n z e, λ first. find_run-none r n pos enough first e)
  ]
  | no short ↦ inr (
    pages_alloc-short s n z short,
    λ first f. short (
        omega (
          arith,
          r.counted,
          count-ge s.base s.memory s.bitmap_pages s.npages first n f.lo f.hi f.clear,
        )),
  )
]
