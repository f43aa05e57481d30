-- ===== src/Mwfs/Alloc.antt =====
-- kernel/mwfs.h: mwfs_alloc hands out a free data sector, and fails on a disk that works only when
-- there is none.
use mathlib.Core.Option
use native.Mathlib.Decide.{dec_lt}
use native.Mathlib.Nat.{mod-lt, mod-eq_of_lt, add-mod_right}
use mini_win.Base.{◌⊎◌, leb, Option-cases, zero, suc, ◌-◌, ap, ◌∙◌, inl, inr, Option, none}
use mini_win.Base.{Bool-cases, refl, arith, subst, ℕ, ◌+◌, ◌*◌, ◌/◌, ◌%◌, ◌≤◌, ◌<◌, ◌≡◌, ◌≢◌}
use mini_win.Base.{true, false, some, ◌==◌, if◌then◌else◌}
use mini_win.Mwfs.{Volume, wr, bit_in, with_bit, Found, found, past_end, nothing, scan_bytes}
use mini_win.Mwfs.{alloc_pass, alloc}
use mini_win.Mwfs.Mounted.{IsMounted, in_use, at_sector, read_bitmap, write_bitmap, with_use}
use mini_win.Mwfs.Mounted.{in_use-with_use, with_use-IsMounted}
use mini_win.Mwfs.Scan.{Finds, scan_bytes-Finds}

-- What a grant is: a data sector that was free and is in use now; no other bit has changed.
pub record Allocated (v : Volume) (lba : ℕ) (v' : Volume) : Type 0 where
  pub of_data : v.data_lba ≤ lba
  pub within : lba < v.sectors
  pub free : in_use v lba ≡ false
  pub taken : (l : ℕ) → in_use v' l ≡ (if l == lba then true else in_use v l)
  pub elsewhere :
      (s i : ℕ) → s ≢ v.base + (v.bitmap_lba + lba / 4096) → v'.contents s i ≡ v.contents s i
  pub next : v'.cur_blk ≡ lba + 1
  pub same : (v'.data_lba ≡ v.data_lba) × (v'.sectors ≡ v.sectors)
  pub mounted : IsMounted v'

module _ {v : Volume} (h : IsMounted v) where
  -- What a grant leaves.
  granted : ℕ → Volume
  granted lba = record (with_use v lba true) { cur_blk = lba + 1 }

  granted-Allocated :
      (lba : ℕ)
      → in_use v lba ≡ false
      → v.data_lba ≤ lba
      → lba < v.sectors
      → Allocated v lba (granted lba)
  unfolding granted
  granted-Allocated lba clear lo hi =
      let m = with_use-IsMounted h true lba lo hi in
      record {
        of_data = lo;
        within = hi;
        free = clear;
        taken = in_use-with_use h true lba lo hi;
        elsewhere = λ t i ne. elsewhere t i ne;
        next = refl;
        same = (refl, refl);
        mounted = record {
          works = m.works;
          inside = m.inside;
          data_inside = m.data_inside;
          covers = m.covers;
          addressable = m.addressable;
          marked =
              λ t lt. record { bytes = (m.marked t lt).bytes; outside = (m.marked t lt).outside };
        };
      }
    where
      elsewhere :
          (t i : ℕ) → t ≢ at_sector v (lba / 4096) → (granted lba).contents t i ≡ v.contents t i
      elsewhere t i ne = elim (Bool-cases (t == at_sector v (lba / 4096))) [
        | inl same ↦ absurd (ne (ground (arith, same)))
        | inr other ↦ rw other refl
      ]

  -- What the loop comes to, with `left` sectors of the bitmap still to look at.
  Answers : ℕ → ℕ → Option (ℕ × Volume) → Type 0
  Answers start left none =
      (j : ℕ)
      → v.bitmap_sectors - left ≤ j
      → j < v.bitmap_sectors
      → (off : ℕ) → off < 4096
      → bit_in (v.contents (at_sector v ((start + j) % v.bitmap_sectors))) off ≡ true
  Answers start left (some (lba, v')) = Allocated v lba v'

  -- A sector that has been looked at without a find.
  one_more :
      (start left si : ℕ) (q : Option (ℕ × Volume))
      → si ≡ (start + (v.bitmap_sectors - suc left)) % v.bitmap_sectors
      → suc left ≤ v.bitmap_sectors
      → ((off : ℕ) → off < 4096 → bit_in (v.contents (at_sector v si)) off ≡ true)
      → Answers start left q
      → Answers start (suc left) q
  unfolding Answers
  one_more start left si (some a) e le f g = g
  one_more start left si none e le f g = λ j x y off z.
      elim (dec_lt (v.bitmap_sectors - suc left) j) [
        | yes l ↦ g j (omega arith) y off z
        | no l ↦
            subst (λ t. bit_in (v.contents (at_sector v t)) off ≡ true) {x = si}
              {y = (start + j) % v.bitmap_sectors}
              (e
                ∙ ap (λ k. (start + k) % v.bitmap_sectors) {x = v.bitmap_sectors - suc left} {y = j}
                    (omega arith))
              (f off z)
      ]

  after :
      (start left si : ℕ) (r : Found) (q : Option (ℕ × Volume))
      → si ≡ (start + (v.bitmap_sectors - suc left)) % v.bitmap_sectors
      → si < v.bitmap_sectors
      → suc left ≤ v.bitmap_sectors
      → Finds v (v.contents (at_sector v si)) si 0 4096 r
      → Answers start left q
      → Answers start (suc left) (elim r [
        | nothing ↦ q
        | past_end ↦ none
        | found lba ↦
            Option.map
              (λ v'. (lba, record v' { cur_blk = lba + 1 }))
              (wr v (v.bitmap_lba + si) (with_bit true (v.contents (at_sector v si)) (lba % 4096)))
      ])
  unfolding granted Answers
  after start left si nothing q e lt le f g =
      one_more start left si q e le (λ off z. f off (omega arith) z) g
  after start left si past_end q e lt le f g = absurd f
  after start left si (found lba) q e lt le (off, at, small, clear, lo, hi) g =
      subst
        (λ t. Answers start (suc left) (
          Option.map (λ v'. (lba, record v' { cur_blk = lba + 1 }))
            (wr v (v.bitmap_lba + t) (with_bit true (v.contents (at_sector v t)) (lba % 4096)))))
        {x = lba / 4096} {y = si} (omega arith)
        (rw
          (write_bitmap h (lba / 4096)
            (with_bit true (v.contents (at_sector v (lba / 4096))) (lba % 4096))
            (omega (arith, lt)))
          (granted-Allocated lba (free_bit si lba off at small clear) lo hi))
    where
      free_bit :
          (si lba off : ℕ)
          → lba ≡ si * 4096 + off
          → off < 4096
          → bit_in (v.contents (at_sector v si)) off ≡ false
          → in_use v lba ≡ false
      free_bit si lba off at small clear =
          subst (λ o. bit_in (v.contents (at_sector v (lba / 4096))) o ≡ false) {x = off}
            {y = lba % 4096} (omega arith)
            (subst (λ t. bit_in (v.contents (at_sector v t)) off ≡ false) {x = si} {y = lba / 4096}
              (omega arith) clear)

  alloc_pass-Answers :
      (start left : ℕ) → left ≤ v.bitmap_sectors → Answers start left (alloc_pass v start left)
  unfolding alloc_pass Answers
  alloc_pass-Answers start zero le = λ j x y off z. absurd (omega arith)
  alloc_pass-Answers start (suc left) le =
      let si = (start + (v.bitmap_sectors - suc left)) % v.bitmap_sectors in
      let lt : si < v.bitmap_sectors =
        mod-lt (start + (v.bitmap_sectors - suc left)) (omega arith) in
      rw (read_bitmap h si lt, alloc_pass)
        (after start left si (scan_bytes v (v.contents (at_sector v si)) si 512)
          (alloc_pass v start left) refl lt le
          (scan_bytes-Finds v (v.contents (at_sector v si)) si (h.marked si lt) 512 (omega arith))
          (alloc_pass-Answers start left (omega arith)))

-- Going round from any start reaches every sector.
reached : (n start s : ℕ) → start < n → s < n → (j : ℕ) × (j < n) × ((start + j) % n ≡ s)
reached n start s a b = elim (dec_lt s start) [
  | no l ↦ (
    s - start,
    omega arith,
    ap (λ k. k % n) {x = start + (s - start)} {y = s} (omega arith) ∙ mod-eq_of_lt b,
  )
  | yes l ↦ (
    s + n - start,
    omega arith,
    ap (λ k. k % n) {x = start + (s + n - start)} {y = s + n} (omega arith)
        ∙ add-mod_right s n
        ∙ mod-eq_of_lt b,
  )
]

-- mwfs_alloc, on a mounted volume: it grants a free data sector, marks it and changes no other bit,
-- and the volume stays mounted; or it fails without a change and every sector is in use.
pub alloc-Allocated :
    (v : Volume)
    → IsMounted v
    → ((lba : ℕ) × (v' : Volume) × (alloc v ≡ some (lba, v')) × Allocated v lba v')
      ⊎ ((alloc v ≡ none) × ((lba : ℕ) → lba < v.sectors → in_use v lba ≡ true))
unfolding alloc Answers
alloc-Allocated v h = elim (Option-cases (alloc v)) [
  | inr ((lba, v'), e) ↦
      inl (lba, v', e, subst (Answers h (first v) v.bitmap_sectors) e (answers h))
  | inl e ↦
      inr (e, λ lba lt. all h (subst (Answers h (first v) v.bitmap_sectors) e (answers h)) lba lt)
]
  where
    first : Volume → ℕ
    first v = if leb v.bitmap_sectors (v.cur_blk / 4096) then 0 else v.cur_blk / 4096

    answers : (h : IsMounted v) → Answers h (first v) v.bitmap_sectors (alloc v)
    answers h = alloc_pass-Answers h (first v) v.bitmap_sectors (omega arith)

    all :
        (h : IsMounted v)
        → Answers h (first v) v.bitmap_sectors none
        → (lba : ℕ) → lba < v.sectors
        → in_use v lba ≡ true
    all h g lba lt =
        let (j, bound, reach) =
          reached v.bitmap_sectors (first v) (lba / 4096) (ground (arith, h.covers))
            (omega (arith, h.covers)) in
        subst (λ t. bit_in (v.contents (at_sector v t)) (lba % 4096) ≡ true) reach
          (g j (omega arith) bound (lba % 4096) (omega arith))
