-- ===== src/Mwfs/Free.antt =====
-- kernel/mwfs.h: mwfs_free_sector gives a data sector back, and the bitmap stays one of a mounted
-- volume.
use mini_win.Base.{sym, ◌∙◌, some, subst, some_eq, ℕ, ◌/◌, ◌%◌, ◌≤◌, ◌<◌, ◌≡◌, refl, ◌⊎◌, inl}
use mini_win.Base.{inr, true, false, ◌&&◌, arith, ltb, leb, ◌==◌, if◌then◌else◌, Bool-cases}
use mini_win.Mwfs.Alloc.{Allocated, alloc-Allocated}
use mini_win.Mwfs.{alloc, Volume, with_bit, bit_set, free_sector}
use mini_win.Mwfs.Mounted.{IsMounted, in_use, at_sector, read_bitmap, write_bitmap, with_use}
use mini_win.Mwfs.Mounted.{sector-lt, in_use-with_use, with_use-IsMounted}

free_sector-with_use :
    (v : Volume) (lba : ℕ)
    → IsMounted v
    → v.data_lba ≤ lba
    → lba < v.sectors
    → free_sector v lba ≡ with_use v lba false
unfolding free_sector bit_set
free_sector-with_use v lba h lo hi =
    let lt = sector-lt h false lba lo hi in
    rw
      (
        in_data,
        read_bitmap h (lba / 4096) lt,
        write_bitmap h (lba / 4096)
            (with_bit false (v.contents (at_sector v (lba / 4096))) (lba % 4096)) lt,
      )
      refl
  where
    in_data : (leb v.data_lba lba && ltb lba v.sectors) ≡ true
    in_data = ground arith

-- mwfs_free_sector, on a mounted volume: a data sector becomes free and no other bit changes; any
-- other number leaves the volume as it is; the volume stays mounted.
pub free_sector-IsMounted :
    (v : Volume) (lba : ℕ)
    → IsMounted v
    → IsMounted (free_sector v lba)
      × (((v.data_lba ≤ lba)
            × (lba < v.sectors)
            × ((l : ℕ) → in_use (free_sector v lba) l ≡ (if l == lba then false else in_use v l)))
          ⊎ (((lba < v.data_lba) ⊎ (v.sectors ≤ lba)) × (free_sector v lba ≡ v)))
unfolding free_sector
free_sector-IsMounted v lba h = elim (Bool-cases (leb v.data_lba lba && ltb lba v.sectors)) [
  | inl inside ↦
      let lo : v.data_lba ≤ lba = ground (arith, inside) in
      let hi : lba < v.sectors = ground (arith, inside) in
      rw (free_sector-with_use v lba h lo hi)
        (with_use-IsMounted h false lba lo hi, inl (lo, hi, in_use-with_use h false lba lo hi))
  | inr outside ↦ rw outside (h, inr (ground (arith, outside), refl))
]

give_back :
    {v v' : Volume} (lba : ℕ)
    → Allocated v lba v'
    → IsMounted (free_sector v' lba) × ((l : ℕ) → in_use (free_sector v' lba) l ≡ in_use v l)
give_back {v} {v'} lba a =
    let (m, o) = free_sector-IsMounted v' lba a.mounted in
    (
      m,
      elim o [
        | inr (bad, _) ↦ absurd (omega (arith, a.of_data, a.within, a.same))
        | inl (_, _, bits) ↦ λ l. ground (arith, bits l, a.taken l, a.free)
      ],
    )

-- On a mounted volume, giving back the sector that mwfs_alloc has granted leaves a mounted volume
-- whose bitmap has every bit as it was before the grant.
pub free_sector-alloc :
    (v : Volume) {lba : ℕ} {v' : Volume}
    → IsMounted v
    → alloc v ≡ some (lba, v')
    → IsMounted (free_sector v' lba) × ((l : ℕ) → in_use (free_sector v' lba) l ≡ in_use v l)
free_sector-alloc v {lba} {v'} h e = elim (alloc-Allocated v h) [
  | inr (none_left, _) ↦ cc (none_left, e)
  | inl (lba', w, f, a) ↦
      subst
        (λ p.
          IsMounted (free_sector p.1 p.0) × ((l : ℕ) → in_use (free_sector p.1 p.0) l ≡ in_use v l))
        (some_eq (sym f ∙ e)) (give_back lba' a)
]
