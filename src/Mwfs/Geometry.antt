-- ===== src/Mwfs/Geometry.antt =====
-- kernel/mwfs.h: mwfs_geometry lays a volume out.
use mini_win.Base.{refl, inl, inr, arith, ltb, Bool-cases, ◌+◌, ◌*◌, ◌≤◌, ◌<◌, ◌≡◌, ◌⊎◌, true}
use mini_win.Base.{false}
use mini_win.Mwfs.{Volume, geometry, laid_out}

-- The areas of a volume follow one another, each large enough for what it holds.
pub record IsLaidOut (v : Volume) : Type 0 where
  pub bitmap_after : v.bitmap_lba ≡ 1
  pub bitmap_covers : v.sectors ≤ v.bitmap_sectors * 4096
  pub bitmap_tight : v.bitmap_sectors * 4096 < v.sectors + 4096
  pub itable_after : v.itable_lba ≡ v.bitmap_lba + v.bitmap_sectors
  pub itable_exact : v.inode_count ≡ v.itable_sectors * 8
  pub inodes : (32 ≤ v.inode_count) × (v.inode_count ≤ 16384)
  pub data_after : v.data_lba ≡ v.itable_lba + v.itable_sectors
  pub room : v.data_lba + 8 ≤ v.sectors

-- mwfs_geometry accepts exactly the volumes of 64 sectors or more, up to 2^32 - 4096 of them, and
-- lays out bitmap, inode table and data one after another, each large enough, with room for data; a
-- smaller volume is left as it is.
pub geometry-IsLaidOut :
    (v : Volume)
    → v.sectors ≤ 4294963200
    → ((64 ≤ v.sectors)
        × ((geometry v).0 ≡ true)
        × IsLaidOut (geometry v).1
        × ((geometry v).1.sectors ≡ v.sectors))
      ⊎ ((v.sectors < 64) × (geometry v ≡ (false, v)))
unfolding geometry
geometry-IsLaidOut v small = elim (Bool-cases (ltb v.sectors 64)) [
  | inl tiny ↦ inr (ground (arith, tiny), rw tiny refl)
  | inr enough ↦
      rw enough
        (inl (ground (arith, enough), ground (arith, enough), laid (ground (arith, enough)), refl))
]
  where
    laid : 64 ≤ v.sectors → IsLaidOut (laid_out v)
    laid h = record {
      bitmap_after = refl;
      bitmap_covers = omega arith;
      bitmap_tight = omega arith;
      itable_after = refl;
      itable_exact = omega arith;
      inodes = (omega arith, omega arith);
      data_after = refl;
      room = omega arith;
    }
