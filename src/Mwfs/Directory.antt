-- ===== src/Mwfs/Directory.antt =====
-- kernel/mwfs.h: the entries of a directory, 64 bytes each, and the loops that go through them. A
-- directory of more than 16520 sectors fails at the first beyond, since mwfs_bmap has no place for it,
-- so that `s * 512` does not wrap.
use mini_win.Base.{ℕ, zero, suc, ◌+◌, ◌-◌, ◌*◌, ◌/◌, min, ◌⊎◌, inl, inr, Bool, true, false, not}
use mini_win.Base.{◌||◌, Option, none, some, List, ◌==◌, if◌then◌else◌, replicate}
use mini_win.Mwfs.{Volume, rd, wr, name_eq}
use mini_win.Mwfs.Inode.{Inode, le32, put_le32, overlay, ino_get}
use mini_win.Mwfs.Block.{Code, ok, io, noent, notdir, corrupt, is_ok, bmap, slice}

-- An entry in use: mwfs_dirent_t, with the sector and the place where it stands.
pub record Dirent : Type 0 where
  pub ino : ℕ
  pub kind : ℕ
  pub name : List ℕ
  pub sec : ℕ
  pub ent : ℕ

unfoldable pub entry_at : (ℕ → ℕ) → ℕ → ℕ → Dirent
entry_at b lba e = record {
  ino = le32 b (e * 64);
  kind = b (e * 64 + 4);
  name = slice b (e * 64 + 6) (min (b (e * 64 + 5)) 31);
  sec = lba;
  ent = e;
}

-- A sector of a directory that is missing, unread, or read.
pub data Sector : Type 0 where
  corrupted : Sector
  unread : Sector
  holds : ℕ → (ℕ → ℕ) → Sector

unfoldable pub dir_sector : Volume → Inode → ℕ → Sector
dir_sector v d s =
    let m = bmap v d s false false in
    if not (is_ok m.code) || m.lba == 0
    then corrupted
    else elim (rd v m.lba) [ none ↦ unread | some b ↦ holds m.lba b ]

-- The sectors that the loop over `s` goes through.
abbrev pub sectors_of : Inode → ℕ
sectors_of d = (d.size + 511) / 512

-- What mwfs_dir_nth answers: 1, 0 or -1.
pub data Nth : Type 0 where
  filled : Dirent → Nth
  no_more : Nth
  failed : Nth

-- Its loop over the entries of a sector, `left` before the last: the entry, or how many it has seen.
unfoldable pub nth_in : (ℕ → ℕ) → ℕ → ℕ → ℕ → ℕ → Dirent ⊎ ℕ
nth_in b lba idx zero seen = inr seen
nth_in b lba idx (suc left) seen =
    let e = 8 - suc left in
    let skip = nth_in b lba idx left seen in
    let rest = nth_in b lba idx left (seen + 1) in
    if le32 b (e * 64) == 0 then skip else if seen == idx then inl (entry_at b lba e) else rest

-- Its loop over the sectors, `left` before the last.
unfoldable pub nth_from : Volume → Inode → ℕ → ℕ → ℕ → Nth
nth_from v d idx zero seen = no_more
nth_from v d idx (suc left) seen = elim (dir_sector v d (sectors_of d - suc left)) [
  | corrupted ↦ failed
  | unread ↦ failed
  | holds lba b ↦ elim (nth_in b lba idx 8 seen) [
    | inl e ↦ filled e
    | inr now ↦ nth_from v d idx left now
  ]
]

-- mwfs_dir_nth
unfoldable pub dir_nth : Volume → ℕ → ℕ → Nth
dir_nth v dino idx = elim (ino_get v dino) [
  | none ↦ failed
  | some d ↦ if not (d.kind == 2) then failed else nth_from v d idx (sectors_of d) 0
]

abbrev pub is_no_more : Nth → Bool
is_no_more no_more = true
is_no_more _ = false

-- mwfs_dir_is_empty
unfoldable pub dir_is_empty : Volume → ℕ → Bool
dir_is_empty v dino = is_no_more (dir_nth v dino 0)

-- The two loops of mwfs_dir_find, and the function: the entry, or the error.
unfoldable pub find_in : (ℕ → ℕ) → ℕ → List ℕ → ℕ → Option Dirent
find_in b lba name zero = none
find_in b lba name (suc left) =
    let e = 8 - suc left in
    let rest = find_in b lba name left in
    if le32 b (e * 64) == 0
    then rest
    else if name_eq (entry_at b lba e).name name
    then some (entry_at b lba e)
    else rest

unfoldable pub find_from : Volume → Inode → List ℕ → ℕ → Code ⊎ Dirent
find_from v d name zero = inl noent
find_from v d name (suc left) = elim (dir_sector v d (sectors_of d - suc left)) [
  | corrupted ↦ inl corrupt
  | unread ↦ inl io
  | holds lba b ↦ elim (find_in b lba name 8) [ some e ↦ inr e | none ↦ find_from v d name left ]
]

unfoldable pub dir_find : Volume → ℕ → List ℕ → Code ⊎ Dirent
dir_find v dino name = elim (ino_get v dino) [
  | none ↦ inl io
  | some d ↦ if not (d.kind == 2) then inl notdir else find_from v d name (sectors_of d)
]

-- mwfs_dir_remove and mwfs_dir_retarget: what is written over the entry, and the sector written back.
pub rewrite_entry : Volume → ℕ → List ℕ → List ℕ → Code × Volume
rewrite_entry v dino name bytes = elim (dir_find v dino name) [
  | inl code ↦ (code, v)
  | inr e ↦ elim (rd v e.sec) [
    | none ↦ (io, v)
    | some b ↦ elim (wr v e.sec (overlay b (e.ent * 64) bytes)) [
      | none ↦ (io, v)
      | some v' ↦ (ok, v')
    ]
  ]
]

pub dir_remove : Volume → ℕ → List ℕ → Code × Volume
dir_remove v dino name = rewrite_entry v dino name (replicate 64 0)

pub dir_retarget : Volume → ℕ → List ℕ → ℕ → Code × Volume
dir_retarget v dino name ino = rewrite_entry v dino name (put_le32 ino)
