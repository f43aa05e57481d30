-- ===== src/Mwfs/Block.antt =====
-- kernel/mwfs.h: the sectors of a file. An operation that fails leaves what it has done so far, so that
-- each gives the volume and the inode with its answer.
use mini_win.Base.{◌^◌, ℕ, zero, suc, ◌+◌, ◌-◌, ◌*◌, ◌/◌, ◌%◌, min, Bool, true, false, not}
use mini_win.Base.{Option, none, some, List, [], ◌∷◌, ◌++◌, ltb, leb, ◌==◌, if◌then◌else◌, get_or}
use mini_win.Base.{set}
use mini_win.Mwfs.{Volume, rd, wr, alloc}
use mini_win.Mwfs.Inode.{Inode, le32, put_le32, overlay}

-- MWFS_OK and the errors MWFS_E_*.
pub data Code : Type 0 where
  ok io full noent exist notdir isdir notempty bad_name corrupt toobig nofs small perm xdev : Code

abbrev pub is_ok : Code → Bool
is_ok ok = true
is_ok _ = false

-- What mwfs_new_zeroed and mwfs_bmap leave: the code, the sector (`*out`), the inode and the volume.
pub record Mapped : Type 0 where
  pub code : Code
  pub lba : ℕ
  pub ino : Inode
  pub vol : Volume

-- mwfs_new_zeroed: the code, the sector if it is MWFS_OK, and the volume.
unfoldable pub new_zeroed : Volume → Code × ℕ × Volume
new_zeroed v = elim (alloc v) [
  | none ↦ (full, 0, v)
  | some (l, v') ↦ elim (wr v' l (λ i. 0)) [ none ↦ (io, 0, v') | some v'' ↦ (ok, l, v'') ]
]

-- A slot that is empty and to be filled: a zeroed sector or a sector as it is.
unfoldable pub new_sector : Volume → Bool → Code × ℕ × Volume
new_sector v zero_data =
    if zero_data
    then new_zeroed v
    else elim (alloc v) [ none ↦ (full, 0, v) | some (l, v') ↦ (ok, l, v') ]

-- Where a slot lies: a direct pointer of the inode, or an entry of a table with what it holds.
pub data Place : Type 0 where
  in_inode : ℕ → Place
  in_table : ℕ → (ℕ → ℕ) → ℕ → Place

abbrev pub slot_of : Inode → Place → ℕ
slot_of t (in_inode i) = get_or t.direct i 0
slot_of t (in_table tlba b j) = le32 b (j * 4)

-- The slot filled with a sector, and the table written back if there is one.
unfoldable pub fill : Volume → Inode → Place → ℕ → Mapped
fill v t (in_inode i) l = record {
  code = ok;
  lba = l;
  ino = record t { direct = set t.direct i l; nblocks = (t.nblocks + 1) % 2 ^ 32 };
  vol = v;
}
fill v t (in_table tlba b j) l =
    let counted = record t { nblocks = (t.nblocks + 1) % 2 ^ 32 } in
    elim (wr v tlba (overlay b (j * 4) (put_le32 l))) [
      | none ↦ record { code = io; lba = 0; ino = counted; vol = v }
      | some v' ↦ record { code = ok; lba = l; ino = counted; vol = v' }
    ]

-- The part of mwfs_bmap after the slot is found.
unfoldable pub at_slot : Volume → Inode → Place → Bool → Bool → Mapped
at_slot v t place create zero_data =
    let (code, l, v') = new_sector v zero_data in
    if not (slot_of t place == 0)
    then record { code = ok; lba = slot_of t place; ino = t; vol = v }
    else if not create
    then record { code = ok; lba = 0; ino = t; vol = v }
    else if is_ok code
    then fill v' t place l
    else record { code = code; lba = 0; ino = t; vol = v' }

-- A table that is read for one of its entries.
unfoldable pub in_table_at : Volume → Inode → ℕ → ℕ → Bool → Bool → Mapped
in_table_at v t tlba j create zero_data = elim (rd v tlba) [
  | none ↦ record { code = io; lba = 0; ino = t; vol = v }
  | some b ↦ at_slot v t (in_table tlba b j) create zero_data
]

-- The single-indirect case.
unfoldable pub by_ind : Volume → Inode → ℕ → Bool → Bool → Mapped
by_ind v t j create zero_data =
    let (code, l, v') = new_zeroed v in
    if not (t.ind == 0)
    then in_table_at v t t.ind j create zero_data
    else if not create
    then record { code = ok; lba = 0; ino = t; vol = v }
    else if is_ok code
    then in_table_at v' (record t { ind = l }) l j create zero_data
    else record { code = code; lba = 0; ino = t; vol = v' }

-- The double-indirect case, once there is a top table.
unfoldable pub by_top : Volume → Inode → ℕ → Bool → Bool → Mapped
by_top v t j create zero_data = elim (rd v t.dind) [
  | none ↦ record { code = io; lba = 0; ino = t; vol = v }
  | some top ↦
      let mid = le32 top (j / 128 * 4) in
      let (code, l, v') = new_zeroed v in
      if not (mid == 0)
      then in_table_at v t mid (j % 128) create zero_data
      else if not create
      then record { code = ok; lba = 0; ino = t; vol = v }
      else if not (is_ok code)
      then record { code = code; lba = 0; ino = t; vol = v' }
      else elim (wr v' t.dind (overlay top (j / 128 * 4) (put_le32 l))) [
        | none ↦ record { code = io; lba = 0; ino = t; vol = v' }
        | some v'' ↦ in_table_at v'' t l (j % 128) create zero_data
      ]
]

unfoldable pub by_dind : Volume → Inode → ℕ → Bool → Bool → Mapped
by_dind v t j create zero_data =
    let (code, l, v') = new_zeroed v in
    if leb 16384 j
    then record { code = toobig; lba = 0; ino = t; vol = v }
    else if not (t.dind == 0)
    then by_top v t j create zero_data
    else if not create
    then record { code = ok; lba = 0; ino = t; vol = v }
    else if is_ok code
    then by_top v' (record t { dind = l }) j create zero_data
    else record { code = code; lba = 0; ino = t; vol = v' }

-- mwfs_bmap
unfoldable pub bmap : Volume → Inode → ℕ → Bool → Bool → Mapped
bmap v t idx create zero_data =
    if ltb idx 8
    then at_slot v t (in_inode idx) create zero_data
    else if ltb (idx - 8) 128
    then by_ind v t (idx - 8) create zero_data
    else by_dind v t (idx - 8 - 128) create zero_data

-- `n` bytes of a sector from `i` on.
abbrev pub slice : (ℕ → ℕ) → ℕ → ℕ → List ℕ
slice b i zero = []
slice b i (suc n) = b i ∷ slice b (i + 1) n

-- A list to go in front of what may be missing.
abbrev pub front {ℓ} : {A : Type ℓ} → List A → Option (List A) → Option (List A)
front xs none = none
front xs (some ys) = some (xs ++ ys)

-- The sector of a file for reading: a hole is a sector of zeros.
unfoldable pub file_sector : Volume → Inode → ℕ → Option (ℕ → ℕ)
file_sector v t idx =
    let m = bmap v t idx false false in
    if not (is_ok m.code) then none else if m.lba == 0 then some (λ i. 0) else rd v m.lba

-- The loop of mwfs_pread with `todo` bytes to go at `pos`, and as many rounds as it may take.
unfoldable pub pread_loop : ℕ → Volume → Inode → ℕ → ℕ → Option (List ℕ)
pread_loop zero v t pos todo = some []
pread_loop (suc rounds) v t pos todo =
    let n = min (512 - pos % 512) todo in
    let rest = pread_loop rounds v t (pos + n) (todo - n) in
    if todo == 0 then some [] else elim (file_sector v t (pos / 512)) [
      | none ↦ none
      | some b ↦ front (slice b (pos % 512) n) rest
    ]

-- mwfs_pread: the bytes read, or nothing on an I/O error.
unfoldable pub pread : Volume → Inode → ℕ → ℕ → Option (List ℕ)
pread v t off len =
    if leb t.size off then some [] else (let n = min len (t.size - off) in pread_loop n v t off n)
