-- ===== src/Mwfs.antt =====
-- kernel/mwfs.h: the layout of a volume, the names of its files, and its free-space bitmap; inodes,
-- blocks and directories stand in the modules of those names. The disk
-- is what its sectors hold, with the sectors at which the driver (blk_read, blk_write) fails; every
-- operation passes the volume on. A name is the list of its characters up to the terminating 0.
pub mod Geometry
pub mod Names
pub mod Scan
pub mod Mounted
pub mod Alloc
pub mod Free
pub mod Inode
pub mod Block
pub mod Fields
pub mod Reading
pub mod Sectors
pub mod Table
pub mod Granting
pub mod Directory
pub mod Listing
pub mod Lookup
mod Tests
use mathlib.Core.Option
use mini_win.Base.{zero, suc, ◌+◌, ◌-◌, ◌*◌, ◌/◌, ◌%◌, ◌^◌, min, max, bit_and, bit_or, Bool, true}
use mini_win.Base.{false, not, ◌&&◌, ◌||◌, Option, none, some, List, [], ◌∷◌, ltb, leb, ◌==◌}
use mini_win.Base.{if◌then◌else◌, length, get_or, ℕ}

-- mwfs_vol_t, without its name and its label.
pub record Volume : Type 0 where
  pub base : ℕ
  pub sectors : ℕ
  pub inode_count : ℕ
  pub bitmap_lba : ℕ
  pub bitmap_sectors : ℕ
  pub itable_lba : ℕ
  pub itable_sectors : ℕ
  pub data_lba : ℕ
  pub cur_blk : ℕ
  pub cur_ino : ℕ
  pub contents : ℕ → ℕ → ℕ
  pub fails : ℕ → Bool

-- mwfs_geometry; `(inodes + 7) & ~7u` is the next multiple of 8.
abbrev inodes_for : ℕ → ℕ
inodes_for n = (min (max (n / 8) 32) 16384 + 7) / 8 * 8

abbrev pub laid_out : Volume → Volume
laid_out v = record v {
  inode_count = inodes_for v.sectors;
  bitmap_lba = 1;
  bitmap_sectors = (v.sectors + 4095) % 2 ^ 32 / 4096;
  itable_lba = 1 + (v.sectors + 4095) % 2 ^ 32 / 4096;
  itable_sectors = inodes_for v.sectors / 8;
  data_lba = 1 + (v.sectors + 4095) % 2 ^ 32 / 4096 + inodes_for v.sectors / 8;
}

pub geometry : Volume → Bool × Volume
geometry v =
    if ltb v.sectors 64 then (false, v) else (leb ((laid_out v).data_lba + 8) v.sectors, laid_out v)

-- The characters that mwfs_name_ok takes.
pub char_ok : ℕ → Bool
char_ok c =
    (leb 65 c && leb c 90)
    || (leb 97 c && leb c 122)
    || (leb 48 c && leb c 57)
    || c == 46
    || c == 95
    || c == 45
    || c == 44
    || c == 32
    || c == 40
    || c == 41

-- Its loop, from the character `n` on: whether it comes to the end of the name.
pub chars_ok : ℕ → List ℕ → Bool
chars_ok n [] = true
chars_ok n (c ∷ cs) = not (not (char_ok c) || leb 31 n) && chars_ok (n + 1) cs

-- mwfs_name_ok
pub name_ok : List ℕ → Bool
name_ok name =
    chars_ok 0 name
    && ltb 0 (length name)
    && not (get_or name 0 0 == 46)
    && not (get_or name 0 0 == 32)
    && not (get_or name (length name - 1) 0 == 32)

-- `if (x >= 'a' && x <= 'z') x = (char)(x - 32)`
abbrev pub upper : ℕ → ℕ
upper c = if leb 97 c && leb c 122 then c - 32 else c

-- mwfs_name_eq, where the end of a name is its 0.
pub name_eq : List ℕ → List ℕ → Bool
name_eq [] [] = true
name_eq [] (b ∷ bs) = if 0 == upper b then true else false
name_eq (a ∷ cs) [] = if upper a == 0 then true else false
name_eq (a ∷ cs) (b ∷ bs) =
    let rest = name_eq cs bs in
    if not (upper a == upper b) then false else if upper a == 0 then true else rest

-- mwfs_rd, and what mwfs_wr leaves if it works.
pub rd : Volume → ℕ → Option (ℕ → ℕ)
rd v lba =
    if ltb lba v.sectors && not (v.fails ((v.base + lba) % 2 ^ 32))
    then some (v.contents ((v.base + lba) % 2 ^ 32))
    else none

pub wr : Volume → ℕ → (ℕ → ℕ) → Option Volume
wr v lba b =
    if ltb lba v.sectors && not (v.fails ((v.base + lba) % 2 ^ 32))
    then some
        (record v { contents = λ s. if s == (v.base + lba) % 2 ^ 32 then b else v.contents s })
    else none

-- A bit of a sector of the bitmap, and the sector with the bit set or cleared.
pub bit_in : (ℕ → ℕ) → ℕ → Bool
bit_in b off = b (off / 8) / 2 ^ (off % 8) % 2 == 1

pub with_bit : Bool → (ℕ → ℕ) → ℕ → ℕ → ℕ
with_bit on b off i =
    if i == off / 8
    then (if on then bit_or (b i) (2 ^ (off % 8)) % 256 else bit_and (b i) (255 - 2 ^ (off % 8)))
    else b i

-- mwfs_bit_get and mwfs_bit_set
pub bit_get : Volume → ℕ → Option Bool
bit_get v lba = Option.map (λ b. bit_in b (lba % 4096)) (rd v (v.bitmap_lba + lba / 4096))

pub bit_set : Volume → ℕ → Bool → Option Volume
bit_set v lba on = elim (rd v (v.bitmap_lba + lba / 4096)) [
  | none ↦ none
  | some b ↦ wr v (v.bitmap_lba + lba / 4096) (with_bit on b (lba % 4096))
]

-- What the two inner loops of mwfs_alloc come to: a free data sector, a free bit past the end of the
-- volume, or nothing.
pub data Found : Type 0 where
  found : ℕ → Found
  past_end : Found
  nothing : Found

-- The loop over the bits of a byte of which `first` is the lowest sector, `left` rounds before its
-- end, and the loop over the bytes.
pub scan_bits : Volume → (ℕ → ℕ) → ℕ → ℕ → ℕ → Found
scan_bits v b i first zero = nothing
scan_bits v b i first (suc left) =
    let k = 7 - left in
    let rest = scan_bits v b i first left in
    if b i / 2 ^ k % 2 == 1
    then rest
    else if leb v.sectors (first + k)
    then past_end
    else if ltb (first + k) v.data_lba
    then rest
    else found (first + k)

pub scan_bytes : Volume → (ℕ → ℕ) → ℕ → ℕ → Found
scan_bytes v b si zero = nothing
scan_bytes v b si (suc left) =
    let i = 511 - left in
    let rest = scan_bytes v b si left in
    if b i == 255 then rest else elim (scan_bits v b i (si * 4096 + i * 8) 8) [
      | found lba ↦ found lba
      | past_end ↦ past_end
      | nothing ↦ rest
    ]

-- The loop over the sectors of the bitmap; 0 is `none`.
pub alloc_pass : Volume → ℕ → ℕ → Option (ℕ × Volume)
alloc_pass v start zero = none
alloc_pass v start (suc left) =
    let rest = alloc_pass v start left in
    let si = (start + (v.bitmap_sectors - suc left)) % v.bitmap_sectors in
    elim (rd v (v.bitmap_lba + si)) [
      | none ↦ none
      | some b ↦ elim (scan_bytes v b si 512) [
        | nothing ↦ rest
        | past_end ↦ none
        | found lba ↦
            Option.map (λ v'. (lba, record v' { cur_blk = lba + 1 }))
              (wr v (v.bitmap_lba + si) (with_bit true b (lba % 4096)))
      ]
    ]

-- mwfs_alloc
pub alloc : Volume → Option (ℕ × Volume)
alloc v =
    let start = v.cur_blk / 4096 in
    alloc_pass v (if leb v.bitmap_sectors start then 0 else start) v.bitmap_sectors

-- mwfs_free_sector
pub free_sector : Volume → ℕ → Volume
free_sector v lba =
    if leb v.data_lba lba && ltb lba v.sectors
    then (elim (bit_set v lba false) [ none ↦ v | some v' ↦ v' ])
    else v
