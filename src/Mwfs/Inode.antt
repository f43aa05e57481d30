-- ===== src/Mwfs/Inode.antt =====
-- kernel/mwfs.h: the inodes of a volume, in the sectors of its inode table.
use mini_win.Base.{ℕ, zero, suc, ◌+◌, ◌-◌, ◌*◌, ◌/◌, ◌%◌, ◌^◌, ◌&&◌, ◌||◌, Option, none, some}
use mini_win.Base.{List, [], ◌∷◌, ◌++◌, ltb, leb, ◌==◌, if◌then◌else◌, length, get_or, replicate}
use mini_win.Mwfs.{Volume, rd, wr}

-- mwfs_ino_t; the direct pointers are a list of eight.
pub record Inode : Type 0 where
  pub kind : ℕ
  pub flags : ℕ
  pub size : ℕ
  pub crc : ℕ
  pub aux : ℕ
  pub nblocks : ℕ
  pub direct : List ℕ
  pub ind : ℕ
  pub dind : ℕ
  pub gen : ℕ

-- A number of two or four bytes in the order of the machine, and the bytes of one.
abbrev pub le16 : (ℕ → ℕ) → ℕ → ℕ
le16 b i = b i + b (i + 1) * 2 ^ 8

abbrev pub le32 : (ℕ → ℕ) → ℕ → ℕ
le32 b i = b i + b (i + 1) * 2 ^ 8 + b (i + 2) * 2 ^ 16 + b (i + 3) * 2 ^ 24

abbrev pub put_le16 : ℕ → List ℕ
put_le16 v = v % 256 ∷ v / 2 ^ 8 % 256 ∷ []

abbrev pub put_le32 : ℕ → List ℕ
put_le32 v = v % 256 ∷ v / 2 ^ 8 % 256 ∷ v / 2 ^ 16 % 256 ∷ v / 2 ^ 24 % 256 ∷ []

-- The inode that 64 bytes of a sector hold, and the 64 bytes of one.
unfoldable pub read_inode : (ℕ → ℕ) → ℕ → Inode
read_inode b o = record {
  kind = le16 b o;
  flags = le16 b (o + 2);
  size = le32 b (o + 4);
  crc = le32 b (o + 8);
  aux = le32 b (o + 12);
  nblocks = le32 b (o + 16);
  direct =
      le32 b (o + 20)
      ∷ le32 b (o + 24)
      ∷ le32 b (o + 28)
      ∷ le32 b (o + 32)
      ∷ le32 b (o + 36)
      ∷ le32 b (o + 40)
      ∷ le32 b (o + 44)
      ∷ le32 b (o + 48)
      ∷ [];
  ind = le32 b (o + 52);
  dind = le32 b (o + 56);
  gen = le32 b (o + 60);
}

unfoldable pub inode_bytes : Inode → List ℕ
inode_bytes t =
    let d : ℕ → List ℕ = λ i. put_le32 (get_or t.direct i 0) in
    put_le16 t.kind
    ++ (put_le16 t.flags
        ++ (put_le32 t.size
            ++ (put_le32 t.crc
                ++ (put_le32 t.aux
                    ++ (put_le32 t.nblocks
                        ++ (d 0
                            ++ (d 1
                                ++ (d 2
                                    ++ (d 3
                                        ++ (d 4
                                            ++ (d 5
                                                ++ (d 6
                                                    ++ (d 7
                                                        ++ (put_le32 t.ind
                                                            ++ (put_le32 t.dind
                                                            ++ put_le32 t.gen)))))))))))))))

-- mwfs_copy of a list of bytes into a sector, at an offset.
unfoldable pub overlay : (ℕ → ℕ) → ℕ → List ℕ → ℕ → ℕ
overlay b o bytes i = if leb o i && ltb (i - o) (length bytes) then get_or bytes (i - o) 0 else b i

-- mwfs_ino_get
unfoldable pub ino_get : Volume → ℕ → Option Inode
ino_get v ino =
    if ino == 0 || leb v.inode_count ino then none else elim (rd v (v.itable_lba + ino / 8)) [
      | none ↦ none
      | some b ↦ some (read_inode b (ino % 8 * 64))
    ]

-- mwfs_ino_put: the volume, if it works.
unfoldable pub ino_put : Volume → ℕ → Inode → Option Volume
ino_put v ino t =
    if ino == 0 || leb v.inode_count ino then none else elim (rd v (v.itable_lba + ino / 8)) [
      | none ↦ none
      | some b ↦ wr v (v.itable_lba + ino / 8) (overlay b (ino % 8 * 64) (inode_bytes t))
    ]

-- An inode of zeros but for its type.
abbrev pub blank : ℕ → Inode
blank kind = record {
  kind = kind;
  flags = 0;
  size = 0;
  crc = 0;
  aux = 0;
  nblocks = 0;
  direct = replicate 8 0;
  ind = 0;
  dind = 0;
  gen = 0;
}

-- The loop of mwfs_ino_alloc, `left` rounds before its end; 0 is `none`.
unfoldable pub ino_pass : Volume → ℕ → ℕ → Option (ℕ × Volume)
ino_pass v kind zero = none
ino_pass v kind (suc left) =
    let rest = ino_pass v kind left in
    let ino = 2 + (v.cur_ino + (v.inode_count - suc left)) % 2 ^ 32 % (v.inode_count - 2) in
    elim (ino_get v ino) [
      | none ↦ none
      | some t ↦
          if t.kind == 0
          then (elim (ino_put v ino (blank kind)) [
            | none ↦ none
            | some v' ↦ some (ino, record v' { cur_ino = ino })
          ])
          else rest
    ]

-- mwfs_ino_alloc
unfoldable pub ino_alloc : Volume → ℕ → Option (ℕ × Volume)
ino_alloc v kind = ino_pass v kind v.inode_count
