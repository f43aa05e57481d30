-- ===== src/Mwfs/Fields.antt =====
-- kernel/mwfs.h: an inode in the bytes of a sector, and in its place among the others.
use mini_win.Base.{◌*◌, ◌≢◌, sym, ℕ, zero, suc, ◌+◌, ◌-◌, ◌/◌, ◌%◌, ◌^◌, ◌≤◌, ◌<◌, ◌≡◌, refl, ap}
use mini_win.Base.{◌∙◌, ◌⊎◌, true, false, ◌&&◌, List, [], ◌∷◌, arith, ltb, leb, length, get_or}
use mini_win.Mwfs.Inode.{Inode, le16, le32, overlay, read_inode, inode_bytes}

-- What the fields of mwfs_ino_t can hold.
pub record IsInode (t : Inode) : Type 0 where
  pub kind_fits : t.kind < 2 ^ 16
  pub flags_fit : t.flags < 2 ^ 16
  pub size_fits : t.size < 2 ^ 32
  pub crc_fits : t.crc < 2 ^ 32
  pub aux_fits : t.aux < 2 ^ 32
  pub nblocks_fit : t.nblocks < 2 ^ 32
  pub eight : length t.direct ≡ 8
  pub direct_fit : (i : ℕ) → get_or t.direct i 0 < 2 ^ 32
  pub ind_fits : t.ind < 2 ^ 32
  pub dind_fits : t.dind < 2 ^ 32
  pub gen_fits : t.gen < 2 ^ 32

-- A list from its entries.
abbrev entries : (ℕ → ℕ) → ℕ → List ℕ
entries f zero = []
entries f (suc n) = f 0 ∷ entries (λ i. f (suc i)) n

entries-get_or : (xs : List ℕ) → entries (λ i. get_or xs i 0) (length xs) ≡ xs
entries-get_or [] = refl
entries-get_or (x ∷ xs) = ap (λ ys. x ∷ ys) (entries-get_or xs)

module _ (b : ℕ → ℕ) (o : ℕ) (bytes : List ℕ) where
  overlay_inside : (i : ℕ) → i < length bytes → overlay b o bytes (o + i) ≡ get_or bytes i 0
  unfolding overlay
  overlay_inside i lt =
      let test : (leb o (o + i) && ltb (o + i - o) (length bytes)) ≡ true = ground arith in
      rw test (ap (λ j. get_or bytes j 0) {x = o + i - o} {y = i} (omega arith))

  overlay_outside : (i : ℕ) → (i < o) ⊎ (o + length bytes ≤ i) → overlay b o bytes i ≡ b i
  unfolding overlay
  overlay_outside i out =
      let test : (leb o i && ltb (i - o) (length bytes)) ≡ false = ground (arith, out) in
      rw test refl

  le16-overlay :
      (k v : ℕ)
      → k + 2 ≤ length bytes
      → v < 2 ^ 16
      → get_or bytes k 0 ≡ v % 256
      → get_or bytes (k + 1) 0 ≡ v / 2 ^ 8 % 256
      → le16 (overlay b o bytes) (o + k) ≡ v
  le16-overlay k v le lt e0 e1 = omega (
    arith,
    overlay_inside k (omega arith) ∙ e0,
    ap (overlay b o bytes) {x = o + k + 1} {y = o + (k + 1)} (omega arith)
        ∙ overlay_inside (k + 1) (omega arith)
        ∙ e1,
  )

  le32-overlay :
      (k v : ℕ)
      → k + 4 ≤ length bytes
      → v < 2 ^ 32
      → get_or bytes k 0 ≡ v % 256
      → get_or bytes (k + 1) 0 ≡ v / 2 ^ 8 % 256
      → get_or bytes (k + 2) 0 ≡ v / 2 ^ 16 % 256
      → get_or bytes (k + 3) 0 ≡ v / 2 ^ 24 % 256
      → le32 (overlay b o bytes) (o + k) ≡ v
  le32-overlay k v le lt e0 e1 e2 e3 =
      let byte : (i : ℕ) → i < 4 → overlay b o bytes (o + k + i) ≡ get_or bytes (k + i) 0 =
        λ i small.
          ap (overlay b o bytes) {x = o + k + i} {y = o + (k + i)} (omega arith)
          ∙ overlay_inside (k + i) (omega arith) in
      omega (
        arith,
        overlay_inside k (omega arith) ∙ e0,
        byte 1 (omega arith) ∙ e1,
        byte 2 (omega arith) ∙ e2,
        byte 3 (omega arith) ∙ e3,
      )

pub length-inode_bytes : (t : Inode) → length (inode_bytes t) ≡ 64
unfolding inode_bytes
length-inode_bytes t = refl

module _ (b : ℕ → ℕ) (o : ℕ) (t : Inode) (h : IsInode t) where
  word :
      (k v : ℕ)
      → k + 4 ≤ 64
      → v < 2 ^ 32
      → get_or (inode_bytes t) k 0 ≡ v % 256
      → get_or (inode_bytes t) (k + 1) 0 ≡ v / 2 ^ 8 % 256
      → get_or (inode_bytes t) (k + 2) 0 ≡ v / 2 ^ 16 % 256
      → get_or (inode_bytes t) (k + 3) 0 ≡ v / 2 ^ 24 % 256
      → le32 (overlay b o (inode_bytes t)) (o + k) ≡ v
  word k v le = le32-overlay b o (inode_bytes t) k v (omega (arith, length-inode_bytes t))

  direct_read :
      (read_inode (overlay b o (inode_bytes t)) o).direct ≡ entries (λ i. get_or t.direct i 0) 8
  unfolding read_inode inode_bytes
  direct_read = λ i.
      word 20 (get_or t.direct 0 0) (omega arith) (h.direct_fit 0) refl refl refl refl i
      ∷ word 24 (get_or t.direct 1 0) (omega arith) (h.direct_fit 1) refl refl refl refl i
      ∷ word 28 (get_or t.direct 2 0) (omega arith) (h.direct_fit 2) refl refl refl refl i
      ∷ word 32 (get_or t.direct 3 0) (omega arith) (h.direct_fit 3) refl refl refl refl i
      ∷ word 36 (get_or t.direct 4 0) (omega arith) (h.direct_fit 4) refl refl refl refl i
      ∷ word 40 (get_or t.direct 5 0) (omega arith) (h.direct_fit 5) refl refl refl refl i
      ∷ word 44 (get_or t.direct 6 0) (omega arith) (h.direct_fit 6) refl refl refl refl i
      ∷ word 48 (get_or t.direct 7 0) (omega arith) (h.direct_fit 7) refl refl refl refl i
      ∷ []

  -- The bytes of an inode in a sector are read as that inode.
  pub read_inode-overlay : read_inode (overlay b o (inode_bytes t)) o ≡ t
  unfolding read_inode inode_bytes
  read_inode-overlay = λ i. record {
    kind =
        (ap (le16 (overlay b o (inode_bytes t))) {x = o} {y = o + 0} (omega arith)
            ∙ le16-overlay b o (inode_bytes t) 0 t.kind (omega (arith, length-inode_bytes t))
                h.kind_fits refl refl)
          i;
    flags =
        le16-overlay b o (inode_bytes t) 2 t.flags (omega (arith, length-inode_bytes t)) h.flags_fit
          refl refl i;
    size = word 4 t.size (omega arith) h.size_fits refl refl refl refl i;
    crc = word 8 t.crc (omega arith) h.crc_fits refl refl refl refl i;
    aux = word 12 t.aux (omega arith) h.aux_fits refl refl refl refl i;
    nblocks = word 16 t.nblocks (omega arith) h.nblocks_fit refl refl refl refl i;
    direct =
        (direct_read
            ∙ ap (entries (λ i. get_or t.direct i 0)) (sym h.eight)
            ∙ entries-get_or t.direct)
          i;
    ind = word 52 t.ind (omega arith) h.ind_fits refl refl refl refl i;
    dind = word 56 t.dind (omega arith) h.dind_fits refl refl refl refl i;
    gen = word 60 t.gen (omega arith) h.gen_fits refl refl refl refl i;
  }

-- A sector read for an inode, by the 64 bytes of it alone.
module _ (b c : ℕ → ℕ) (o : ℕ) (same : (i : ℕ) → i < 64 → c (o + i) ≡ b (o + i)) where
  le32-same : (k : ℕ) → k + 4 ≤ 64 → le32 c (o + k) ≡ le32 b (o + k)
  le32-same k le =
      let byte : (i : ℕ) → i < 4 → c (o + k + i) ≡ b (o + k + i) = λ i small.
        ap c {x = o + k + i} {y = o + (k + i)} (omega arith)
        ∙ same (k + i) (omega arith)
        ∙ ap b {x = o + (k + i)} {y = o + k + i} (omega arith) in
      omega (
        arith,
        same k (omega arith),
        byte 1 (omega arith),
        byte 2 (omega arith),
        byte 3 (omega arith),
      )

  le16-same : (k : ℕ) → k + 2 ≤ 64 → le16 c (o + k) ≡ le16 b (o + k)
  le16-same k le = omega (
    arith,
    same k (omega arith),
    ap c {x = o + k + 1} {y = o + (k + 1)} (omega arith)
        ∙ same (k + 1) (omega arith)
        ∙ ap b {x = o + (k + 1)} {y = o + k + 1} (omega arith),
  )

  pub read_inode-same : read_inode c o ≡ read_inode b o
  unfolding read_inode
  read_inode-same = λ i. record {
    kind =
        (ap (le16 c) {x = o} {y = o + 0} (omega arith)
            ∙ le16-same 0 (omega arith)
            ∙ ap (le16 b) {x = o + 0} {y = o} (omega arith))
          i;
    flags = le16-same 2 (omega arith) i;
    size = le32-same 4 (omega arith) i;
    crc = le32-same 8 (omega arith) i;
    aux = le32-same 12 (omega arith) i;
    nblocks = le32-same 16 (omega arith) i;
    direct =
        le32-same 20 (omega arith) i
        ∷ le32-same 24 (omega arith) i
        ∷ le32-same 28 (omega arith) i
        ∷ le32-same 32 (omega arith) i
        ∷ le32-same 36 (omega arith) i
        ∷ le32-same 40 (omega arith) i
        ∷ le32-same 44 (omega arith) i
        ∷ le32-same 48 (omega arith) i
        ∷ [];
    ind = le32-same 52 (omega arith) i;
    dind = le32-same 56 (omega arith) i;
    gen = le32-same 60 (omega arith) i;
  }

-- The bytes of an inode leave the other inodes of the sector.
pub read_inode-beside :
    (b : ℕ → ℕ) (p q : ℕ) (t : Inode)
    → p ≢ q
    → read_inode (overlay b (p * 64) (inode_bytes t)) (q * 64) ≡ read_inode b (q * 64)
read_inode-beside b p q t ne =
    read_inode-same b (overlay b (p * 64) (inode_bytes t)) (q * 64)
      (λ i small. overlay_outside b (p * 64) (inode_bytes t) (q * 64 + i) (outside i small))
  where
    outside :
        (i : ℕ) → i < 64 → (q * 64 + i < p * 64) ⊎ (p * 64 + length (inode_bytes t) ≤ q * 64 + i)
    outside i small = ground (arith, length-inode_bytes t)
