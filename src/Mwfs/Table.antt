-- ===== src/Mwfs/Table.antt =====
-- kernel/mwfs.h: the inode table under mwfs_ino_put and mwfs_ino_alloc.
use mini_win.Base.{sym, ap, ◌∙◌, inl, inr, Bool, false, ◌||◌, none, arith, subst, leb, ◌==◌}
use mini_win.Base.{Bool-cases, Option-cases, ◌+◌, ◌*◌, ◌/◌, ◌%◌, ◌^◌, ◌≤◌, refl, true, ℕ, ◌<◌}
use mini_win.Base.{◌≡◌, ◌≢◌, some}
use mini_win.Mwfs.{Volume, rd, wr}
use mini_win.Mwfs.Inode.{Inode, read_inode, overlay, inode_bytes, ino_get, ino_put}
use mini_win.Mwfs.Fields.{IsInode, read_inode-overlay, read_inode-beside}
use mini_win.Mwfs.Sectors.{with_sector, reaches, wr_works, rd-reaches, wr-some, rd-with_sector}
use mini_win.Mwfs.Sectors.{rd-with_sector_other}

-- One inode of the table is another than before, and no other; but for the contents of the disk the
-- volume is the same.
pub record Stored (v : Volume) (ino : ℕ) (t : Inode) (v' : Volume) : Type 0 where
  pub within : (0 < ino) × (ino < v.inode_count)
  pub read_back : ino_get v' ino ≡ some t
  pub others : (n : ℕ) → n ≢ ino → ino_get v' n ≡ ino_get v n
  pub rest : v' ≡ record v { contents = v'.contents }

-- The test that keeps a number out of the table.
abbrev pub outside : Volume → ℕ → Bool
outside v ino = ino == 0 || leb v.inode_count ino

-- Where an inode lies, and the volume with an inode put there.
abbrev pub sector_of : Volume → ℕ → ℕ
sector_of v ino = v.itable_lba + ino / 8

abbrev stored : Volume → ℕ → Inode → (ℕ → ℕ) → Volume
stored v ino t b = with_sector v (sector_of v ino) (overlay b (ino % 8 * 64) (inode_bytes t))

module _ (v : Volume) (n : ℕ) where
  ino_get_outside : outside v n ≡ true → ino_get v n ≡ none
  unfolding ino_get
  ino_get_outside out = rw out refl

  pub ino_get_inside :
      (c : ℕ → ℕ)
      → outside v n ≡ false
      → rd v (sector_of v n) ≡ some c
      → ino_get v n ≡ some (read_inode c (n % 8 * 64))
  unfolding ino_get
  ino_get_inside c into e = rw (into, e) refl

  ino_get_lost : outside v n ≡ false → rd v (sector_of v n) ≡ none → ino_get v n ≡ none
  unfolding ino_get
  ino_get_lost into e = rw (into, e) refl

module _ (v : Volume) (ino : ℕ) (t : Inode) (h : IsInode t) (small : v.base + v.sectors ≤ 2 ^ 32)
    (b : ℕ → ℕ) (into : outside v ino ≡ false) (e : rd v (sector_of v ino) ≡ some b)
    (there : reaches v (sector_of v ino) ≡ true) where
  written :
      rd (stored v ino t b) (sector_of v ino) ≡ some (overlay b (ino % 8 * 64) (inode_bytes t))
  written = rd-with_sector v (sector_of v ino) (overlay b (ino % 8 * 64) (inode_bytes t)) there

  stored_near :
      (n : ℕ)
      → n ≢ ino
      → outside v n ≡ false
      → n / 8 ≡ ino / 8
      → ino_get (stored v ino t b) n ≡ ino_get v n
  stored_near n ne valid near =
      ino_get_inside (stored v ino t b) n (overlay b (ino % 8 * 64) (inode_bytes t)) valid
        (ap (λ s. rd (stored v ino t b) (v.itable_lba + s)) near ∙ written)
      ∙ ap some (read_inode-beside b (ino % 8) (n % 8) t (λ same. ne (omega arith)))
      ∙ sym (ino_get_inside v n b valid (ap (λ s. rd v (v.itable_lba + s)) near ∙ e))

  stored_far :
      (n : ℕ) → outside v n ≡ false → n / 8 ≢ ino / 8 → ino_get (stored v ino t b) n ≡ ino_get v n
  stored_far n valid far = elim (Option-cases (rd v (sector_of v n))) [
    | inl none_there ↦
        ino_get_lost (stored v ino t b) n valid (unread ∙ none_there)
        ∙ sym (ino_get_lost v n valid none_there)
    | inr (c, some_there) ↦
        ino_get_inside (stored v ino t b) n c valid (unread ∙ some_there)
        ∙ sym (ino_get_inside v n c valid some_there)
  ]
    where
      unread : rd (stored v ino t b) (sector_of v n) ≡ rd v (sector_of v n)
      unread =
          rd-with_sector_other v (sector_of v ino) (overlay b (ino % 8 * 64) (inode_bytes t))
            (sector_of v n) small (ground (arith, there)) (λ same. far (omega arith))

  stored_others : (n : ℕ) → n ≢ ino → ino_get (stored v ino t b) n ≡ ino_get v n
  stored_others n ne = elim (Bool-cases (outside v n)) [
    | inl out ↦ ino_get_outside (stored v ino t b) n out ∙ sym (ino_get_outside v n out)
    | inr valid ↦ elim (Bool-cases (n / 8 == ino / 8)) [
      | inl near ↦ stored_near n ne valid (ground (arith, near))
      | inr far ↦ stored_far n valid (ground (arith, far))
    ]
  ]

  stored-Stored : Stored v ino t (stored v ino t b)
  stored-Stored = record {
    within = (ground (arith, into), ground (arith, into));
    read_back =
        ino_get_inside (stored v ino t b) ino (overlay b (ino % 8 * 64) (inode_bytes t)) into
          written
        ∙ ap some (read_inode-overlay b (ino % 8 * 64) t h);
    others = stored_others;
    rest = refl;
  }

-- An inode put into a table that the disk has.
pub ino_put_works :
    (v : Volume) (ino : ℕ) (t : Inode)
    → IsInode t
    → v.base + v.sectors ≤ 2 ^ 32
    → outside v ino ≡ false
    → reaches v (sector_of v ino) ≡ true
    → (v' : Volume) × (ino_put v ino t ≡ some v') × Stored v ino t v'
unfolding ino_put
ino_put_works v ino t h small into there =
    let b = v.contents ((v.base + sector_of v ino) % 2 ^ 32) in
    let got : rd v (sector_of v ino) ≡ some b = rd-reaches v (sector_of v ino) there in
    (
      stored v ino t b,
      rw (into, got)
          (wr_works v (sector_of v ino) (overlay b (ino % 8 * 64) (inode_bytes t)) there),
      stored-Stored v ino t h small b into got there,
    )

-- After mwfs_ino_put has worked, for an inode whose fields are numbers of their widths, on a volume
-- whose sectors have numbers of 32 bits: mwfs_ino_get gives that inode, every other number gives
-- what it gave before, and of the volume only what is on the disk has changed.
pub ino_put-Stored :
    (v : Volume) (ino : ℕ) (t : Inode) {v' : Volume}
    → IsInode t
    → v.base + v.sectors ≤ 2 ^ 32
    → ino_put v ino t ≡ some v'
    → Stored v ino t v'
unfolding ino_put
ino_put-Stored v ino t {v'} h small e = elim (Bool-cases (outside v ino)) [
  | inl out ↦ cc (put_outside out, e)
  | inr into ↦ elim (Option-cases (rd v (sector_of v ino))) [
    | inl lost ↦ cc (put_lost into lost, e)
    | inr (b, got) ↦
        let (there, same) =
          wr-some v (sector_of v ino) (overlay b (ino % 8 * 64) (inode_bytes t))
            (sym (put_inside b into got) ∙ e) in
        subst (Stored v ino t) (sym same) (stored-Stored v ino t h small b into got there)
  ]
]
  where
    put_outside : outside v ino ≡ true → ino_put v ino t ≡ none
    put_outside out = rw out refl

    put_lost : outside v ino ≡ false → rd v (sector_of v ino) ≡ none → ino_put v ino t ≡ none
    put_lost into lost = rw (into, lost) refl

    put_inside :
        (b : ℕ → ℕ)
        → outside v ino ≡ false
        → rd v (sector_of v ino) ≡ some b
        → ino_put v ino t ≡ wr v (sector_of v ino) (overlay b (ino % 8 * 64) (inode_bytes t))
    put_inside b into got = rw (into, got) refl
