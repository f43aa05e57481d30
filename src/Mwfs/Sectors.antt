-- ===== src/Mwfs/Sectors.antt =====
-- kernel/mwfs.h: what a sector that is written leaves to be read.
use mini_win.Base.{ℕ, ◌+◌, ◌%◌, ◌^◌, ◌≤◌, ◌<◌, ◌≡◌, refl, sym, ◌∙◌, ◌≢◌, inl, inr, Bool, true}
use mini_win.Base.{false, not, ◌&&◌, none, some, arith, ltb, ◌==◌, if◌then◌else◌, Bool-cases}
use mini_win.Base.{some_eq}
use mini_win.Mwfs.{Volume, rd, wr}

-- A volume with what is in one of its sectors replaced.
abbrev pub with_sector : Volume → ℕ → (ℕ → ℕ) → Volume
with_sector v lba b = record v {
  contents = λ s. if s == (v.base + lba) % 2 ^ 32 then b else v.contents s;
}

-- The disk has the sector.
abbrev pub reaches : Volume → ℕ → Bool
reaches v lba = ltb lba v.sectors && not (v.fails ((v.base + lba) % 2 ^ 32))

pub rd-reaches :
    (v : Volume) (lba : ℕ)
    → reaches v lba ≡ true
    → rd v lba ≡ some (v.contents ((v.base + lba) % 2 ^ 32))
unfolding rd
rd-reaches v lba there = rw there refl

module _ (v : Volume) (lba : ℕ) (b : ℕ → ℕ) where
  pub wr_works : reaches v lba ≡ true → wr v lba b ≡ some (with_sector v lba b)
  unfolding wr
  wr_works there = rw there refl

  wr_refused : reaches v lba ≡ false → wr v lba b ≡ none
  unfolding wr
  wr_refused gone = rw gone refl

  pub wr-some :
      {v' : Volume} → wr v lba b ≡ some v' → (reaches v lba ≡ true) × (v' ≡ with_sector v lba b)
  wr-some {v'} e = elim (Bool-cases (reaches v lba)) [
    | inl there ↦ (there, some_eq (sym e ∙ wr_works there))
    | inr gone ↦ cc (e, wr_refused gone)
  ]

  pub rd-with_sector : reaches v lba ≡ true → rd (with_sector v lba b) lba ≡ some b
  unfolding rd
  rd-with_sector there =
      let same : ((v.base + lba) % 2 ^ 32 == (v.base + lba) % 2 ^ 32) ≡ true = ground arith in
      rw (there, same) refl

  pub rd-with_sector_other :
      (l : ℕ)
      → v.base + v.sectors ≤ 2 ^ 32
      → lba < v.sectors
      → l ≢ lba
      → rd (with_sector v lba b) l ≡ rd v l
  unfolding rd
  rd-with_sector_other l small inside ne = elim (Bool-cases (reaches v l)) [
    | inl there ↦
        let differ : ((v.base + l) % 2 ^ 32 == (v.base + lba) % 2 ^ 32) ≡ false =
          apart (ground (arith, there)) in
        rw (there, differ) refl
    | inr gone ↦ rw gone refl
  ]
    where
      apart : l < v.sectors → ((v.base + l) % 2 ^ 32 == (v.base + lba) % 2 ^ 32) ≡ false
      apart lt =
          let d1 : (v.base + l) % 2 ^ 32 ≡ v.base + l = omega arith in
          let d2 : (v.base + lba) % 2 ^ 32 ≡ v.base + lba = omega arith in
          rw (d1, d2) (ground (arith, ne))
