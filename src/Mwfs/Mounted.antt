-- ===== src/Mwfs/Mounted.antt =====
-- kernel/mwfs.h: a mounted volume, and how its bitmap is read and written.

use mini_win.Base.{ap, ◌∙◌, inl, inr, Bool-cases, refl, not, ◌&&◌, arith, ltb, ℕ, ◌+◌, ◌*◌, ◌/◌}
use mini_win.Base.{◌%◌, ◌^◌, ◌≤◌, ◌<◌, ◌≡◌, Bool, true, false, some, ◌==◌, if◌then◌else◌}
use mini_win.Base.Bytes.{or_byte, and_byte, and_byte-lt}
use mini_win.Mwfs.{Volume, rd, wr, bit_in, with_bit}
use mini_win.Mwfs.Scan.{IsMarked}

-- The bit of a sector of the volume, as the bitmap on the disk has it.
abbrev pub in_use : Volume → ℕ → Bool
in_use v lba = bit_in (v.contents (v.base + (v.bitmap_lba + lba / 4096))) (lba % 4096)

-- A volume whose disk works over its bitmap, which lies in the volume, covers it, and marks what
-- holds no data.
pub record IsMounted (v : Volume) : Type 0 where
  pub works : (s : ℕ) → s < v.bitmap_sectors → v.fails (v.base + (v.bitmap_lba + s)) ≡ false
  pub inside : v.bitmap_lba + v.bitmap_sectors ≤ v.data_lba
  pub data_inside : v.data_lba ≤ v.sectors
  pub covers : v.sectors ≤ v.bitmap_sectors * 4096
  pub addressable : v.base + v.sectors ≤ 2 ^ 32
  pub marked :
      (s : ℕ) → s < v.bitmap_sectors → IsMarked v (v.contents (v.base + (v.bitmap_lba + s))) s

-- The sectors of the bitmap on the disk.
abbrev pub at_sector : Volume → ℕ → ℕ
at_sector v s = v.base + (v.bitmap_lba + s)

-- A sector of the bitmap with one bit set.
pub bit_in-marked :
    (b : ℕ → ℕ) (o q : ℕ)
    → ((i : ℕ) → b i < 256)
    → bit_in (with_bit true b o) q ≡ (if q == o then true else bit_in b q)
unfolding bit_in with_bit
bit_in-marked b o q h =
    ground (arith, or_byte (b (q / 8)) (o % 8) (q % 8) (h (q / 8)) (omega arith) (omega arith))

-- A sector of the bitmap with one bit cleared.
pub bit_in-cleared :
    (b : ℕ → ℕ) (o q : ℕ)
    → ((i : ℕ) → b i < 256)
    → bit_in (with_bit false b o) q ≡ (if q == o then false else bit_in b q)
unfolding bit_in with_bit
bit_in-cleared b o q h =
    ground (arith, and_byte (b (q / 8)) (o % 8) (q % 8) (h (q / 8)) (omega arith) (omega arith))

cleared-lt : (b : ℕ → ℕ) (o i : ℕ) → ((i : ℕ) → b i < 256) → with_bit false b o i < 256
unfolding with_bit
cleared-lt b o i h = ground (arith, h i, and_byte-lt (b i) (o % 8) (h i) (omega arith))

marked-lt : (b : ℕ → ℕ) (o i : ℕ) → ((i : ℕ) → b i < 256) → with_bit true b o i < 256
unfolding with_bit
marked-lt b o i h = ground (arith, h i)

module _ {v : Volume} (h : IsMounted v) where
  good :
      (s : ℕ)
      → s < v.bitmap_sectors
      → (ltb (v.bitmap_lba + s) v.sectors && not (v.fails (at_sector v s))) ≡ true
  good s lt = rw (h.works s lt) (ground (arith, h.inside, h.data_inside))

  no_wrap : (s : ℕ) → s < v.bitmap_sectors → at_sector v s % 2 ^ 32 ≡ at_sector v s
  no_wrap s lt = omega (arith, h.inside, h.data_inside, h.addressable)

  pub read_bitmap :
      (s : ℕ) → s < v.bitmap_sectors → rd v (v.bitmap_lba + s) ≡ some (v.contents (at_sector v s))
  unfolding rd
  read_bitmap s lt = rw (no_wrap s lt, good s lt) refl

  pub write_bitmap :
      (s : ℕ) (b : ℕ → ℕ)
      → s < v.bitmap_sectors
      → wr v (v.bitmap_lba + s) b
        ≡ some (record v { contents = λ t. if t == at_sector v s then b else v.contents t })
  unfolding wr
  write_bitmap s b lt = rw (no_wrap s lt, good s lt) refl

-- A volume with one bit of its bitmap set or cleared.
abbrev pub with_use : Volume → ℕ → Bool → Volume
with_use v lba on = record v {
  contents = λ t.
      if t == at_sector v (lba / 4096)
      then with_bit on (v.contents (at_sector v (lba / 4096))) (lba % 4096)
      else v.contents t;
}

bit_in-with_bit :
    (on : Bool) (b : ℕ → ℕ) (o q : ℕ)
    → ((i : ℕ) → b i < 256)
    → bit_in (with_bit on b o) q ≡ (if q == o then on else bit_in b q)
bit_in-with_bit true b o q h = bit_in-marked b o q h
bit_in-with_bit false b o q h = bit_in-cleared b o q h

with_bit-lt : (on : Bool) (b : ℕ → ℕ) (o i : ℕ) → ((i : ℕ) → b i < 256) → with_bit on b o i < 256
with_bit-lt true b o i h = marked-lt b o i h
with_bit-lt false b o i h = cleared-lt b o i h

module _ {v : Volume} (h : IsMounted v) (on : Bool) (lba : ℕ) (lo : v.data_lba ≤ lba)
    (hi : lba < v.sectors) where
  pub sector-lt : lba / 4096 < v.bitmap_sectors
  sector-lt = omega (arith, h.covers)

  bits :
      (t q : ℕ)
      → q < 4096
      → bit_in ((with_use v lba on).contents (at_sector v t)) q
        ≡ (if t * 4096 + q == lba then on else bit_in (v.contents (at_sector v t)) q)
  bits t q lt = elim (Bool-cases (at_sector v t == at_sector v (lba / 4096))) [
    | inl same ↦
        let f : t ≡ lba / 4096 = ground (arith, same) in
        rw same (
          bit_in-with_bit on (v.contents (at_sector v (lba / 4096))) (lba % 4096) q
            (h.marked (lba / 4096) sector-lt).bytes
          ∙ ground (arith, f, ap (λ t. bit_in (v.contents (at_sector v t)) q) f))
    | inr other ↦ rw other (ground (arith, other))
  ]

  pub in_use-with_use :
      (l : ℕ) → in_use (with_use v lba on) l ≡ (if l == lba then on else in_use v l)
  in_use-with_use l =
      bits (l / 4096) (l % 4096) (omega arith)
      ∙ ap (λ n. if n == lba then on else in_use v l) {x = l / 4096 * 4096 + l % 4096} {y = l}
          (omega arith)

  with_use-IsMarked :
      (t : ℕ)
      → t < v.bitmap_sectors
      → IsMarked (with_use v lba on) ((with_use v lba on).contents (at_sector v t)) t
  with_use-IsMarked t lt = record {
    bytes = λ i. elim (Bool-cases (at_sector v t == at_sector v (lba / 4096))) [
      | inl same ↦ rw same (
          with_bit-lt on (v.contents (at_sector v (lba / 4096))) (lba % 4096) i
            (h.marked (lba / 4096) sector-lt).bytes)
      | inr other ↦ rw other ((h.marked t lt).bytes i)
    ];
    outside =
        λ q small o. bits t q small ∙ ground (arith, lo, hi, (h.marked t lt).outside q small o);
  }

  pub with_use-IsMounted : IsMounted (with_use v lba on)
  with_use-IsMounted = record {
    works = h.works;
    inside = h.inside;
    data_inside = h.data_inside;
    covers = h.covers;
    addressable = h.addressable;
    marked = with_use-IsMarked;
  }
