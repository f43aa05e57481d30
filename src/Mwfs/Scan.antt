-- ===== src/Mwfs/Scan.antt =====
-- kernel/mwfs.h: the two inner loops of mwfs_alloc find the first free data sector of a sector of the
-- bitmap.
use native.Mathlib.Decide.{dec_lt}
use mini_win.Base.{sym, ◌∙◌, inl, inr, subst, ltb, leb, Bool-cases, every_below}
use mini_win.Base.{every_below_sound, set, ℕ, zero, suc, ◌+◌, ◌-◌, ◌*◌, ◌/◌, ◌%◌, ◌^◌, ◌≤◌, ◌<◌}
use mini_win.Base.{◌≡◌, refl, ◌⊎◌, true, false, arith, ◌==◌}
use mini_win.Mwfs.{Volume, bit_in, Found, found, past_end, nothing, scan_bits, scan_bytes}

-- The bits of a bitmap sector, for the sectors of the volume from `si * 4096` on: those that hold no
-- data are marked, before the data and past the end.
pub record IsMarked (v : Volume) (b : ℕ → ℕ) (si : ℕ) : Type 0 where
  pub bytes : (i : ℕ) → b i < 256
  pub outside :
      (off : ℕ)
      → off < 4096
      → (si * 4096 + off < v.data_lba) ⊎ (v.sectors ≤ si * 4096 + off)
      → bit_in b off ≡ true

-- What the loops find from the bit `from` on.
abbrev pub Finds : Volume → (ℕ → ℕ) → ℕ → ℕ → ℕ → Found → Type 0
Finds v b si from to nothing = (off : ℕ) → from ≤ off → off < to → bit_in b off ≡ true
Finds v b si from to past_end = ⊥
Finds v b si from to (found lba) =
    (off : ℕ) × (lba ≡ si * 4096 + off)
    × (off < 4096)
    × (bit_in b off ≡ false)
    × (v.data_lba ≤ lba)
    × (lba < v.sectors)

full_table : every_below 8 (λ k. 255 / 2 ^ k % 2 == 1) ≡ true
unfolding every_below
full_table = refl

module _ (v : Volume) (b : ℕ → ℕ) (si : ℕ) (h : IsMarked v b si) where
  bit_at : (i k : ℕ) → k < 8 → (b i / 2 ^ k % 2 == 1) ≡ bit_in b (i * 8 + k)
  unfolding bit_in
  bit_at i k lt = rw (place i k lt, offset i k lt) refl
    where
      place : (i k : ℕ) → k < 8 → (i * 8 + k) / 8 ≡ i
      place i k lt = omega arith

      offset : (i k : ℕ) → k < 8 → (i * 8 + k) % 8 ≡ k
      offset i k lt = omega arith

  -- One set bit more in front.
  more :
      (from to : ℕ) (r : Found)
      → bit_in b from ≡ true
      → Finds v b si (from + 1) to r
      → Finds v b si from to r
  more from to (found lba) e f = f
  more from to past_end e f = f
  more from to nothing e f = λ off x y. elim (dec_lt from off) [
    | yes l ↦ f off (omega arith) y
    | no l ↦ subst (λ o. bit_in b o ≡ true) {x = from} {y = off} (omega arith) e
  ]

  pub scan_bits-Finds :
      (i left : ℕ)
      → i < 512
      → left ≤ 8
      → Finds v b si (i * 8 + (8 - left)) (i * 8 + 8) (scan_bits v b i (si * 4096 + i * 8) left)
  unfolding scan_bits
  scan_bits-Finds i zero lt le = λ off x y. absurd (omega arith)
  scan_bits-Finds i (suc left) lt le =
      let k = 7 - left in
      let rest = scan_bits-Finds i left lt (omega arith) in
      let rest' : Finds v b si (i * 8 + (8 - suc left) + 1) (i * 8 + 8)
          (scan_bits v b i (si * 4096 + i * 8) left) =
        subst (λ n. Finds v b si n (i * 8 + 8) (scan_bits v b i (si * 4096 + i * 8) left))
          {x = i * 8 + (8 - left)} {y = i * 8 + (8 - suc left) + 1} (omega arith) rest in
      elim (Bool-cases (b i / 2 ^ k % 2 == 1)) [
        | inl set ↦
            rw set (more (i * 8 + (8 - suc left)) (i * 8 + 8) _ (at_bit i left lt le set) rest')
        | inr clear ↦ elim (Bool-cases (leb v.sectors (si * 4096 + i * 8 + k))) [
          | inl past ↦ absurd (
              cc (
                sym (bit_at i k (omega arith)) ∙ clear,
                h.outside (i * 8 + k) (omega arith) (inr (ground (arith, past))),
              ))
          | inr inside ↦ elim (Bool-cases (ltb (si * 4096 + i * 8 + k) v.data_lba)) [
            | inl early ↦ absurd (
                cc (
                  sym (bit_at i k (omega arith)) ∙ clear,
                  h.outside (i * 8 + k) (omega arith) (inl (ground (arith, early))),
                ))
            | inr late ↦
                rw (clear, inside, late)
                  (
                    i * 8 + k,
                    omega arith,
                    omega arith,
                    sym (bit_at i k (omega arith)) ∙ clear,
                    ground (arith, late),
                    ground (arith, inside),
                  )
          ]
        ]
      ]
    where
      at_bit :
          (i left : ℕ)
          → i < 512
          → suc left ≤ 8
          → (b i / 2 ^ (7 - left) % 2 == 1) ≡ true
          → bit_in b (i * 8 + (8 - suc left)) ≡ true
      at_bit i left lt le e =
          subst (λ k. bit_in b (i * 8 + k) ≡ true) {x = 7 - left} {y = 8 - suc left} (omega arith)
            (sym (bit_at i (7 - left) (omega arith)) ∙ e)

  -- A byte that is full holds no clear bit.
  full : (i k : ℕ) → k < 8 → b i ≡ 255 → bit_in b (i * 8 + k) ≡ true
  full i k lt e =
      sym (bit_at i k lt) ∙ rw e (every_below_sound 8 (λ k. 255 / 2 ^ k % 2 == 1) k full_table lt)

  -- Eight bits in front, that all are set.
  after_full :
      (i : ℕ) (r : Found)
      → ((off : ℕ) → i * 8 ≤ off → off < i * 8 + 8 → bit_in b off ≡ true)
      → Finds v b si (i * 8 + 8) 4096 r
      → Finds v b si (i * 8) 4096 r
  after_full i (found lba) e f = f
  after_full i past_end e f = f
  after_full i nothing e f =
      λ off x y. elim (dec_lt off (i * 8 + 8)) [ yes l ↦ e off x l | no l ↦ f off (omega arith) y ]

  -- What is found in a byte counts, otherwise what is found after it.
  after_byte :
      (i : ℕ) (r q : Found)
      → Finds v b si (i * 8 + (8 - 8)) (i * 8 + 8) r
      → Finds v b si (i * 8 + 8) 4096 q
      → Finds v b si
          (i * 8)
          4096
          (elim r [ found lba ↦ found lba | past_end ↦ past_end | nothing ↦ q ])
  after_byte i (found lba) q f g = f
  after_byte i past_end q f g = f
  after_byte i nothing q f g = after_full i q (λ off x y. f off (omega arith) y) g

  full_bits : (i off : ℕ) → b i ≡ 255 → i * 8 ≤ off → off < i * 8 + 8 → bit_in b off ≡ true
  full_bits i off e x y =
      subst (λ o. bit_in b o ≡ true) {x = i * 8 + (off - i * 8)} {y = off} (omega arith)
        (full i (off - i * 8) (omega arith) e)

  pub scan_bytes-Finds :
      (left : ℕ) → left ≤ 512 → Finds v b si ((512 - left) * 8) 4096 (scan_bytes v b si left)
  unfolding scan_bytes
  scan_bytes-Finds zero le = λ off x y. absurd (omega arith)
  scan_bytes-Finds (suc left) le =
      let i = 511 - left in
      let rest : Finds v b si (i * 8 + 8) 4096 (scan_bytes v b si left) =
        subst (λ n. Finds v b si n 4096 (scan_bytes v b si left)) {x = (512 - left) * 8}
          {y = i * 8 + 8} (omega arith) (scan_bytes-Finds left (omega arith)) in
      subst (λ n. Finds v b si n 4096 (scan_bytes v b si (suc left))) {x = i * 8}
        {y = (512 - suc left) * 8} (omega arith)
        (elim (Bool-cases (b i == 255)) [
          | inl all ↦ rw all (
              after_full i (scan_bytes v b si left) (λ off. full_bits i off (ground (arith, all)))
                rest)
          | inr some_clear ↦ rw some_clear (
              after_byte i (scan_bits v b i (si * 4096 + i * 8) 8) (scan_bytes v b si left)
                (scan_bits-Finds i 8 (omega arith) (omega arith)) rest)
        ])
