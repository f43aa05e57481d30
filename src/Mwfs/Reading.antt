-- ===== src/Mwfs/Reading.antt =====
-- kernel/mwfs.h: mwfs_pread and a reader that takes one byte at a time.
use mini_win.Base.{Bool, true, false, ◌==◌, ◌-◌, ◌*◌, min, inl, inr, subst, leb, if◌then◌else◌}
use mini_win.Base.{Option-cases, sym, ap, ◌∙◌, ℕ, zero, suc, ◌+◌, ◌/◌, ◌%◌, ◌≤◌, ◌<◌, ◌≡◌, refl}
use mini_win.Base.{Option, none, some, List, arith, ◌∷◌, []}
use mini_win.Mwfs.{Volume}
use mini_win.Mwfs.Block.{slice, front, file_sector, pread_loop, pread}
use mini_win.Mwfs.Inode.{Inode}

front-front {ℓ} :
    {A : Type ℓ} (x : A) (xs : List A) (o : Option (List A))
    → front (x ∷ []) (front xs o) ≡ front (x ∷ xs) o
front-front x xs none = refl
front-front x xs (some ys) = refl

front-nothing {ℓ} : {A : Type ℓ} (o : Option (List A)) → front [] o ≡ o
front-nothing none = refl
front-nothing (some ys) = refl

-- The reader that looks up the sector of each byte by itself; a sector it cannot read ends it.
pub reading : Volume → Inode → ℕ → ℕ → Option (List ℕ)
reading v t pos zero = some []
reading v t pos (suc n) = elim (file_sector v t (pos / 512)) [
  | none ↦ none
  | some b ↦ front (b (pos % 512) ∷ []) (reading v t (pos + 1) n)
]

module _ (v : Volume) (t : Inode) where
  reading-nothing : (pos : ℕ) → reading v t pos 0 ≡ some []
  unfolding reading
  reading-nothing pos = refl

  reading-none : (pos n : ℕ) → file_sector v t (pos / 512) ≡ none → 0 < n → reading v t pos n ≡ none
  unfolding reading
  reading-none pos zero e lt = absurd (omega arith)
  reading-none pos (suc n) e lt = rw (e, reading)

  reading-some :
      (b : ℕ → ℕ) (pos n : ℕ)
      → file_sector v t (pos / 512) ≡ some b
      → reading v t pos (suc n) ≡ front (b (pos % 512) ∷ []) (reading v t (pos + 1) n)
  unfolding reading
  reading-some b pos n e = rw (e, reading)

  -- The bytes of a sector from one of them on.
  reading-slice :
      (b : ℕ → ℕ) (q k i m : ℕ)
      → file_sector v t q ≡ some b
      → i + k ≤ 512
      → reading v t (q * 512 + i) (k + m) ≡ front (slice b i k) (reading v t (q * 512 + i + k) m)
  reading-slice b q zero i m e lt =
      ap (reading v t (q * 512 + i)) {x = 0 + m} {y = m} (omega arith)
      ∙ ap (λ p. reading v t p m) {x = q * 512 + i} {y = q * 512 + i + 0} (omega arith)
      ∙ sym (front-nothing (reading v t (q * 512 + i + 0) m))
  reading-slice b q (suc k) i m e lt =
      ap (reading v t (q * 512 + i)) {x = suc k + m} {y = suc (k + m)} (omega arith)
      ∙ reading-some b (q * 512 + i) (k + m) (
          subst (λ s. file_sector v t s ≡ some b) {x = q} {y = (q * 512 + i) / 512} (omega arith) e)
      ∙ ap (λ j. front (b j ∷ []) (reading v t (q * 512 + i + 1) (k + m))) {x = (q * 512 + i) % 512}
          {y = i} (omega arith)
      ∙ ap (λ p. front (b i ∷ []) (reading v t p (k + m))) {x = q * 512 + i + 1}
          {y = q * 512 + (i + 1)} (omega arith)
      ∙ ap (front (b i ∷ [])) (reading-slice b q k (i + 1) m e (omega arith))
      ∙ front-front (b i) (slice b (i + 1) k) (reading v t (q * 512 + (i + 1) + k) m)
      ∙ ap (λ p. front (slice b i (suc k)) (reading v t p m)) {x = q * 512 + (i + 1) + k}
          {y = q * 512 + i + suc k} (omega arith)

  reading-chunk :
      (b : ℕ → ℕ) (pos k n : ℕ)
      → file_sector v t (pos / 512) ≡ some b
      → pos % 512 + k ≤ 512
      → k ≤ n
      → front (slice b (pos % 512) k) (reading v t (pos + k) (n - k)) ≡ reading v t pos n
  reading-chunk b pos k n e lt le =
      ap (λ p. front (slice b (pos % 512) k) (reading v t p (n - k))) {x = pos + k}
        {y = pos / 512 * 512 + pos % 512 + k} (omega arith)
      ∙ sym (reading-slice b (pos / 512) k (pos % 512) (n - k) e lt)
      ∙ ap (λ p. reading v t p (k + (n - k))) {x = pos / 512 * 512 + pos % 512} {y = pos}
          (omega arith)
      ∙ ap (reading v t pos) {x = k + (n - k)} {y = n} (omega arith)

  busy : (n : ℕ) → (suc n == 0) ≡ false
  busy n = ground arith

  loop-none :
      (rounds pos n : ℕ)
      → file_sector v t (pos / 512) ≡ none
      → pread_loop (suc rounds) v t pos (suc n) ≡ none
  unfolding pread_loop
  loop-none rounds pos n e = rw (busy n, e, pread_loop)

  loop-some :
      (rounds pos n : ℕ) (b : ℕ → ℕ)
      → file_sector v t (pos / 512) ≡ some b
      → pread_loop (suc rounds) v t pos (suc n)
        ≡ front (slice b (pos % 512) (min (512 - pos % 512) (suc n))) (
            pread_loop rounds v t
              (pos + min (512 - pos % 512) (suc n))
              (suc n - min (512 - pos % 512) (suc n)))
  unfolding pread_loop
  loop-some rounds pos n b e = rw (busy n, e, pread_loop)

  loop-done : (rounds pos : ℕ) → pread_loop rounds v t pos 0 ≡ some []
  unfolding pread_loop
  loop-done zero pos = refl
  loop-done (suc rounds) pos = refl

  pread_loop-reading :
      (rounds pos todo : ℕ) → todo ≤ rounds → pread_loop rounds v t pos todo ≡ reading v t pos todo
  pread_loop-reading rounds pos zero le = loop-done rounds pos ∙ sym (reading-nothing pos)
  pread_loop-reading zero pos (suc n) le = absurd (omega arith)
  pread_loop-reading (suc rounds) pos (suc n) le =
      elim (Option-cases (file_sector v t (pos / 512))) [
        | inl e ↦ loop-none rounds pos n e ∙ sym (reading-none pos (suc n) e (omega arith))
        | inr (b, e) ↦
            loop-some rounds pos n b e
            ∙ ap (front (slice b (pos % 512) (min (512 - pos % 512) (suc n)))) (
                pread_loop-reading rounds (pos + min (512 - pos % 512) (suc n))
                  (suc n - min (512 - pos % 512) (suc n)) (omega arith))
            ∙ reading-chunk b pos (min (512 - pos % 512) (suc n)) (suc n) e (omega arith)
                (omega arith)
      ]

  at_end :
      (past : Bool) (off n : ℕ)
      → (if past then some [] else pread_loop n v t off n) ≡ reading v t off (if past then 0 else n)
  at_end true off n = sym (reading-nothing off)
  at_end false off n = pread_loop-reading n off n (omega arith)

  -- mwfs_pread, which reads a sector at a time, gives what a reader gives that looks up the sector
  -- of every byte for itself, up to the end of the file, and fails when that one fails.
  pub pread-reading :
      (off len : ℕ)
      → pread v t off len ≡ reading v t off (if leb t.size off then 0 else min len (t.size - off))
  unfolding pread
  pread-reading off len = at_end (leb t.size off) off (min len (t.size - off))
