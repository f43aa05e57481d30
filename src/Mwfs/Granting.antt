-- ===== src/Mwfs/Granting.antt =====
-- kernel/mwfs.h: mwfs_ino_alloc and the inodes it goes through.
use native.Mathlib.Nat.{mul-suc, mod-lt, mod-eq_of_lt, add-mul-mod_self_left, div-add-mod}
use mini_win.Base.{◌⊎◌, Option, none, subst, ◌==◌, ◌/◌, sym, ap, ◌∙◌, false, ℕ, zero, suc, ◌+◌}
use mini_win.Base.{◌-◌, ◌*◌, ◌%◌, ◌^◌, ◌≤◌, ◌<◌, ◌≡◌, refl, ◌≢◌, inl, inr, true, some, arith, leb}
use mini_win.Base.{Bool-cases, get_or, replicate}
use mini_win.Mwfs.{Volume, rd}
use mini_win.Mwfs.Inode.{Inode, read_inode, ino_get, ino_put, blank, ino_pass, ino_alloc}
use mini_win.Mwfs.Fields.{IsInode}
use mini_win.Mwfs.Sectors.{reaches, rd-reaches}
use mini_win.Mwfs.Table.{Stored, outside, sector_of, ino_get_inside, ino_put_works}

-- A volume whose disk has the inode table, with the cursor of mwfs_ino_alloc in range.
pub record HasTable (v : Volume) : Type 0 where
  pub addressable : v.base + v.sectors ≤ 2 ^ 32
  pub room : 2 < v.inode_count
  pub cursor_fits : v.cur_ino + v.inode_count ≤ 2 ^ 32
  pub table : (n : ℕ) → n < v.inode_count → reaches v (sector_of v n) ≡ true

-- What mwfs_ino_alloc does to the volume when it answers an inode.
pub record Granted (v : Volume) (kind ino : ℕ) (v' : Volume) : Type 0 where
  pub within : (2 ≤ ino) × (ino < v.inode_count)
  pub was_free : (t : Inode) × (ino_get v ino ≡ some t) × (t.kind ≡ 0)
  pub now : ino_get v' ino ≡ some (blank kind)
  pub others : (n : ℕ) → n ≢ ino → ino_get v' n ≡ ino_get v n
  pub rest : v' ≡ record v { contents = v'.contents; cur_ino = ino }

-- An inode in use.
abbrev pub Taken : Volume → ℕ → Type 0
Taken v n = (t : Inode) × (ino_get v n ≡ some t) × (t.kind ≢ 0)

-- The inode of a round of the loop.
abbrev tried : Volume → ℕ → ℕ
tried v pass = 2 + (v.cur_ino + pass) % 2 ^ 32 % (v.inode_count - 2)

get_or-zeros : (n i : ℕ) → get_or (replicate {A = ℕ} n 0) i 0 ≡ 0
get_or-zeros zero i = refl
get_or-zeros (suc n) zero = refl
get_or-zeros (suc n) (suc i) = get_or-zeros n i

blank-IsInode : (kind : ℕ) → kind < 2 ^ 16 → IsInode (blank kind)
blank-IsInode kind lt = record {
  kind_fits = lt;
  flags_fit = omega arith;
  size_fits = omega arith;
  crc_fits = omega arith;
  aux_fits = omega arith;
  nblocks_fit = omega arith;
  eight = refl;
  direct_fit = λ i. omega (arith, get_or-zeros 8 i);
  ind_fits = omega arith;
  dind_fits = omega arith;
  gen_fits = omega arith;
}

-- A number below `m` is a remainder, some steps after any other.
reached : (m r n : ℕ) → n < m → r < m → (k : ℕ) × (k < m) × ((q : ℕ) → (m * q + r + k) % m ≡ n)
reached m r n lt small = elim (Bool-cases (leb r n)) [
  | inl le ↦ (
    n - r,
    omega arith,
    λ q.
        ap (λ z. z % m) {x = m * q + r + (n - r)} {y = n + m * q} (ground (arith, le))
        ∙ add-mul-mod_self_left n m q
        ∙ mod-eq_of_lt lt,
  )
  | inr gt ↦ (
    n + m - r,
    ground (arith, gt),
    λ q.
        ap (λ z. z % m) {x = m * q + r + (n + m - r)} {y = n + m * suc q}
          (ground (arith, gt, mul-suc m q))
        ∙ add-mul-mod_self_left n m (suc q)
        ∙ mod-eq_of_lt lt,
  )
]

module _ {v : Volume} (h : HasTable v) where
  tried-within : (pass : ℕ) → (2 ≤ tried v pass) × (tried v pass < v.inode_count)
  tried-within pass = (
    omega arith,
    omega (
      arith,
      h.room,
      mod-lt ((v.cur_ino + pass) % 2 ^ 32) {m = v.inode_count - 2} (omega (arith, h.room)),
    ),
  )

  -- The loop comes to every inode but the first two.
  tried-all :
      (n : ℕ) → 2 ≤ n → n < v.inode_count → (pass : ℕ) × (pass < v.inode_count) × (tried v pass ≡ n)
  tried-all n lo hi =
      let m = v.inode_count - 2 in
      let (k, small, at) =
        reached m (v.cur_ino % m) (n - 2) (omega arith)
          (mod-lt v.cur_ino (omega (arith, h.room))) in
      (
        k,
        omega arith,
        ap (λ z. 2 + z % m) {x = (v.cur_ino + k) % 2 ^ 32} {y = v.cur_ino + k}
              (omega (arith, h.cursor_fits))
            ∙ ap (λ z. 2 + (z + k) % m) (sym (div-add-mod v.cur_ino m))
            ∙ ap (λ z. 2 + z) (at (v.cur_ino / m))
            ∙ omega arith,
      )

  inside : (n : ℕ) → 2 ≤ n → n < v.inode_count → outside v n ≡ false
  inside n lo hi = ground arith

  -- Every inode of the table can be read.
  readable : (n : ℕ) → 2 ≤ n → n < v.inode_count → (t : Inode) × (ino_get v n ≡ some t)
  readable n lo hi = (
    read_inode (v.contents ((v.base + sector_of v n) % 2 ^ 32)) (n % 8 * 64),
    ino_get_inside v n (v.contents ((v.base + sector_of v n) % 2 ^ 32)) (inside n lo hi)
        (rd-reaches v (sector_of v n) (h.table n hi)),
  )

-- A volume with an inode put there, and the cursor on it.
Stored-Granted :
    (v : Volume) (kind ino : ℕ) (w : Volume) (t : Inode)
    → 2 ≤ ino
    → ino_get v ino ≡ some t
    → t.kind ≡ 0
    → Stored v ino (blank kind) w
    → Granted v kind ino (record w { cur_ino = ino })
unfolding ino_get rd
Stored-Granted v kind ino w t lo e free s = record {
  within = (lo, s.within.1);
  was_free = (t, e, free);
  now = s.read_back;
  others = s.others;
  rest = λ i. record (s.rest i) { cur_ino = ino };
}

-- What the loop answers when all before its round `from` are taken.
abbrev Passed : Volume → ℕ → ℕ → Option (ℕ × Volume) → Type 0
Passed v kind from o =
    ((ino : ℕ) × (v' : Volume) × (o ≡ some (ino, v')) × Granted v kind ino v')
    ⊎ ((o ≡ none) × ((k : ℕ) → from ≤ k → k < v.inode_count → Taken v (tried v k)))

module _ {v : Volume} (h : HasTable v) (kind : ℕ) (fits : kind < 2 ^ 16) where
  round_taken :
      (left : ℕ) (t : Inode)
      → ino_get v (tried v (v.inode_count - suc left)) ≡ some t
      → (t.kind == 0) ≡ false
      → ino_pass v kind (suc left) ≡ ino_pass v kind left
  unfolding ino_pass
  round_taken left t e busy = rw (e, busy, ino_pass)

  round_free :
      (left : ℕ) (t : Inode) (w : Volume)
      → ino_get v (tried v (v.inode_count - suc left)) ≡ some t
      → (t.kind == 0) ≡ true
      → ino_put v (tried v (v.inode_count - suc left)) (blank kind) ≡ some w
      → ino_pass v kind (suc left)
        ≡ some (
          tried v (v.inode_count - suc left),
          record w { cur_ino = tried v (v.inode_count - suc left) },
        )
  unfolding ino_pass
  round_free left t w e free put = rw (e, free, put, ino_pass)

  pass-Passed :
      (left : ℕ)
      → left ≤ v.inode_count
      → Passed v kind (v.inode_count - left) (ino_pass v kind left)
  unfolding ino_pass
  pass-Passed zero le = inr (refl, λ k lo hi. absurd (omega arith))
  pass-Passed (suc left) le =
      let pass = v.inode_count - suc left in
      let (lo, hi) = tried-within h pass in
      let (t, e) = readable h (tried v pass) lo hi in
      elim (Bool-cases (t.kind == 0)) [
        | inl free ↦
            let (w, put, s) =
              ino_put_works v (tried v pass) (blank kind) (blank-IsInode kind fits) h.addressable
                (inside h (tried v pass) lo hi) (h.table (tried v pass) hi) in
            inl (
              tried v pass,
              record w { cur_ino = tried v pass },
              round_free left t w e free put,
              Stored-Granted v kind (tried v pass) w t lo e (ground (arith, free)) s,
            )
        | inr busy ↦ later left t e busy le (pass-Passed left (omega arith))
      ]
    where
      later :
          (left : ℕ) (t : Inode)
          → ino_get v (tried v (v.inode_count - suc left)) ≡ some t
          → (t.kind == 0) ≡ false
          → suc left ≤ v.inode_count
          → Passed v kind (v.inode_count - left) (ino_pass v kind left)
          → Passed v kind (v.inode_count - suc left) (ino_pass v kind (suc left))
      later left t e busy le (inl (ino, v', got, g)) =
          inl (ino, v', round_taken left t e busy ∙ got, g)
      later left t e busy le (inr (got, taken)) = inr (
        round_taken left t e busy ∙ got,
        λ k lo hi. elim (Bool-cases (k == v.inode_count - suc left)) [
          | inl here ↦
              subst (λ k. Taken v (tried v k)) {x = v.inode_count - suc left} {y = k}
                (ground (arith, here)) (t, e, ground (arith, busy))
          | inr past ↦ taken k (ground (arith, past)) hi
        ],
      )

-- mwfs_ino_alloc, when the disk has the whole inode table and the cursor leaves the count below the
-- wrap: it answers an inode that was free, which is then one of zeros but for its type, every other
-- inode is as it was and the cursor is on it; or it answers none, and every inode from 2 on is in
-- use.
pub ino_alloc-Granted :
    (v : Volume) (kind : ℕ)
    → HasTable v
    → kind < 2 ^ 16
    → ((ino : ℕ) × (v' : Volume) × (ino_alloc v kind ≡ some (ino, v')) × Granted v kind ino v')
      ⊎ ((ino_alloc v kind ≡ none) × ((n : ℕ) → 2 ≤ n → n < v.inode_count → Taken v n))
unfolding ino_alloc
ino_alloc-Granted v kind h fits = elim (pass-Passed h kind fits v.inode_count (omega arith)) [
  | inl granted ↦ inl granted
  | inr (nothing, taken) ↦ inr (
    nothing,
    λ n lo hi.
        let (pass, small, at) = tried-all h n lo hi in
        subst (Taken v) at (taken pass (omega arith) small),
  )
]
