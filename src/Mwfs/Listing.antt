-- ===== src/Mwfs/Listing.antt =====
-- kernel/mwfs.h: a directory as the list of its entries, and the functions that look into one.
use mini_win.Base.{sym, ap, ◌∙◌, Option-cases, arith, get_elem?, ℕ, zero, suc, ◌+◌, ◌-◌, ◌*◌, ◌≡◌}
use mini_win.Base.{refl, ◌⊎◌, inl, inr, Bool, true, false, not, Option, none, some, List, [], ◌∷◌}
use mini_win.Base.{◌++◌, ◌==◌, if◌then◌else◌, Bool-cases}
use mini_win.Mwfs.{Volume, name_eq}
use mini_win.Mwfs.Inode.{Inode, le32, ino_get}
use mini_win.Mwfs.Block.{Code, noent, front}
use mini_win.Mwfs.Directory.{Dirent, entry_at, Sector, corrupted, unread, holds, dir_sector}
use mini_win.Mwfs.Directory.{sectors_of, Nth, filled, no_more, nth_in, nth_from, find_in}
use mini_win.Mwfs.Directory.{find_from}

-- The entries in use of a sector, and of a directory if all of its sectors can be read.
unfoldable pub used_in : (ℕ → ℕ) → ℕ → ℕ → List Dirent
used_in b lba zero = []
used_in b lba (suc left) =
    if le32 b ((8 - suc left) * 64) == 0
    then used_in b lba left
    else entry_at b lba (8 - suc left) ∷ used_in b lba left

unfoldable pub used_from : Volume → Inode → ℕ → Option (List Dirent)
used_from v d zero = some []
used_from v d (suc left) = elim (dir_sector v d (sectors_of d - suc left)) [
  | corrupted ↦ none
  | unread ↦ none
  | holds lba b ↦ front (used_in b lba 8) (used_from v d left)
]

unfoldable pub listing : Volume → ℕ → Option (List Dirent)
listing v dino = elim (ino_get v dino) [
  | none ↦ none
  | some d ↦ if not (d.kind == 2) then none else used_from v d (sectors_of d)
]

-- The first entry of a name, in the comparison of names.
unfoldable pub first_named : List ℕ → List Dirent → Option Dirent
first_named name [] = none
first_named name (e ∷ es) = if name_eq e.name name then some e else first_named name es

-- The answers of mwfs_dir_nth and mwfs_dir_find for what is there or not.
abbrev pub nth_answer : Option Dirent → Nth
nth_answer none = no_more
nth_answer (some e) = filled e

abbrev pub find_answer : Option Dirent → Code ⊎ Dirent
find_answer none = inl noent
find_answer (some e) = inr e

abbrev pub is_empty : List Dirent → Bool
is_empty [] = true
is_empty (e ∷ es) = false

-- The loop of mwfs_dir_nth on a list.
unfoldable pub nth_of : ℕ → List Dirent → ℕ → Dirent ⊎ ℕ
nth_of idx [] seen = inr seen
nth_of idx (e ∷ es) seen = if seen == idx then inl e else nth_of idx es (seen + 1)

abbrev then_of : ℕ → List Dirent → Dirent ⊎ ℕ → Dirent ⊎ ℕ
then_of idx ys (inl e) = inl e
then_of idx ys (inr seen) = nth_of idx ys seen

nth_of-append :
    (idx : ℕ) (xs ys : List Dirent) (seen : ℕ)
    → nth_of idx (xs ++ ys) seen ≡ then_of idx ys (nth_of idx xs seen)
unfolding nth_of
nth_of-append idx [] ys seen = refl
nth_of-append idx (e ∷ es) ys seen = elim (Bool-cases (seen == idx)) [
  | inl here ↦ rw here refl
  | inr past ↦ rw past (nth_of-append idx es ys (seen + 1))
]

nth_in-used :
    (b : ℕ → ℕ) (lba idx left seen : ℕ)
    → nth_in b lba idx left seen ≡ nth_of idx (used_in b lba left) seen
unfolding nth_in nth_of used_in
nth_in-used b lba idx zero seen = refl
nth_in-used b lba idx (suc left) seen = elim (Bool-cases (le32 b ((8 - suc left) * 64) == 0)) [
  | inl blank ↦ rw blank (nth_in-used b lba idx left seen)
  | inr used ↦ elim (Bool-cases (seen == idx)) [
    | inl here ↦ rw (used, here) refl
    | inr past ↦ rw (used, past) (nth_in-used b lba idx left (seen + 1))
  ]
]

-- What the loop over the sectors answers for what it ends with.
abbrev pub nth_done : Dirent ⊎ ℕ → Nth
nth_done (inl e) = filled e
nth_done (inr seen) = no_more

pub nth_of-get_elem? :
    (es : List Dirent) (i idx seen : ℕ)
    → seen + i ≡ idx
    → nth_done (nth_of idx es seen) ≡ nth_answer (get_elem? es i)
unfolding nth_of
nth_of-get_elem? [] i idx seen same = refl
nth_of-get_elem? (e ∷ es) zero idx seen same =
    let here : (seen == idx) ≡ true = ground (arith, same) in rw here refl
nth_of-get_elem? (e ∷ es) (suc i) idx seen same =
    let past : (seen == idx) ≡ false = ground (arith, same) in
    rw past (nth_of-get_elem? es i idx (seen + 1) (omega (arith, same)))

-- A name in a list that goes on.
abbrev or_else : Option Dirent → Option Dirent → Option Dirent
or_else none o = o
or_else (some e) o = some e

first_named-append :
    (name : List ℕ) (xs ys : List Dirent)
    → first_named name (xs ++ ys) ≡ or_else (first_named name xs) (first_named name ys)
unfolding first_named
first_named-append name [] ys = refl
first_named-append name (e ∷ es) ys = elim (Bool-cases (name_eq e.name name)) [
  | inl here ↦ rw here refl
  | inr past ↦ rw past (first_named-append name es ys)
]

find_in-used :
    (b : ℕ → ℕ) (lba left : ℕ) (name : List ℕ)
    → find_in b lba name left ≡ first_named name (used_in b lba left)
unfolding find_in first_named used_in
find_in-used b lba zero name = refl
find_in-used b lba (suc left) name = elim (Bool-cases (le32 b ((8 - suc left) * 64) == 0)) [
  | inl blank ↦ rw blank (find_in-used b lba left name)
  | inr used ↦ elim (Bool-cases (name_eq (entry_at b lba (8 - suc left)).name name)) [
    | inl here ↦ rw (used, here) refl
    | inr past ↦ rw (used, past) (find_in-used b lba left name)
  ]
]

-- What a sector of a directory can be, with the equation.
pub sector_cases :
    (s : Sector) → (s ≡ corrupted) ⊎ ((s ≡ unread) ⊎ ((lba : ℕ) × (b : ℕ → ℕ) × (s ≡ holds lba b)))
sector_cases corrupted = inl refl
sector_cases unread = inr (inl refl)
sector_cases (holds lba b) = inr (inr (lba, b, refl))

sum_cases : (s : Dirent ⊎ ℕ) → ((e : Dirent) × (s ≡ inl e)) ⊎ ((n : ℕ) × (s ≡ inr n))
sum_cases (inl e) = inl (e, refl)
sum_cases (inr n) = inr (n, refl)

-- A round over a sector that can be read, `left` before the last.
module _ (v : Volume) (d : Inode) (left : ℕ) where
  pub used_corrupted :
      dir_sector v d (sectors_of d - suc left) ≡ corrupted → used_from v d (suc left) ≡ none
  unfolding used_from
  used_corrupted s = rw (s, used_from)

  pub used_unread :
      dir_sector v d (sectors_of d - suc left) ≡ unread → used_from v d (suc left) ≡ none
  unfolding used_from
  used_unread s = rw (s, used_from)

  module _ {lba : ℕ} {b : ℕ → ℕ} (s : dir_sector v d (sectors_of d - suc left) ≡ holds lba b) where
    pub used_holds : used_from v d (suc left) ≡ front (used_in b lba 8) (used_from v d left)
    unfolding used_from
    used_holds = rw (s, used_from)

    nth_stops :
        (idx seen : ℕ) (e : Dirent)
        → nth_in b lba idx 8 seen ≡ inl e
        → nth_from v d idx (suc left) seen ≡ filled e
    unfolding nth_from
    nth_stops idx seen e at = rw (s, at, nth_from)

    nth_goes_on :
        (idx seen now : ℕ)
        → nth_in b lba idx 8 seen ≡ inr now
        → nth_from v d idx (suc left) seen ≡ nth_from v d idx left now
    unfolding nth_from
    nth_goes_on idx seen now at = rw (s, at, nth_from)

    find_stops :
        (name : List ℕ) (e : Dirent)
        → find_in b lba name 8 ≡ some e
        → find_from v d name (suc left) ≡ inr e
    unfolding find_from
    find_stops name e at = rw (s, at, find_from)

    find_goes_on :
        (name : List ℕ)
        → find_in b lba name 8 ≡ none
        → find_from v d name (suc left) ≡ find_from v d name left
    unfolding find_from
    find_goes_on name at = rw (s, at, find_from)

    pub nth_holds :
        (idx seen : ℕ) (ys : List Dirent)
        → ((now : ℕ) → nth_from v d idx left now ≡ nth_done (nth_of idx ys now))
        → nth_from v d idx (suc left) seen ≡ nth_done (nth_of idx (used_in b lba 8 ++ ys) seen)
    nth_holds idx seen ys rest = elim (sum_cases (nth_in b lba idx 8 seen)) [
      | inl (e, at) ↦
          nth_stops idx seen e at
          ∙ ap (λ r. nth_done (then_of idx ys r)) (sym at ∙ nth_in-used b lba idx 8 seen)
          ∙ ap nth_done (sym (nth_of-append idx (used_in b lba 8) ys seen))
      | inr (now, at) ↦
          nth_goes_on idx seen now at
          ∙ rest now
          ∙ ap (λ r. nth_done (then_of idx ys r)) (sym at ∙ nth_in-used b lba idx 8 seen)
          ∙ ap nth_done (sym (nth_of-append idx (used_in b lba 8) ys seen))
    ]

    pub find_holds :
        (name : List ℕ) (ys : List Dirent)
        → find_from v d name left ≡ find_answer (first_named name ys)
        → find_from v d name (suc left) ≡ find_answer (first_named name (used_in b lba 8 ++ ys))
    find_holds name ys rest = elim (Option-cases (find_in b lba name 8)) [
      | inl at ↦
          find_goes_on name at
          ∙ rest
          ∙ ap (λ o. find_answer (or_else o (first_named name ys)))
              (sym at ∙ find_in-used b lba 8 name)
          ∙ ap find_answer (sym (first_named-append name (used_in b lba 8) ys))
      | inr (e, at) ↦
          find_stops name e at
          ∙ ap (λ o. find_answer (or_else o (first_named name ys)))
              (sym at ∙ find_in-used b lba 8 name)
          ∙ ap find_answer (sym (first_named-append name (used_in b lba 8) ys))
    ]
