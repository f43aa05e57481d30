-- ===== src/Mwfs/Lookup.antt =====
-- kernel/mwfs.h: mwfs_dir_nth, mwfs_dir_find and mwfs_dir_is_empty on the list of a directory's entries.
use mini_win.Base.{ℕ, zero, suc, ◌-◌, ◌≡◌, refl, sym, ap, ◌∙◌, inl, inr, true, false, none, some}
use mini_win.Base.{List, [], ◌∷◌, ◌++◌, arith, subst, ◌==◌, Bool-cases, Option-cases, get_elem?}
use mini_win.Base.{some_eq}
use mini_win.Mwfs.{Volume}
use mini_win.Mwfs.Inode.{Inode, ino_get}
use mini_win.Mwfs.Block.{front}
use mini_win.Mwfs.Directory.{Dirent, holds, dir_sector, sectors_of, nth_from, dir_nth, is_no_more}
use mini_win.Mwfs.Directory.{dir_is_empty, find_from, dir_find}
use mini_win.Mwfs.Listing.{used_in, used_from, listing, first_named, nth_answer, find_answer}
use mini_win.Mwfs.Listing.{is_empty, nth_of, nth_done, nth_of-get_elem?, sector_cases}
use mini_win.Mwfs.Listing.{used_corrupted, used_unread, used_holds, nth_holds, find_holds}

-- The loops with `left` rounds to go find what is on the list of the entries they come to.
record Looks (v : Volume) (d : Inode) (left : ℕ) (xs : List Dirent) : Type 0 where
  nth : (idx seen : ℕ) → nth_from v d idx left seen ≡ nth_done (nth_of idx xs seen)
  find : (name : List ℕ) → find_from v d name left ≡ find_answer (first_named name xs)

module _ (v : Volume) (d : Inode) where
  Looks-nothing : Looks v d 0 []
  unfolding nth_from find_from first_named nth_of
  Looks-nothing = record { nth = λ idx seen. refl; find = λ name. refl }

  Looks-holds :
      (left : ℕ) {lba : ℕ} {b : ℕ → ℕ} (ys : List Dirent)
      → dir_sector v d (sectors_of d - suc left) ≡ holds lba b
      → Looks v d left ys
      → Looks v d (suc left) (used_in b lba 8 ++ ys)
  Looks-holds left ys s l = record {
    nth = λ idx seen. nth_holds v d left s idx seen ys (l.nth idx);
    find = λ name. find_holds v d left s name ys (l.find name);
  }

  used_from-Looks : (left : ℕ) (xs : List Dirent) → used_from v d left ≡ some xs → Looks v d left xs
  unfolding used_from
  used_from-Looks zero xs e = subst (Looks v d 0) (some_eq e) Looks-nothing
  used_from-Looks (suc left) xs e = elim (sector_cases (dir_sector v d (sectors_of d - suc left))) [
    | inl lost ↦ cc (used_corrupted v d left lost, e)
    | inr (inl lost) ↦ cc (used_unread v d left lost, e)
    | inr (inr (lba, b, s)) ↦ elim (Option-cases (used_from v d left)) [
      | inl lost ↦ cc (sym (used_holds v d left s ∙ ap (front (used_in b lba 8)) lost) ∙ e)
      | inr (ys, got) ↦
          subst (Looks v d (suc left))
            (some_eq (sym (used_holds v d left s ∙ ap (front (used_in b lba 8)) got) ∙ e))
            (Looks-holds left ys s (used_from-Looks left ys got))
    ]
  ]

module _ (v : Volume) (dino : ℕ) (d : Inode) (e : ino_get v dino ≡ some d) where
  listing_of :
      (xs : List Dirent)
      → listing v dino ≡ some xs
      → ((d.kind == 2) ≡ true) × (used_from v d (sectors_of d) ≡ some xs)
  unfolding listing
  listing_of xs l = elim (Bool-cases (d.kind == 2)) [
    | inl dir ↦ (dir, sym (listed dir) ∙ l)
    | inr other ↦ cc (unlisted other, l)
  ]
    where
      listed : (d.kind == 2) ≡ true → listing v dino ≡ used_from v d (sectors_of d)
      listed dir = rw (e, dir, listing)

      unlisted : (d.kind == 2) ≡ false → listing v dino ≡ none
      unlisted other = rw (e, other, listing)

  nth_of_dir :
      (idx : ℕ) → (d.kind == 2) ≡ true → dir_nth v dino idx ≡ nth_from v d idx (sectors_of d) 0
  unfolding dir_nth
  nth_of_dir idx dir = rw (e, dir, dir_nth)

  find_of_dir :
      (name : List ℕ)
      → (d.kind == 2) ≡ true
      → dir_find v dino name ≡ find_from v d name (sectors_of d)
  unfolding dir_find
  find_of_dir name dir = rw (e, dir, dir_find)

listing-ino_get :
    (v : Volume) (dino : ℕ) (xs : List Dirent)
    → listing v dino ≡ some xs
    → (d : Inode) × (ino_get v dino ≡ some d)
unfolding listing
listing-ino_get v dino xs l = elim (Option-cases (ino_get v dino)) [
  | inl lost ↦ cc (none_listed lost, l)
  | inr found ↦ found
]
  where
    none_listed : ino_get v dino ≡ none → listing v dino ≡ none
    none_listed lost = rw (lost, listing)

is_no_more-nth_answer : (xs : List Dirent) → is_no_more (nth_answer (get_elem? xs 0)) ≡ is_empty xs
is_no_more-nth_answer [] = refl
is_no_more-nth_answer (e ∷ es) = refl

-- For a directory that is the list of its entries in use, which all of its sectors can be read for:
-- mwfs_dir_nth gives the entry of that place in the list or says that there are no more,
-- mwfs_dir_find the first entry whose name is equal without regard to case or MWFS_E_NOENT, and
-- mwfs_dir_is_empty says whether the list is empty.
pub listing-lookup :
    (v : Volume) (dino : ℕ) (xs : List Dirent)
    → listing v dino ≡ some xs
    → ((idx : ℕ) → dir_nth v dino idx ≡ nth_answer (get_elem? xs idx))
      × ((name : List ℕ) → dir_find v dino name ≡ find_answer (first_named name xs))
      × (dir_is_empty v dino ≡ is_empty xs)
unfolding dir_is_empty
listing-lookup v dino xs l =
    let (d, e) = listing-ino_get v dino xs l in
    let (dir, u) = listing_of v dino d e xs l in
    let looks = used_from-Looks v d (sectors_of d) xs u in
    let nth : (idx : ℕ) → dir_nth v dino idx ≡ nth_answer (get_elem? xs idx) = λ idx.
      nth_of_dir v dino d e idx dir
      ∙ looks.nth idx 0
      ∙ nth_of-get_elem? xs idx idx 0 (omega arith) in
    (
      nth,
      λ name. find_of_dir v dino d e name dir ∙ looks.find name,
      ap is_no_more (nth 0) ∙ is_no_more-nth_answer xs,
    )
