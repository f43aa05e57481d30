-- ===== src/Mwfs/Tests.antt =====
-- kernel/mwfs.h: a volume of 64 sectors, and the theorems at it.
use mini_win.Base.{List, get_elem?, zero, suc, ◌%◌, ◌^◌, get_or, replicate, ℕ, ◌+◌, ◌≤◌, ◌<◌, ◌≡◌}
use mini_win.Base.{refl, ◌↔◌, ◌⊎◌, true, false, ◌&&◌, ◌||◌, none, some, [], ◌∷◌, arith, subst}
use mini_win.Base.{ltb, leb, ◌==◌, if◌then◌else◌, every_below, every_below_sound}
use mini_win.Mwfs.{Volume, free_sector, rd, wr, with_bit, scan_bits, scan_bytes, alloc_pass}
use mini_win.Mwfs.{geometry, name_ok, bit_in, alloc}
use mini_win.Mwfs.Geometry.{IsLaidOut, geometry-IsLaidOut}
use mini_win.Mwfs.Names.{IsName, name_ok-IsName}
use mini_win.Mwfs.Scan.{IsMarked}
use mini_win.Mwfs.Free.{free_sector-alloc}
use mini_win.Mwfs.Mounted.{IsMounted, in_use}
use mini_win.Mwfs.Alloc.{Allocated, alloc-Allocated}
use mini_win.Mwfs.Inode.{Inode, blank, overlay, inode_bytes, ino_put, ino_alloc, ino_get}
use mini_win.Mwfs.Inode.{read_inode}
use mini_win.Mwfs.Block.{pread, pread_loop, file_sector, bmap, at_slot, new_sector}
use mini_win.Mwfs.Reading.{reading, pread-reading}
use mini_win.Mwfs.Fields.{IsInode}
use mini_win.Mwfs.Table.{Stored, ino_put-Stored}
use mini_win.Mwfs.Directory.{Dirent, dir_sector, entry_at, dir_nth, dir_find, dir_is_empty}
use mini_win.Mwfs.Listing.{listing, used_from, used_in, nth_answer, find_answer, first_named}
use mini_win.Mwfs.Lookup.{listing-lookup}
use mini_win.Mwfs.Granting.{HasTable, Granted, Taken, ino_alloc-Granted}

-- The bitmap marks the sectors 0 to 5, which hold no data, and those past the end.
abbrev bitmap : ℕ → ℕ
bitmap i = if i == 0 then 63 else if ltb i 8 then 0 else 255

abbrev tiny : Volume
tiny = record {
  base = 100;
  sectors = 64;
  inode_count = 32;
  bitmap_lba = 1;
  bitmap_sectors = 1;
  itable_lba = 2;
  itable_sectors = 4;
  data_lba = 6;
  cur_blk = 6;
  cur_ino = 1;
  contents = λ s. if s == 101 then bitmap else (λ i. 0);
  fails = λ s. false;
}

geometry-IsLaidOut_example :
    ((64 ≤ 64)
      × ((geometry tiny).0 ≡ true)
      × IsLaidOut (geometry tiny).1
      × ((geometry tiny).1.sectors ≡ 64))
    ⊎ ((64 < 64) × (geometry tiny ≡ (false, tiny)))
geometry-IsLaidOut_example = geometry-IsLaidOut tiny (omega arith)

-- DOC (1).TXT
name_ok-IsName_example :
    (name_ok (68 ∷ 79 ∷ 67 ∷ 32 ∷ 40 ∷ 49 ∷ 41 ∷ []) ≡ true)
    ↔ IsName (68 ∷ 79 ∷ 67 ∷ 32 ∷ 40 ∷ 49 ∷ 41 ∷ [])
name_ok-IsName_example = name_ok-IsName (68 ∷ 79 ∷ 67 ∷ 32 ∷ 40 ∷ 49 ∷ 41 ∷ [])

marked_table : every_below 4096 (λ off. (leb 6 off && ltb off 64) || bit_in bitmap off) ≡ true
unfolding every_below bit_in
marked_table = refl

bitmap-IsMarked : IsMarked tiny bitmap 0
bitmap-IsMarked = record {
  bytes = λ i. ground arith;
  outside = λ off lt o. ground (
    arith,
    every_below_sound 4096 (λ off. (leb 6 off && ltb off 64) || bit_in bitmap off) off marked_table
        lt,
  );
}

tiny-IsMounted : IsMounted tiny
tiny-IsMounted = record {
  works = λ s lt. refl;
  inside = omega arith;
  data_inside = omega arith;
  covers = omega arith;
  addressable = omega arith;
  marked = λ s lt.
      subst (λ t. IsMarked tiny (tiny.contents (100 + (1 + t))) t) {x = 0} {y = s} (omega arith)
        bitmap-IsMarked;
}

alloc-Allocated_example :
    ((lba : ℕ) × (v' : Volume) × (alloc tiny ≡ some (lba, v')) × Allocated tiny lba v')
    ⊎ ((alloc tiny ≡ none) × ((lba : ℕ) → lba < 64 → in_use tiny lba ≡ true))
alloc-Allocated_example = alloc-Allocated tiny tiny-IsMounted

-- The first free sector is the first of the data.
abbrev tiny_taken : Volume
tiny_taken = record tiny {
  contents = λ s. if s == 101 then with_bit true bitmap 6 else tiny.contents s;
  cur_blk = 7;
}

tiny_grant : alloc tiny ≡ some (6, tiny_taken)
unfolding alloc alloc_pass scan_bytes scan_bits rd wr
tiny_grant = refl

free_sector-alloc_example :
    IsMounted (free_sector tiny_taken 6)
    × ((l : ℕ) → in_use (free_sector tiny_taken 6) l ≡ in_use tiny l)
free_sector-alloc_example =
    free_sector-alloc tiny {lba = 6} {v' = tiny_taken} tiny-IsMounted tiny_grant

-- A file of seven hundred bytes in the sectors 7 and, left out, a hole, whose bytes are their places.
abbrev note : Inode
note = record (blank 1) { size = 700; nblocks = 1; direct = 7 ∷ replicate 7 0 }

abbrev tiny_note : Volume
tiny_note = record tiny { contents = λ s. if s == 107 then (λ i. i % 256) else tiny.contents s }

pread-reading_example : pread tiny_note note 508 9 ≡ reading tiny_note note 508 9
pread-reading_example = pread-reading tiny_note note 508 9

note_read : pread tiny_note note 508 9 ≡ some (252 ∷ 253 ∷ 254 ∷ 255 ∷ replicate 5 0)
unfolding pread pread_loop file_sector bmap at_slot rd new_sector alloc
note_read = refl

note-IsInode : IsInode note
note-IsInode = record {
  kind_fits = omega arith;
  flags_fit = omega arith;
  size_fits = omega arith;
  crc_fits = omega arith;
  aux_fits = omega arith;
  nblocks_fit = omega arith;
  eight = refl;
  direct_fit = note_direct;
  ind_fits = omega arith;
  dind_fits = omega arith;
  gen_fits = omega arith;
}
  where
    zeros : (n i : ℕ) → get_or (replicate {A = ℕ} n 0) i 0 < 2 ^ 32
    zeros zero i = omega arith
    zeros (suc n) zero = omega arith
    zeros (suc n) (suc i) = zeros n i

    note_direct : (i : ℕ) → get_or (7 ∷ replicate 7 0) i 0 < 2 ^ 32
    note_direct zero = omega arith
    note_direct (suc i) = zeros 7 i

abbrev tiny_put : Volume
tiny_put = record tiny {
  contents = λ s. if s == 103 then overlay (λ i. 0) 64 (inode_bytes note) else tiny.contents s;
}

note_put : ino_put tiny 9 note ≡ some tiny_put
unfolding ino_put rd wr
note_put = refl

ino_put-Stored_example : Stored tiny 9 note tiny_put
ino_put-Stored_example =
    ino_put-Stored tiny 9 note {v' = tiny_put} note-IsInode (omega arith) note_put

tiny-HasTable : HasTable tiny
tiny-HasTable = record {
  addressable = omega arith;
  room = omega arith;
  cursor_fits = omega arith;
  table = λ n lt. ground arith;
}

ino_alloc-Granted_example :
    ((ino : ℕ) × (v' : Volume) × (ino_alloc tiny 1 ≡ some (ino, v')) × Granted tiny 1 ino v')
    ⊎ ((ino_alloc tiny 1 ≡ none) × ((n : ℕ) → 2 ≤ n → n < 32 → Taken tiny n))
ino_alloc-Granted_example = ino_alloc-Granted tiny 1 tiny-HasTable (omega arith)

-- A directory in inode 1, with the one entry A in the sector 6.
abbrev folder : Inode
folder = record (blank 2) { size = 512; nblocks = 1; direct = 6 ∷ replicate 7 0 }

abbrev tiny_folder : Volume
tiny_folder = record tiny {
  contents = λ s.
      if s == 102
      then overlay (λ i. 0) 64 (inode_bytes folder)
      else if s == 106
      then overlay (λ i. 0) 0 (5 ∷ 0 ∷ 0 ∷ 0 ∷ 1 ∷ 1 ∷ 65 ∷ [])
      else tiny.contents s;
}

abbrev entry_a : Dirent
entry_a = record { ino = 5; kind = 1; name = 65 ∷ []; sec = 6; ent = 0 }

folder_listed : listing tiny_folder 1 ≡ some (entry_a ∷ [])
unfolding listing used_from used_in dir_sector entry_at ino_get read_inode rd bmap at_slot
    new_sector alloc inode_bytes overlay
folder_listed = refl

listing-lookup_example :
    ((idx : ℕ) → dir_nth tiny_folder 1 idx ≡ nth_answer (get_elem? (entry_a ∷ []) idx))
    × ((name : List ℕ)
        → dir_find tiny_folder 1 name ≡ find_answer (first_named name (entry_a ∷ [])))
    × (dir_is_empty tiny_folder 1 ≡ false)
listing-lookup_example = listing-lookup tiny_folder 1 (entry_a ∷ []) folder_listed
