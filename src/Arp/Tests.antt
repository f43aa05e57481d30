-- ===== src/Arp/Tests.antt =====
-- kernel/arp.h: a cache with a neighbour and a question, and the theorems at it.
use mini_win.Base.{ℕ, zero, suc, ◌≡◌, refl, true, none, List, [], ◌∷◌, arith, set, replicate}
use mini_win.Net.{Net, Entry, asked, resolved}
use mini_win.Arp.{free_entry, slot_entry, arp_frame, handle_frame}
use mini_win.Arp.Slots.{OneEach, put-OneEach}
use mini_win.Arp.Frames.{handle_frame-resolved, handle_frame-OneEach}

abbrev our_mac : List ℕ
our_mac = 2 ∷ 0 ∷ 0 ∷ 0 ∷ 0 ∷ 1 ∷ []

abbrev their_mac : List ℕ
their_mac = 2 ∷ 0 ∷ 0 ∷ 0 ∷ 0 ∷ 9 ∷ []

abbrev neighbour : Entry
neighbour = record { ip = 500; mac = their_mac; known = resolved; age = 0 }

abbrev question : Entry
question = record { ip = 600; mac = replicate 6 0; known = asked; age = 0 }

abbrev lan : List Entry → Net
lan cache = record {
  nic = record { present = true; mac = our_mac; takes = λ n. true; offered = 0; sent = [] };
  cfg = record { my_ip = 700; netmask = 0; gateway_ip = 500; dns_ip = 500; ready = true };
  cache = cache;
  parked = none;
  ticks = 5;
}

-- A forger's reply: it claims the address of the neighbour.
abbrev forged : List ℕ
forged = arp_frame our_mac (2 ∷ 6 ∷ 6 ∷ 6 ∷ 6 ∷ 6 ∷ []) 2 500 our_mac 700

abbrev two_known : List Entry
two_known = neighbour ∷ question ∷ replicate 6 free_entry

handle_frame-resolved_example :
    slot_entry (handle_frame (λ ip mac n. n) (lan two_known) forged).1.cache 0 ≡ neighbour
handle_frame-resolved_example =
    handle_frame-resolved (λ ip mac n. n) (λ ip mac n. refl) (lan two_known) forged 0 refl

free_slots : (n i : ℕ) → slot_entry (replicate n free_entry) i ≡ free_entry
free_slots zero i = refl
free_slots (suc n) zero = refl
free_slots (suc n) (suc i) = free_slots n i

one_question : OneEach (set (replicate 8 free_entry) 0 question)
unfolding OneEach
one_question =
    put-OneEach (replicate 8 free_entry) 0 question (omega arith) free
      (λ j lt used same. absurd (ground (arith, free_slots 8 j, used)))
  where
    free : OneEach (replicate 8 free_entry)
    free i j lti ltj ui uj e = absurd (ground (arith, free_slots 8 i, ui))

handle_frame-OneEach_example :
    OneEach
      (handle_frame
        (λ ip mac n. n)
        (lan (set (replicate 8 free_entry) 0 question))
        (arp_frame our_mac their_mac 2 600 our_mac 700)).1.cache
handle_frame-OneEach_example =
    handle_frame-OneEach (λ ip mac n. n) (λ ip mac n. refl)
      (lan (set (replicate 8 free_entry) 0 question))
      (arp_frame our_mac their_mac 2 600 our_mac 700) one_question
