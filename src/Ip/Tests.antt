-- ===== src/Ip/Tests.antt =====
-- kernel/ip.h: a datagram, and the theorems at it.
use mini_win.Base.{refl, ℕ, ◌≡◌, true, none, some, List, [], ◌∷◌, ◌++◌, arith, replicate}
use mini_win.Net.{Net, nic_send}
use mini_win.Arp.{plausible, same_mac, find_pending_slot, first_slot, find_or_alloc_slot}
use mini_win.Arp.{is_pending, lookup, send_request, free_entry, arp_frame, handle_frame, mac_at}
use mini_win.Arp.Frames.{IsAnswer}
use mini_win.Ip.{send_later, next_hop, build_header, parse, send, flush_pending, datagram}
use mini_win.Ip.Header.{parse-build_header}
use mini_win.Ip.Send.{Promise, send-Promise}
use mini_win.Ip.Waiting.{Meanwhile, begins, ticked, hears, queued-answered}

parse-build_header_example :
    parse (build_header 700 600 17 3 ++ (1 ∷ 2 ∷ 3 ∷ []))
    ≡ some (record {
      proto = 17;
      total_len = 23;
      src_ip = 700;
      dst_ip = 600;
      payload = 1 ∷ 2 ∷ 3 ∷ [];
    })
parse-build_header_example =
    parse-build_header 700 600 17 (1 ∷ 2 ∷ 3 ∷ []) (omega arith) (omega arith) (omega arith)
      (omega arith)

abbrev our_mac : List ℕ
our_mac = 2 ∷ 0 ∷ 0 ∷ 0 ∷ 0 ∷ 1 ∷ []

abbrev gateway_mac : List ℕ
gateway_mac = 2 ∷ 0 ∷ 0 ∷ 0 ∷ 0 ∷ 9 ∷ []

abbrev lan : Net
lan = record {
  nic = record { present = true; mac = our_mac; takes = λ n. true; offered = 0; sent = [] };
  cfg = record { my_ip = 700; netmask = 0; gateway_ip = 500; dns_ip = 500; ready = true };
  cache = replicate 8 free_entry;
  parked = none;
  ticks = 5;
}

send-Promise_example : Promise lan 900 17 (1 ∷ 2 ∷ []) (send lan 900 17 (1 ∷ 2 ∷ []))
send-Promise_example = send-Promise lan 900 17 (1 ∷ 2 ∷ [])

-- The gateway is not known yet, and then it answers.
abbrev waiting : Net
waiting = (send lan 900 17 (1 ∷ 2 ∷ [])).1

abbrev answer : List ℕ
answer = arp_frame our_mac gateway_mac 2 500 our_mac 700

-- Some time later, and after a frame that is too short to be one.
abbrev later : Net
later = record waiting { ticks = 900 }

later-Meanwhile : Meanwhile 900 waiting later
unfolding handle_frame
later-Meanwhile = hears later (ticked waiting begins 900) [] (λ a. absurd (omega (arith, a.long)))

answer-IsAnswer : IsAnswer later answer
unfolding send send_later send_request find_or_alloc_slot first_slot is_pending lookup
    find_pending_slot plausible same_mac mac_at next_hop nic_send
answer-IsAnswer = record {
  long = omega arith;
  of_arp = refl;
  fields = refl;
  reply = refl;
  for_us = refl;
  for_card = refl;
  slot = 0;
  outstanding = refl;
}

queued-answered_example :
    ((handle_frame flush_pending later answer).1.nic
      ≡ (nic_send later.nic (datagram later 900 17 (1 ∷ 2 ∷ []) (mac_at answer 22))).1)
    × ((handle_frame flush_pending later answer).1.parked ≡ none)
unfolding send send_later send_request find_or_alloc_slot first_slot is_pending lookup
    find_pending_slot next_hop nic_send
queued-answered_example =
    queued-answered lan waiting later 900 17 (1 ∷ 2 ∷ []) answer refl later-Meanwhile
      answer-IsAnswer refl
