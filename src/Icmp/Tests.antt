-- ===== src/Icmp/Tests.antt =====
-- kernel/icmp.h: an echo request.
use mini_win.Base.{◌≤◌, ◌<◌, ◌⊎◌, ◌≡◌, refl, true, none, [], ◌∷◌, arith, replicate}
use mini_win.Arp.{free_entry}
use mini_win.Net.{Net}
use mini_win.Ip.{Packet, send}
use mini_win.Icmp.{icmp_handle_packet, echo_reply}
use mini_win.Icmp.Echo.{Answers, icmp_handle_packet-Answers}

abbrev lan : Net
lan = record {
  nic = record {
    present = true;
    mac = 2 ∷ 0 ∷ 0 ∷ 0 ∷ 0 ∷ 1 ∷ [];
    takes = λ n. true;
    offered = 0;
    sent = [];
  };
  cfg = record { my_ip = 700; netmask = 0; gateway_ip = 500; dns_ip = 500; ready = true };
  cache = replicate 8 free_entry;
  parked = none;
  ticks = 5;
}

abbrev ping : Packet
ping = record {
  proto = 1;
  total_len = 30;
  src_ip = 600;
  dst_ip = 700;
  payload = 8 ∷ 0 ∷ 0 ∷ 0 ∷ 0 ∷ 7 ∷ 0 ∷ 1 ∷ 97 ∷ 98 ∷ [];
}

icmp_handle_packet-Answers_example :
    ((10 ≤ 1480)
      × Answers ping.payload (echo_reply ping.payload)
      × (icmp_handle_packet lan ping ≡ (send lan 600 1 (echo_reply ping.payload)).1))
    ⊎ ((1480 < 10) × (icmp_handle_packet lan ping ≡ lan))
icmp_handle_packet-Answers_example =
    icmp_handle_packet-Answers lan ping (ground arith) (omega arith) refl
