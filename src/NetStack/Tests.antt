-- ===== src/NetStack/Tests.antt =====
-- kernel/net_stack.h: a frame from one host to another.
use mini_win.Base.{ℕ, ◌≡◌, refl, true, false, none, [], ◌∷◌, arith, replicate}
use mini_win.Net.{Net}
use mini_win.Arp.{free_entry}
use mini_win.Ip.{datagram}
use mini_win.Tcp.{established, Conn}
use mini_win.NetStack.{Stack, by_protocol, stack_handle_frame}
use mini_win.NetStack.Dispatch.{six, arrived, stack_handle_frame-datagram}

abbrev lan : ℕ → Net
lan t = record {
  nic = record {
    present = false;
    mac = 2 ∷ 0 ∷ 0 ∷ 0 ∷ 0 ∷ 1 ∷ [];
    takes = λ n. true;
    offered = 0;
    sent = [];
  };
  cfg = record { my_ip = 700; netmask = 0; gateway_ip = 500; dns_ip = 500; ready = true };
  cache = replicate 8 free_entry;
  parked = none;
  ticks = t;
}

abbrev ours : Conn
ours = record {
  state = established;
  remote_ip = 900;
  remote_port = 80;
  local_port = 49152;
  snd_una = 5000;
  snd_nxt = 5001;
  rcv_nxt = 1000;
  peer_mss = 536;
  to_send = [];
  fin_pending = false;
  retx_len = 0;
  retx_flags = 2;
  retx_pending = true;
  retx_tick_sent = 0;
  retx_count = 5;
  tx_fail_count = 0;
  tx_next_tick = 0;
  tx_first_fail_wall = 0;
  peer_wnd = 4096;
  wl1 = 999;
  wl2 = 5000;
  wl_valid = true;
  zero_wnd_active = false;
  zero_wnd_first_wall = 0;
  zero_wnd_probe_wall = 0;
  received = [];
  peer_fin_seen = false;
}

abbrev stack : Stack
stack = record {
  host = record { net = lan 1000; conn = ours; next_port = 49153; wall = 0 };
  listeners = [];
}

abbrev sender : Net
sender = record (lan 3) {
  nic = record (lan 3).nic { present = true; mac = six (λ i. 9) };
  cfg = record (lan 3).cfg { my_ip = 600 };
}

stack_handle_frame-datagram_example :
    stack_handle_frame (λ call s. s) stack (datagram sender 700 6 (1 ∷ 2 ∷ []) (six (λ i. 1)))
    ≡ by_protocol (λ call s. s) stack (arrived 600 700 6 (1 ∷ 2 ∷ []))
stack_handle_frame-datagram_example =
    stack_handle_frame-datagram (λ call s. s) stack sender 6 (1 ∷ 2 ∷ []) (λ i. 1) (λ i. 9) refl
      (omega arith) (omega arith) (omega arith) (omega arith)
