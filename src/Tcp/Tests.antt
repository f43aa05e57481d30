-- ===== src/Tcp/Tests.antt =====
-- kernel/tcp.h: a connection in the middle of its life, and the theorems at it.
use mini_win.Base.{ℕ, ◌%◌, ◌≡◌, refl, ◌⊎◌, true, false, none, List, [], ◌∷◌, arith, replicate}
use mini_win.Net.{Net}
use mini_win.Arp.{free_entry}
use mini_win.Ip.{Packet}
use mini_win.Tcp.{established, syn_sent, Conn, Host, connect, is_closed, is_syn_sent, segment}
use mini_win.Tcp.Receive.{Segment, read_segment, on_segment}
use mini_win.Tcp.Stream.{IsFrom}
use mini_win.Tcp.Delivery.{Carries}
use mini_win.Tcp.Invariant.{IsSound}
use mini_win.Tcp.Wire.{carried, IsRead, segment-IsRead}
use mini_win.Tcp.Runs.{Call, arrives, polls, ticks, run, run-IsSound}
use mini_win.Tcp.Prefix.{FromPeer, Read, read_out, run-prefix}
use mini_win.Tcp.Timeout.{poll_on, AreLate, poll_on-closed, ack-idle}

abbrev lan : ℕ → Net
lan t = record {
  nic = record {
    present = false;
    mac = 2 ∷ 0 ∷ 0 ∷ 0 ∷ 0 ∷ 1 ∷ [];
    takes = λ n. true;
    offered = 0;
    sent = [];
  };
  cfg = record { my_ip = 700; netmask = 0; gateway_ip = 500; dns_ip = 500; ready = true };
  cache = replicate 8 free_entry;
  parked = none;
  ticks = t;
}

-- Our side: port 49152, 1000 is the next number expected.
abbrev ours : Conn
ours = record {
  state = established;
  remote_ip = 900;
  remote_port = 80;
  local_port = 49152;
  snd_una = 5000;
  snd_nxt = 5001;
  rcv_nxt = 1000;
  peer_mss = 536;
  to_send = [];
  fin_pending = false;
  retx_len = 0;
  retx_flags = 2;
  retx_pending = true;
  retx_tick_sent = 0;
  retx_count = 5;
  tx_fail_count = 0;
  tx_next_tick = 0;
  tx_first_fail_wall = 0;
  peer_wnd = 4096;
  wl1 = 999;
  wl2 = 5000;
  wl_valid = true;
  zero_wnd_active = false;
  zero_wnd_first_wall = 0;
  zero_wnd_probe_wall = 0;
  received = [];
  peer_fin_seen = false;
}

abbrev theirs : Conn
theirs = record ours {
  remote_ip = 700;
  remote_port = 49152;
  local_port = 80;
  snd_nxt = 1000;
  rcv_nxt = 5001;
}

abbrev host : Conn → Host
host c = record { net = lan 1000; conn = c; next_port = 49153; wall = 0 }

segment-IsRead_example : IsRead theirs 24 (104 ∷ 105 ∷ []) (carried 900 theirs 24 (104 ∷ 105 ∷ []))
segment-IsRead_example =
    segment-IsRead 900 theirs 24 (104 ∷ 105 ∷ []) (omega arith) (omega arith) (omega arith)
      (ground arith) (omega arith)

run-IsSound_example : IsSound (run (connect (host ours) 900 80) (ticks ∷ polls 10 ∷ []))
run-IsSound_example = run-IsSound (host ours) 900 80 (ticks ∷ polls 10 ∷ [])

-- A stream, a segment of it, and a run that receives it.
abbrev stream : ℕ → ℕ
stream n = n % 200

abbrev packet : Packet
packet = carried 900 theirs 24 (0 ∷ 1 ∷ [])

abbrev calls : List Call
calls = arrives packet ∷ polls 10 ∷ []

run-prefix_example :
    Read stream (host ours) (run (host ours) calls) (read_out (host ours) calls)
    ⊎ ((run (host ours) calls).conn.peer_fin_seen ≡ true)
unfolding FromPeer Carries IsFrom read_segment segment
run-prefix_example = run-prefix stream (host ours) calls (omega arith) refl from
  where
    from : FromPeer stream calls
    from = ((omega arith, refl), omega arith)

poll_on-closed_example : is_closed (poll_on (host ours) (lan 1000 ∷ [])).conn.state ≡ true
unfolding AreLate
poll_on-closed_example =
    poll_on-closed (host ours) (lan 1000 ∷ []) refl refl (omega arith) (omega arith, omega arith)

abbrev bare_ack : Segment
bare_ack = record {
  seq = 1;
  ack = 5001;
  flags = 16;
  window = 4096;
  told_mss = λ mss. mss;
  bytes = [];
}

ack-idle_example :
    let stuck = on_segment (host (record ours { state = syn_sent })) bare_ack in
    (is_syn_sent stuck.conn.state ≡ true)
    × (stuck.conn.retx_pending ≡ false)
    × ((poll_on stuck (lan 5000 ∷ [])).conn ≡ stuck.conn)
ack-idle_example =
    ack-idle (host (record ours { state = syn_sent })) bare_ack (lan 5000 ∷ []) refl refl refl refl
      refl refl
