-- ===== src/Tcp.antt =====
-- kernel/tcp.h: the one TCP connection, its segments and how they are sent. The two buffers are the
-- lists of the bytes that lie in them, so that recv_len and send_len are their lengths. A `u32` sum or
-- difference is taken modulo 2^32. The wall clock (netclock.h) stands still while one function runs.
-- The lines that print to the serial log are left out.
pub mod Send
pub mod Receive
pub mod Invariant
pub mod Sending
pub mod Accepting
pub mod Receiving
pub mod Wire
pub mod Quiet
pub mod Stream
pub mod Parts
pub mod Delivery
pub mod Runs
pub mod Prefix
pub mod Timeout
mod Tests
use mini_win.Base.{ℕ, ◌+◌, ◌-◌, ◌*◌, ◌/◌, ◌%◌, ◌^◌, min, Bool, true, false, List, [], ◌∷◌, ◌++◌}
use mini_win.Base.{ltb, ◌==◌, if◌then◌else◌, length, take}
use mini_win.Net.{Net, at, put16, put32, checksum_add, checksum_finish}
use mini_win.Ip.{Verdict, failed, sent, queued, send as ip_send}

-- tcp_state_t
pub data State : Type 0 where
  closed syn_sent established fin_wait_1 fin_wait_2 time_wait : State

-- tcp_conn_t
pub record Conn : Type 0 where
  pub state : State
  pub remote_ip : ℕ
  pub remote_port : ℕ
  pub local_port : ℕ
  pub snd_una : ℕ
  pub snd_nxt : ℕ
  pub rcv_nxt : ℕ
  pub peer_mss : ℕ
  pub to_send : List ℕ
  pub fin_pending : Bool
  pub retx_len : ℕ
  pub retx_flags : ℕ
  pub retx_pending : Bool
  pub retx_tick_sent : ℕ
  pub retx_count : ℕ
  pub tx_fail_count : ℕ
  pub tx_next_tick : ℕ
  pub tx_first_fail_wall : ℕ
  pub peer_wnd : ℕ
  pub wl1 : ℕ
  pub wl2 : ℕ
  pub wl_valid : Bool
  pub zero_wnd_active : Bool
  pub zero_wnd_first_wall : ℕ
  pub zero_wnd_probe_wall : ℕ
  pub received : List ℕ
  pub peer_fin_seen : Bool

-- The network below, the connection, tcp_next_port, and net_wall_seconds.
pub record Host : Type 0 where
  pub net : Net
  pub conn : Conn
  pub next_port : ℕ
  pub wall : ℕ

abbrev pub add32 : ℕ → ℕ → ℕ
add32 a b = (a + b) % 2 ^ 32

abbrev pub sub32 : ℕ → ℕ → ℕ
sub32 a b = (a + 2 ^ 32 - b) % 2 ^ 32

-- TCP_FLAG_*, and `flags & FLAG`.
abbrev pub fin_flag : ℕ
fin_flag = 1

abbrev pub syn_flag : ℕ
syn_flag = 2

abbrev pub rst_flag : ℕ
rst_flag = 4

abbrev pub psh_flag : ℕ
psh_flag = 8

abbrev pub ack_flag : ℕ
ack_flag = 16

abbrev pub has : ℕ → ℕ → Bool
has flags flag = flags / flag % 2 == 1

abbrev pub is_closed : State → Bool
is_closed closed = true
is_closed _ = false

abbrev pub is_syn_sent : State → Bool
is_syn_sent syn_sent = true
is_syn_sent _ = false

abbrev pub is_established : State → Bool
is_established established = true
is_established _ = false

abbrev pub recv_size : ℕ
recv_size = 32768

abbrev pub send_size : ℕ
send_size = 20480

-- tcp_recv_window
unfoldable pub recv_window : Conn → ℕ
recv_window c = min (recv_size - length c.received) 20480 % 2 ^ 16

-- tcp_send_space
pub send_space : Conn → ℕ
send_space c = send_size - length c.to_send

-- The segment that tcp_send_segment builds, with a value in its checksum field.
unfoldable pub segment : Conn → ℕ → List ℕ → ℕ → List ℕ
segment c flags payload csum =
    (put16 c.local_port
      ++ (put16 c.remote_port
          ++ (put32 c.snd_nxt
              ++ (put32 (if has flags ack_flag then c.rcv_nxt else 0)
                  ++ ((if has flags syn_flag then 96 else 80) ∷ flags ∷ put16 (recv_window c))))))
    ++ (put16 csum
        ++ (put16 0 ++ ((if has flags syn_flag then 2 ∷ 4 ∷ put16 1400 else []) ++ payload)))

-- The pseudo-header of a segment of `len` bytes.
abbrev pub pseudo : ℕ → ℕ → ℕ → List ℕ
pseudo src_ip dst_ip len = put32 src_ip ++ (put32 dst_ip ++ (0 ∷ 6 ∷ put16 len))

-- The checksum that it puts in.
unfoldable pub segment_checksum : ℕ → Conn → ℕ → List ℕ → ℕ
segment_checksum my_ip c flags payload =
    let seg = segment c flags payload 0 in
    checksum_finish (checksum_add (checksum_add 0 (pseudo my_ip c.remote_ip (length seg))) seg)

-- tcp_send_segment
pub send_segment : Host → ℕ → List ℕ → Verdict × Host
send_segment h flags bytes =
    let payload = take 1200 bytes in
    let result =
      ip_send h.net h.conn.remote_ip 6
        (segment h.conn flags payload (segment_checksum h.net.cfg.my_ip h.conn flags payload)) in
    (result.0, record h { net = result.1 })

-- A bare ACK, whatever comes of it.
abbrev pub send_ack : Host → Host
send_ack h = (send_segment h ack_flag []).1

-- tcp_arm_retransmit, tcp_clear_retransmit
pub arm_retransmit : ℕ → ℕ → ℕ → Conn → Conn
arm_retransmit now flags data_len c = record c {
  retx_flags = flags;
  retx_len = data_len;
  retx_pending = true;
  retx_tick_sent = now;
  retx_count = 0;
}

pub clear_retransmit : Conn → Conn
clear_retransmit c = record c { retx_pending = false; retx_len = 0; retx_count = 0 }

-- What several functions do when they give the connection up.
abbrev pub give_up : Conn → Conn
give_up c = clear_retransmit (record c { state = closed })

-- The fields that tcp_connect sets before it sends the SYN.
abbrev pub opening : Conn → ℕ → ℕ → ℕ → ℕ → Conn
opening c remote_ip remote_port local_port isn = clear_retransmit (record c {
  state = syn_sent;
  remote_ip = remote_ip;
  remote_port = remote_port;
  local_port = local_port;
  snd_una = isn;
  snd_nxt = isn;
  rcv_nxt = 0;
  received = [];
  to_send = [];
  fin_pending = false;
  peer_mss = 536;
  peer_fin_seen = false;
  tx_fail_count = 0;
  tx_next_tick = 0;
  peer_wnd = 0;
  wl_valid = false;
  zero_wnd_active = false;
})

-- tcp_connect, up to the SYN.
abbrev pub opened_host : Host → ℕ → ℕ → Host
opened_host h remote_ip remote_port =
    let port = (h.next_port + 1) % 2 ^ 16 in
    record h {
      conn =
          opening h.conn remote_ip remote_port h.next_port
            ((0x1000 + h.net.ticks * 2 ^ 8 + h.next_port * 2 ^ 16) % 2 ^ 32);
      next_port = if ltb 60000 port then 49152 else port;
    }

-- tcp_connect
pub connect : Host → ℕ → ℕ → Host
connect h remote_ip remote_port =
    let (verdict, h') = send_segment (opened_host h remote_ip remote_port) syn_flag [] in
    elim verdict [
      | failed ↦ record h' { conn = record h'.conn { state = closed } }
      | sent ↦ after_syn h'
      | queued ↦ after_syn h'
    ]
  where
    after_syn : Host → Host
    after_syn h' =
        let armed = arm_retransmit h'.net.ticks syn_flag 0 h'.conn in
        record h' { conn = record armed { snd_nxt = add32 armed.snd_nxt 1 } }
