-- ===== src/Tcp/Receive.antt =====
-- kernel/tcp.h: the receiver. A segment is the payload of an IP packet; the debug output that a macro
-- switches on is left out with the rest of the log.
use mini_win.Base.{ℕ, zero, suc, ◌+◌, ◌-◌, ◌*◌, ◌/◌, ◌^◌, min, Bool, true, false, not, ◌&&◌, ◌||◌}
use mini_win.Base.{List, ◌++◌, ltb, leb, ◌==◌, if◌then◌else◌, length, take, drop}
use mini_win.Net.{at, get16, get32, checksum_add, checksum_finish}
use mini_win.Ip.{Packet}
use mini_win.Tcp.{State, closed, syn_sent, established, fin_wait_1, fin_wait_2, time_wait, Conn}
use mini_win.Tcp.{Host, add32, sub32, is_closed, is_syn_sent, is_established, has, recv_window}
use mini_win.Tcp.{recv_size, pseudo, send_ack, give_up, clear_retransmit, fin_flag, syn_flag}
use mini_win.Tcp.{rst_flag, ack_flag}
use mini_win.Tcp.Send.{update_peer_window, pump_send}

-- tcp_poll_recv: the bytes that it copies out, and the host.
unfoldable pub poll_recv : Host → ℕ → List ℕ × Host
poll_recv h maxlen =
    let c = h.conn in
    let n = min (length c.received) maxlen in
    let h' = record h { conn = record c { received = drop n c.received } } in
    (
      take n c.received,
      (if ltb 0 n && ltb (recv_size - length c.received) 1400 && is_established c.state
          then send_ack h'
          else h'),
    )

-- tcp_parse_syn_options from offset `i` on, with the rounds that the loop may take: the peer's MSS.
unfoldable pub parse_options : ℕ → List ℕ → ℕ → ℕ → ℕ → ℕ
parse_options zero seg hdr_len i mss = mss
parse_options (suc rounds) seg hdr_len i mss =
    let size = at seg (i + 1) in
    let told = get16 seg (i + 2) in
    let mss' = if at seg i == 2 && size == 4 && leb 64 told then told else mss in
    let skip = parse_options rounds seg hdr_len (i + 1) mss in
    let next = parse_options rounds seg hdr_len (i + size) mss' in
    if leb hdr_len i || at seg i == 0
    then mss
    else if at seg i == 1
    then skip
    else if leb hdr_len (i + 1)
    then mss
    else if ltb size 2 || ltb hdr_len (i + size)
    then mss
    else next

-- tcp_checksum_ok
unfoldable pub checksum_ok : Packet → Bool
checksum_ok ip =
    checksum_finish
      (checksum_add (checksum_add 0 (pseudo ip.src_ip ip.dst_ip (length ip.payload))) ip.payload)
    == 0

-- What tcp_handle_packet reads of a segment that it takes: its numbers, its flags, its window field,
-- the MSS that its options tell, and its bytes.
pub record Segment : Type 0 where
  pub seq : ℕ
  pub ack : ℕ
  pub flags : ℕ
  pub window : ℕ
  pub told_mss : ℕ → ℕ
  pub bytes : List ℕ

unfoldable pub read_segment : List ℕ → ℕ → Segment
read_segment seg hdr_len = record {
  seq = get32 seg 4;
  ack = get32 seg 8;
  flags = at seg 13;
  window = get16 seg 14;
  told_mss = λ mss. parse_options hdr_len seg hdr_len 20 mss;
  bytes = drop hdr_len seg;
}

-- A reset.
unfoldable pub on_reset : Host → Segment → Host
on_reset h s =
    let c = h.conn in
    let window = if recv_window c == 0 then 1 else recv_window c in
    let reset = record h { conn = give_up c } in
    if is_syn_sent c.state
    then (if not (has s.flags ack_flag) || not (s.ack == c.snd_nxt) then h else reset)
    else if not (s.seq == c.rcv_nxt)
    then (if ltb (sub32 s.seq c.rcv_nxt) window then send_ack h else h)
    else reset

-- An ACK of all that is in flight.
unfoldable pub acknowledged : Conn → Segment → Conn
acknowledged c s =
    if has s.flags ack_flag && s.ack == c.snd_nxt && c.retx_pending
    then record (clear_retransmit c) { snd_una = s.ack; to_send = drop c.retx_len c.to_send }
    else c

-- The three ways in which a segment adds to the connection: its bytes after the first `already`, if
-- there is room, and its FIN, if all before it has arrived.
unfoldable pub accept : Conn → List ℕ → Conn
accept c fresh =
    if leb (length fresh) (recv_size - length c.received)
    then record c { received = c.received ++ fresh; rcv_nxt = add32 c.rcv_nxt (length fresh) }
    else c

unfoldable pub take_fin : Conn → Segment → Conn
take_fin c s = record c { rcv_nxt = add32 (add32 s.seq (length s.bytes)) 1; peer_fin_seen = true }

abbrev pub fin_here : Conn → Segment → Bool
fin_here c s = has s.flags fin_flag && add32 s.seq (length s.bytes) == c.rcv_nxt

-- case TCP_SYN_SENT
unfoldable pub in_syn_sent : Host → Segment → Host
in_syn_sent h s =
    let c = h.conn in
    if has s.flags syn_flag && has s.flags ack_flag && s.ack == c.snd_nxt
    then send_ack (record h {
      conn = record c {
        rcv_nxt = add32 s.seq 1;
        peer_mss = s.told_mss c.peer_mss;
        peer_wnd = s.window;
        wl1 = s.seq;
        wl2 = s.ack;
        wl_valid = true;
        state = established;
      };
    })
    else h

-- case TCP_ESTABLISHED: the window, the bytes, the FIN, and the pump.
unfoldable pub window_of : Host → Segment → Host
window_of h s =
    if has s.flags ack_flag
    then record h { conn = update_peer_window h.conn s.window s.seq s.ack }
    else h

unfoldable pub bytes_of : Host → Segment → Host
bytes_of h s =
    let already = sub32 h.conn.rcv_nxt s.seq in
    let taken =
      if ltb already (2 ^ 31) && ltb already (length s.bytes)
      then accept h.conn (drop already s.bytes)
      else h.conn in
    if ltb 0 (length s.bytes) then send_ack (record h { conn = taken }) else h

unfoldable pub fin_of : Host → Segment → Host
fin_of h s =
    if fin_here h.conn s
    then send_ack (record h { conn = take_fin h.conn s })
    else if has s.flags fin_flag && add32 (add32 s.seq (length s.bytes)) 1 == h.conn.rcv_nxt
    then send_ack h
    else h

unfoldable pub in_established : Host → Segment → Host
in_established h s = pump_send (fin_of (bytes_of (window_of h s) s) s)

-- The bytes that come after our FIN: only those that are expected next.
unfoldable pub tail_bytes : Host → Segment → Host
tail_bytes h s =
    if ltb 0 (length s.bytes) && s.seq == h.conn.rcv_nxt
    then send_ack (record h { conn = accept h.conn s.bytes })
    else h

-- case TCP_FIN_WAIT_1
unfoldable pub fin_acknowledged : Conn → Segment → Conn
fin_acknowledged c s =
    if has s.flags ack_flag && s.ack == c.snd_nxt
    then record c { state = if c.peer_fin_seen then closed else fin_wait_2 }
    else c

abbrev pub is_fin_wait_2 : State → Bool
is_fin_wait_2 fin_wait_2 = true
is_fin_wait_2 _ = false

unfoldable pub tail_fin : Host → Segment → Host
tail_fin h s =
    let h' = send_ack (record h { conn = take_fin h.conn s }) in
    if fin_here h.conn s
    then (if is_fin_wait_2 h'.conn.state
        then record h' { conn = record h'.conn { state = closed } }
        else h')
    else h

unfoldable pub in_fin_wait_1 : Host → Segment → Host
in_fin_wait_1 h s = tail_fin (tail_bytes (record h { conn = fin_acknowledged h.conn s }) s) s

-- case TCP_FIN_WAIT_2
unfoldable pub in_fin_wait_2 : Host → Segment → Host
in_fin_wait_2 h s =
    let t = tail_bytes h s in
    let h' = send_ack (record t { conn = take_fin t.conn s }) in
    if fin_here t.conn s then record h' { conn = record h'.conn { state = closed } } else t

-- The switch.
unfoldable pub by_state : Host → Segment → Host
by_state h s = elim h.conn.state [
  | closed ↦ h
  | syn_sent ↦ in_syn_sent h s
  | established ↦ in_established h s
  | fin_wait_1 ↦ in_fin_wait_1 h s
  | fin_wait_2 ↦ in_fin_wait_2 h s
  | time_wait ↦ h
]

-- What follows the checks.
unfoldable pub on_segment : Host → Segment → Host
on_segment h s =
    if has s.flags rst_flag
    then on_reset h s
    else by_state (record h { conn = acknowledged h.conn s }) s

-- tcp_handle_packet
unfoldable pub handle_packet : Host → Packet → Host
handle_packet h ip =
    let seg = ip.payload in
    let hdr_len = at seg 12 / 16 * 4 in
    if ltb (length seg) 20
    then h
    else if is_closed h.conn.state
    then h
    else if not (ip.src_ip == h.conn.remote_ip)
        || not (get16 seg 0 == h.conn.remote_port)
        || not (get16 seg 2 == h.conn.local_port)
    then h
    else if not (checksum_ok ip)
    then h
    else if ltb hdr_len 20 || ltb (length seg) hdr_len
    then h
    else on_segment h (read_segment seg hdr_len)
