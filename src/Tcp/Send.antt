-- ===== src/Tcp/Send.antt =====
-- kernel/tcp.h: the send queue, the peer's window, and the retransmit timer.
use mini_win.Base.{ℕ, ◌+◌, ◌-◌, ◌%◌, ◌^◌, min, Bool, true, false, not, ◌&&◌, ◌||◌, List, [], ◌++◌}
use mini_win.Base.{ltb, leb, ◌==◌, if◌then◌else◌, length, take}
use mini_win.Ip.{failed, sent, queued}
use mini_win.Tcp.{fin_wait_1, Conn, Host, add32, sub32, is_established, send_space, send_segment}
use mini_win.Tcp.{send_ack, arm_retransmit, give_up, fin_flag, ack_flag, psh_flag}

-- net_wall_elapsed
pub wall_elapsed : Host → ℕ → ℕ
wall_elapsed h since = (h.wall + 86400 - since) % 86400

-- tcp_tx_refused: the refusal booked, and whether it was one too many.
abbrev pub refusal : Host → Conn
refusal h = record h.conn {
  tx_first_fail_wall = if h.conn.tx_fail_count == 0 then h.wall else h.conn.tx_first_fail_wall;
  tx_fail_count = h.conn.tx_fail_count + 1;
  tx_next_tick = add32 h.net.ticks 100;
}

abbrev pub out_of_patience : Host → Conn → Bool
out_of_patience h c =
    (leb 3 c.tx_fail_count && leb 8 (wall_elapsed h c.tx_first_fail_wall))
    || leb 4000 c.tx_fail_count

unfoldable pub tx_refused : Host → Host
tx_refused h =
    if out_of_patience h (refusal h)
    then record h { conn = give_up (refusal h) }
    else record h { conn = refusal h }

-- tcp_update_peer_window, on the window field of the segment.
unfoldable pub update_peer_window : Conn → ℕ → ℕ → ℕ → Conn
update_peer_window c window seq ack =
    if ltb (sub32 c.snd_nxt c.snd_una) (sub32 ack c.snd_una)
    then c
    else if not c.wl_valid
        || (ltb 0 (sub32 seq c.wl1) && ltb (sub32 seq c.wl1) (2 ^ 31))
        || (seq == c.wl1 && ltb (sub32 ack c.wl2) (2 ^ 31))
    then record c { peer_wnd = window; wl1 = seq; wl2 = ack; wl_valid = true }
    else c

-- tcp_zero_window_wait
unfoldable pub zero_window_wait : Host → Host
zero_window_wait h =
    let probing = record h.conn {
      zero_wnd_probe_wall = h.wall;
      snd_nxt = sub32 h.conn.snd_nxt 1;
    } in
    let probed = send_ack (record h { conn = probing }) in
    if not h.conn.zero_wnd_active
    then record h {
      conn = record h.conn {
        zero_wnd_active = true;
        zero_wnd_first_wall = h.wall;
        zero_wnd_probe_wall = h.wall;
      };
    }
    else if leb 30 (wall_elapsed h h.conn.zero_wnd_first_wall)
    then record h { conn = give_up h.conn }
    else if leb 2 (wall_elapsed h h.conn.zero_wnd_probe_wall)
    then record probed { conn = record probed.conn { snd_nxt = add32 probed.conn.snd_nxt 1 } }
    else h

-- How many bytes the pump cuts off the front of the queue.
unfoldable pub next_cut : Conn → ℕ
next_cut c = min (length c.to_send) (min (min c.peer_mss 1200) c.peer_wnd)

-- The branch of tcp_pump_send for queued bytes, and the one for the FIN.
abbrev pub reopened : Host → Host
reopened h = record h { conn = record h.conn { zero_wnd_active = false } }

unfoldable pub pump_bytes : Host → Host
pump_bytes h =
    let n = next_cut h.conn in
    let (verdict, h') = send_segment (reopened h) (ack_flag + psh_flag) (take n h.conn.to_send) in
    elim verdict [ failed ↦ tx_refused h' | sent ↦ booked n h' | queued ↦ booked n h' ]
  where
    booked : ℕ → Host → Host
    booked n h' =
        let c =
          arm_retransmit h'.net.ticks (ack_flag + psh_flag) n
            (record h'.conn { tx_fail_count = 0 }) in
        record h' { conn = record c { snd_nxt = add32 c.snd_nxt n } }

unfoldable pub pump_fin : Host → Host
pump_fin h =
    let (verdict, h') = send_segment h (fin_flag + ack_flag) [] in
    elim verdict [ failed ↦ tx_refused h' | sent ↦ booked h' | queued ↦ booked h' ]
  where
    booked : Host → Host
    booked h' =
        let c =
          arm_retransmit h'.net.ticks (fin_flag + ack_flag) 0
            (record h'.conn { tx_fail_count = 0; fin_pending = false }) in
        record h' { conn = record c { snd_nxt = add32 c.snd_nxt 1; state = fin_wait_1 } }

-- tcp_pump_send
unfoldable pub pump_send : Host → Host
pump_send h =
    let c = h.conn in
    if not (is_established c.state) || c.retx_pending
    then h
    else if length c.to_send == 0 && not c.fin_pending
    then h
    else if ltb 0 c.tx_fail_count && ltb h.net.ticks c.tx_next_tick
    then h
    else if ltb 0 (length c.to_send)
    then (if c.peer_wnd == 0 then zero_window_wait h else pump_bytes h)
    else pump_fin h

-- tcp_send_data
unfoldable pub send_data : Host → List ℕ → Bool × Host
send_data h bytes =
    if not (is_established h.conn.state) || h.conn.fin_pending
    then (false, h)
    else if ltb (send_space h.conn) (length bytes)
    then (false, h)
    else (true, pump_send (record h { conn = record h.conn { to_send = h.conn.to_send ++ bytes } }))

-- tcp_close
unfoldable pub close : Host → Host
close h =
    if not (is_established h.conn.state)
    then h
    else pump_send (record h { conn = record h.conn { fin_pending = true } })

-- The part of tcp_poll_retransmit after the pump.
unfoldable pub retransmit : Host → Host
retransmit h =
    let c = h.conn in
    let again =
      (send_segment (record h { conn = record c { snd_nxt = c.snd_una } }) c.retx_flags
        (take c.retx_len c.to_send)).1 in
    if not c.retx_pending
    then h
    else if ltb (sub32 h.net.ticks c.retx_tick_sent) 800
    then h
    else if leb 5 c.retx_count
    then record h { conn = give_up c }
    else record again {
      conn = record again.conn {
        snd_nxt = c.snd_nxt;
        retx_tick_sent = again.net.ticks;
        retx_count = c.retx_count + 1;
      };
    }

-- tcp_poll_retransmit
unfoldable pub poll_retransmit : Host → Host
poll_retransmit h = retransmit (pump_send h)
