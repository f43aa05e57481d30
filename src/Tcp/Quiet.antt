-- ===== src/Tcp/Quiet.antt =====
-- kernel/tcp.h: the sending operations and the receiver's state.
use mini_win.Base.{ℕ, ◌+◌, ◌≡◌, refl, ◌∙◌, Bool, true, false, not, ◌&&◌, ◌||◌, List, [], ◌++◌}
use mini_win.Base.{ltb, leb, ◌==◌, length, take, if_cases}
use mini_win.Tcp.{Conn, Host, sub32, is_syn_sent, is_established, send_space, send_segment}
use mini_win.Tcp.{arm_retransmit, clear_retransmit, fin_flag, ack_flag, psh_flag}
use mini_win.Tcp.Send.{refusal, out_of_patience, wall_elapsed, tx_refused, zero_window_wait}
use mini_win.Tcp.Send.{next_cut, reopened, pump_bytes, pump_fin, pump_send, send_data, close}
use mini_win.Tcp.Send.{retransmit, poll_retransmit}
use mini_win.Tcp.Invariant.{verdict_cases}

-- The received bytes, the number of the next, and whether the peer has ended its stream are the
-- same, and the handshake has not started again.
pub record Untouched (c c' : Conn) : Type 0 where
  pub received : c'.received ≡ c.received
  pub rcv_nxt : c'.rcv_nxt ≡ c.rcv_nxt
  pub peer_fin_seen : c'.peer_fin_seen ≡ c.peer_fin_seen
  pub past_syn : is_syn_sent c.state ≡ false → is_syn_sent c'.state ≡ false

-- The four fields spelled out.
untouched :
    {c c' : Conn}
    → c'.received ≡ c.received
    → c'.rcv_nxt ≡ c.rcv_nxt
    → c'.peer_fin_seen ≡ c.peer_fin_seen
    → (is_syn_sent c.state ≡ false → is_syn_sent c'.state ≡ false)
    → Untouched c c'
untouched r n p q = record { received = r; rcv_nxt = n; peer_fin_seen = p; past_syn = q }

-- From a connection to that of a host.
pub record Leaves (c : Conn) (h : Host) : Type 0 where
  pub same : Untouched c h.conn

leaves :
    {c : Conn} {h : Host}
    → h.conn.received ≡ c.received
    → h.conn.rcv_nxt ≡ c.rcv_nxt
    → h.conn.peer_fin_seen ≡ c.peer_fin_seen
    → (is_syn_sent c.state ≡ false → is_syn_sent h.conn.state ≡ false)
    → Leaves c h
leaves r n p q = record { same = untouched r n p q }

pub stays : (h : Host) → Leaves h.conn h
stays h = leaves refl refl refl (λ e. e)

tx_refused-Leaves : (c : Conn) (h : Host) → Leaves c h → Leaves c (tx_refused h)
unfolding tx_refused clear_retransmit
tx_refused-Leaves c h u =
    if_cases (Leaves c) (out_of_patience h (refusal h))
      (λ e. leaves u.same.received u.same.rcv_nxt u.same.peer_fin_seen (λ q. refl))
      (λ e. leaves u.same.received u.same.rcv_nxt u.same.peer_fin_seen u.same.past_syn)

zero_window_wait-Leaves : (h : Host) → Leaves h.conn (zero_window_wait h)
unfolding zero_window_wait send_segment clear_retransmit
zero_window_wait-Leaves h =
    if_cases (Leaves h.conn) (not h.conn.zero_wnd_active) (λ a. leaves refl refl refl (λ e. e))
      (λ a.
        if_cases (Leaves h.conn) (leb 30 (wall_elapsed h h.conn.zero_wnd_first_wall))
          (λ b. leaves refl refl refl (λ e. refl))
          (λ b.
            if_cases (Leaves h.conn) (leb 2 (wall_elapsed h h.conn.zero_wnd_probe_wall))
              (λ d. leaves refl refl refl (λ e. e)) (λ d. stays h)))

pump_bytes-Leaves : (h : Host) → Leaves h.conn (pump_bytes h)
unfolding pump_bytes send_segment arm_retransmit
pump_bytes-Leaves h =
    verdict_cases (Leaves h.conn)
      (send_segment (reopened h) (ack_flag + psh_flag) (take (next_cut h.conn) h.conn.to_send)).0
      (tx_refused-Leaves h.conn _ (leaves refl refl refl (λ e. e))) (leaves refl refl refl (λ e. e))

pump_fin-Leaves : (h : Host) → Leaves h.conn (pump_fin h)
unfolding pump_fin send_segment arm_retransmit
pump_fin-Leaves h =
    verdict_cases (Leaves h.conn) (send_segment h (fin_flag + ack_flag) []).0
      (tx_refused-Leaves h.conn _ (leaves refl refl refl (λ e. e)))
      (leaves refl refl refl (λ e. refl))

pub pump_send-Leaves : (h : Host) → Leaves h.conn (pump_send h)
unfolding pump_send
pump_send-Leaves h =
    let c = h.conn in
    let P = Leaves c in
    if_cases P (not (is_established c.state) || c.retx_pending) (λ a. stays h)
      (λ a.
        if_cases P (length c.to_send == 0 && not c.fin_pending) (λ b. stays h)
          (λ b.
            if_cases P (ltb 0 c.tx_fail_count && ltb h.net.ticks c.tx_next_tick) (λ d. stays h)
              (λ d.
                if_cases P (ltb 0 (length c.to_send))
                  (λ e.
                    if_cases P (c.peer_wnd == 0) (λ g. zero_window_wait-Leaves h)
                      (λ g. pump_bytes-Leaves h))
                  (λ e. pump_fin-Leaves h))))

-- One after the other.
pub Leaves-trans : {c : Conn} {h k : Host} → Leaves c h → Leaves h.conn k → Leaves c k
Leaves-trans u w =
    leaves (w.same.received ∙ u.same.received) (w.same.rcv_nxt ∙ u.same.rcv_nxt)
      (w.same.peer_fin_seen ∙ u.same.peer_fin_seen) (λ e. w.same.past_syn (u.same.past_syn e))

pub send_data-Leaves : (h : Host) (bytes : List ℕ) → Leaves h.conn (send_data h bytes).1
unfolding send_data
send_data-Leaves h bytes =
    let P : Bool × Host → Type 0 = λ r. Leaves h.conn r.1 in
    let longer = record h { conn = record h.conn { to_send = h.conn.to_send ++ bytes } } in
    if_cases P (not (is_established h.conn.state) || h.conn.fin_pending) (λ a. stays h)
      (λ a.
        if_cases P (ltb (send_space h.conn) (length bytes)) (λ b. stays h)
          (λ b.
            Leaves-trans {h = longer} (leaves refl refl refl (λ e. e)) (pump_send-Leaves longer)))

pub close-Leaves : (h : Host) → Leaves h.conn (close h)
unfolding close
close-Leaves h =
    let closing = record h { conn = record h.conn { fin_pending = true } } in
    if_cases (Leaves h.conn) (not (is_established h.conn.state)) (λ a. stays h)
      (λ a. Leaves-trans {h = closing} (leaves refl refl refl (λ e. e)) (pump_send-Leaves closing))

retransmit-Leaves : (h : Host) → Leaves h.conn (retransmit h)
unfolding retransmit send_segment clear_retransmit
retransmit-Leaves h =
    let c = h.conn in
    if_cases (Leaves c) (not c.retx_pending) (λ a. stays h)
      (λ a.
        if_cases (Leaves c) (ltb (sub32 h.net.ticks c.retx_tick_sent) 800) (λ b. stays h)
          (λ b.
            if_cases (Leaves c) (leb 5 c.retx_count) (λ d. leaves refl refl refl (λ e. refl))
              (λ d. leaves refl refl refl (λ e. e))))

pub poll_retransmit-Leaves : (h : Host) → Leaves h.conn (poll_retransmit h)
unfolding poll_retransmit
poll_retransmit-Leaves h =
    Leaves-trans {h = pump_send h} (pump_send-Leaves h) (retransmit-Leaves (pump_send h))
