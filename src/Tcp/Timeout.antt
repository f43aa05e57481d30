-- ===== src/Tcp/Timeout.antt =====
-- kernel/tcp.h: the retransmit timer.
use mini_win.Base.{◌&&◌, ◌==◌, drop, ◌+◌, ◌≤◌, ◌<◌, ◌≡◌, refl, sym, ap, ◌∙◌, true, false, not}
use mini_win.Base.{◌||◌, List, [], ◌∷◌, arith, subst, ltb, leb, length, if_cases}
use mini_win.Net.{Net}
use mini_win.Tcp.{State, closed, syn_sent, Conn, Host, sub32, is_closed, is_syn_sent}
use mini_win.Tcp.{is_established, has, send_segment, clear_retransmit, syn_flag, rst_flag}
use mini_win.Tcp.{ack_flag, established, fin_wait_1, fin_wait_2, time_wait}
use mini_win.Tcp.Send.{pump_send, retransmit, poll_retransmit}
use mini_win.Tcp.Receive.{in_established, in_fin_wait_1, in_fin_wait_2, Segment, acknowledged}
use mini_win.Tcp.Receive.{by_state, in_syn_sent, on_segment}

-- A row of polls, each on the network as it is then.
unfoldable pub poll_on : Host → List Net → Host
poll_on h [] = h
poll_on h (n ∷ ns) = poll_on (poll_retransmit (record h { net = n })) ns

-- Each of them comes 800 ticks or more after the segment in flight was last sent.
unfoldable pub AreLate : Host → List Net → Type 0
AreLate h [] = 0 ≤ 0
AreLate h (n ∷ ns) =
    (800 ≤ sub32 n.ticks h.conn.retx_tick_sent)
    × AreLate (poll_retransmit (record h { net = n })) ns

pumped : (h : Host) → h.conn.retx_pending ≡ true → poll_retransmit h ≡ retransmit h
unfolding poll_retransmit pump_send
pumped h busy = ap retransmit (
    if_cases (λ k. k ≡ h) (not (is_established h.conn.state) || h.conn.retx_pending) (λ a. refl)
      (λ a. absurd (ground (arith, a, busy))))

-- What one late poll does.
record IsLatePoll (h k : Host) : Type 0 where
  over : 5 ≤ h.conn.retx_count → is_closed k.conn.state ≡ true
  again : h.conn.retx_count < 5 → k.conn.retx_count ≡ h.conn.retx_count + 1
  busy : h.conn.retx_count < 5 → k.conn.retx_pending ≡ true

poll_retransmit-IsLatePoll :
    (h : Host)
    → h.conn.retx_pending ≡ true
    → 800 ≤ sub32 h.net.ticks h.conn.retx_tick_sent
    → IsLatePoll h (poll_retransmit h)
unfolding retransmit send_segment clear_retransmit
poll_retransmit-IsLatePoll h busy late = subst (IsLatePoll h) (sym (pumped h busy)) (
    if_cases (IsLatePoll h) (not h.conn.retx_pending) (λ a. absurd (ground (arith, a, busy)))
      (λ a.
        if_cases (IsLatePoll h) (ltb (sub32 h.net.ticks h.conn.retx_tick_sent) 800)
          (λ b. absurd (ground (arith, b, late)))
          (λ b.
            if_cases (IsLatePoll h) (leb 5 h.conn.retx_count)
              (λ d. record {
                over = λ e. refl;
                again = λ e. absurd (ground (arith, d, e));
                busy = λ e. absurd (ground (arith, d, e));
              })
              (λ d. record {
                over = λ e. absurd (ground (arith, d, e));
                again = λ e. refl;
                busy = λ e. busy;
              }))))

-- With a segment in flight that nobody acknowledges, as many timer polls as there are attempts left
-- and one more, each 800 ticks or more after the segment was last sent, end the connection in
-- TCP_CLOSED.
pub poll_on-closed :
    (h : Host) (ns : List Net)
    → h.conn.retx_pending ≡ true
    → h.conn.retx_count + length ns ≡ 6
    → h.conn.retx_count ≤ 5
    → AreLate h ns
    → is_closed (poll_on h ns).conn.state ≡ true
unfolding poll_on AreLate
poll_on-closed h [] busy count few late = absurd (omega arith)
poll_on-closed h (n ∷ []) busy count few (late, rest) =
    (poll_retransmit-IsLatePoll (record h { net = n }) busy late).over (omega arith)
poll_on-closed h (n ∷ m ∷ ns) busy count few (late, rest) =
    let p = poll_retransmit-IsLatePoll (record h { net = n }) busy late in
    let more : h.conn.retx_count < 5 = omega arith in
    poll_on-closed (poll_retransmit (record h { net = n })) (m ∷ ns) (p.busy more)
      (omega (arith, p.again more)) (omega (arith, p.again more)) rest

-- Polls with nothing in flight before the handshake is over do nothing.
idle_poll :
    (h : Host)
    → is_syn_sent h.conn.state ≡ true
    → h.conn.retx_pending ≡ false
    → poll_retransmit h ≡ h
unfolding poll_retransmit retransmit pump_send
idle_poll h waits idle =
    ap retransmit (
      if_cases (λ k. k ≡ h) (not (is_established h.conn.state) || h.conn.retx_pending) (λ a. refl)
        (λ a. absurd (ground (arith, a, not_up h.conn.state waits))))
    ∙ if_cases (λ k. k ≡ h) (not h.conn.retx_pending) (λ a. refl)
        (λ a. absurd (ground (arith, a, idle)))
  where
    not_up : (s : State) → is_syn_sent s ≡ true → is_established s ≡ false
    not_up syn_sent e = refl
    not_up closed e = refl
    not_up established e = cc
    not_up fin_wait_1 e = refl
    not_up fin_wait_2 e = refl
    not_up time_wait e = refl

idle_polls :
    (h : Host) (ns : List Net)
    → is_syn_sent h.conn.state ≡ true
    → h.conn.retx_pending ≡ false
    → (poll_on h ns).conn ≡ h.conn
unfolding poll_on
idle_polls h [] waits idle = refl
idle_polls h (n ∷ ns) waits idle =
    ap (λ k. (poll_on k ns).conn) (idle_poll (record h { net = n }) waits idle)
    ∙ idle_polls (record h { net = n }) ns waits idle

-- The connection after a segment that acknowledges our SYN without being one.
forgotten : Conn → Segment → Conn
forgotten c s = record (clear_retransmit c) { snd_una = s.ack; to_send = drop c.retx_len c.to_send }

waiting_state :
    (h : Host) (s : Segment) (state : State)
    → is_syn_sent state ≡ true
    → has s.flags syn_flag ≡ false
    → (elim state [
      | closed ↦ h
      | syn_sent ↦ in_syn_sent h s
      | established ↦ in_established h s
      | fin_wait_1 ↦ in_fin_wait_1 h s
      | fin_wait_2 ↦ in_fin_wait_2 h s
      | time_wait ↦ h
    ])
      ≡ h
unfolding in_syn_sent
waiting_state h s syn_sent w no_syn =
    if_cases (λ k. k ≡ h) (has s.flags syn_flag && has s.flags ack_flag && s.ack == h.conn.snd_nxt)
      (λ e. absurd (ground (arith, e, no_syn))) (λ e. refl)
waiting_state h s closed w no_syn = refl
waiting_state h s established w no_syn = cc
waiting_state h s fin_wait_1 w no_syn = cc
waiting_state h s fin_wait_2 w no_syn = cc
waiting_state h s time_wait w no_syn = refl

-- In TCP_SYN_SENT, a segment that acknowledges the SYN without being a SYN or a RST itself leaves
-- the connection in TCP_SYN_SENT with nothing in flight, and then no later timer poll changes the
-- connection.
pub ack-idle :
    (h : Host) (s : Segment) (ns : List Net)
    → is_syn_sent h.conn.state ≡ true
    → h.conn.retx_pending ≡ true
    → has s.flags rst_flag ≡ false
    → has s.flags syn_flag ≡ false
    → has s.flags ack_flag ≡ true
    → s.ack ≡ h.conn.snd_nxt
    → let stuck = on_segment h s in
      (is_syn_sent stuck.conn.state ≡ true)
      × (stuck.conn.retx_pending ≡ false)
      × ((poll_on stuck ns).conn ≡ stuck.conn)
unfolding on_segment by_state acknowledged clear_retransmit forgotten
ack-idle h s ns waits busy no_rst no_syn is_ack right =
    subst
      (λ k.
        (is_syn_sent k.conn.state ≡ true)
        × (k.conn.retx_pending ≡ false)
        × ((poll_on k ns).conn ≡ k.conn))
      (sym reached) (waits, refl, idle_polls (record h { conn = forgotten h.conn s }) ns waits refl)
  where
    dropped : acknowledged h.conn s ≡ forgotten h.conn s
    dropped =
        if_cases (λ c. c ≡ forgotten h.conn s)
          (has s.flags ack_flag && s.ack == h.conn.snd_nxt && h.conn.retx_pending) (λ e. refl)
          (λ e. absurd (ground (arith, e, is_ack, right, busy)))

    reached : on_segment h s ≡ record h { conn = forgotten h.conn s }
    reached =
        if_cases (λ k. k ≡ record h { conn = forgotten h.conn s }) (has s.flags rst_flag)
          (λ e. absurd (ground (arith, e, no_rst)))
          (λ e.
            ap (λ c. by_state (record h { conn = c }) s) dropped
            ∙ waiting_state (record h { conn = forgotten h.conn s }) s h.conn.state waits no_syn)
