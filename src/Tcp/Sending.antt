-- ===== src/Tcp/Sending.antt =====
-- kernel/tcp.h: the operations that only send, and the invariant.
use mini_win.Base.{sym, length-append, ◌&&◌, ◌||◌, List, ltb, ◌+◌, [], take, not, leb, subst, ℕ}
use mini_win.Base.{◌^◌, ◌<◌, ◌≡◌, refl, Bool, true, false, arith, ◌==◌, length, if_cases}
use mini_win.Tcp.{State, closed, syn_sent, Host, fin_flag, ack_flag, psh_flag, syn_flag}
use mini_win.Tcp.{opened_host, add32, sub32, is_closed, is_established, send_space, send_segment}
use mini_win.Tcp.{arm_retransmit, clear_retransmit, connect}
use mini_win.Tcp.Send.{reopened, refusal, out_of_patience, wall_elapsed, tx_refused}
use mini_win.Tcp.Send.{zero_window_wait, next_cut, pump_bytes, pump_fin, pump_send, send_data}
use mini_win.Tcp.Send.{close, retransmit, poll_retransmit}
use mini_win.Tcp.Invariant.{span, is_time_wait, Sound, IsSound, verdict_cases, give_up-IsConn}
use mini_win.Tcp.Invariant.{armed-Sound, when_free, live_when_up, longer, one_more}

-- tcp_connect makes a sound connection of any.
pub connect-IsSound : (h : Host) (ip port : ℕ) → IsSound (connect h ip port)
unfolding connect send_segment arm_retransmit clear_retransmit
connect-IsSound h ip port =
    verdict_cases IsSound (send_segment (opened_host h ip port) syn_flag []).0
      (record {
        sound =
            opened closed false 0 _ (omega arith, omega arith, refl) (λ e. refl)
              (λ e. absurd (ground (arith, e))) refl;
      })
      (record {
        sound =
            opened syn_sent true 0 _ (omega arith, omega arith, refl) (λ e. refl) (λ e. refl) refl;
      })
  where
    opened :
        {una : ℕ} (state : State) (pending : Bool) (len nxt : ℕ)
        → (una < 2 ^ 32) × (nxt < 2 ^ 32) × (len ≡ 0)
        → (pending ≡ false → len ≡ 0)
        → (is_closed state ≡ false → nxt ≡ add32 una (span pending len))
        → is_time_wait state ≡ false
        → Sound state 0 0 una nxt pending len 0 536
    opened state pending len nxt number idle in_flight never = record {
      fits_recv = omega arith;
      fits_send = omega arith;
      front = omega (arith, number.2);
      short = omega (arith, number.2);
      idle = idle;
      number = (number.0, number.1);
      in_flight = in_flight;
      tries = omega arith;
      wide = omega arith;
      never_waits = never;
    }

tx_refused-IsSound : (h : Host) → IsSound h → IsSound (tx_refused h)
unfolding tx_refused
tx_refused-IsSound h inv =
    if_cases IsSound (out_of_patience h (refusal h))
      (λ e. record { sound = give_up-IsConn (refusal h) inv.sound })
      (λ e. record { sound = inv.sound })

zero_window_wait-IsSound : (h : Host) → IsSound h → IsSound (zero_window_wait h)
unfolding zero_window_wait send_segment
zero_window_wait-IsSound h inv =
    if_cases IsSound (not h.conn.zero_wnd_active) (λ a. record { sound = inv.sound })
      (λ a.
        if_cases IsSound (leb 30 (wall_elapsed h h.conn.zero_wnd_first_wall))
          (λ b. record { sound = give_up-IsConn h.conn inv.sound })
          (λ b.
            if_cases IsSound (leb 2 (wall_elapsed h h.conn.zero_wnd_probe_wall))
              (λ d. record {
                sound =
                    subst
                      (λ n.
                        Sound h.conn.state (length h.conn.received) (length h.conn.to_send)
                          h.conn.snd_una n h.conn.retx_pending h.conn.retx_len h.conn.retx_count
                          h.conn.peer_mss)
                      {x = h.conn.snd_nxt} {y = add32 (sub32 h.conn.snd_nxt 1) 1}
                      (omega (arith, inv.sound.number.1)) inv.sound;
              })
              (λ d. inv)))

pump_bytes-IsSound :
    (h : Host)
    → IsSound h
    → h.conn.retx_pending ≡ false
    → is_established h.conn.state ≡ true
    → 0 < length h.conn.to_send
    → 0 < h.conn.peer_wnd
    → IsSound (pump_bytes h)
unfolding pump_bytes send_segment arm_retransmit next_cut
pump_bytes-IsSound h inv free up some_left open_window =
    verdict_cases IsSound
      (send_segment (reopened h) (ack_flag + psh_flag) (take (next_cut h.conn) h.conn.to_send)).0
      (tx_refused-IsSound _ (record { sound = inv.sound }))
      (record {
        sound =
            subst
              (λ k.
                Sound h.conn.state (length h.conn.received) (length h.conn.to_send) h.conn.snd_una
                  (add32 h.conn.snd_nxt k) true (next_cut h.conn) 0 h.conn.peer_mss)
              {x = span true (next_cut h.conn)} {y = next_cut h.conn}
              (ground (arith, inv.sound.wide))
              (armed-Sound (next_cut h.conn) (when_free h.conn inv.sound free)
                (live_when_up h.conn.state up) inv.sound.never_waits (omega arith) (omega arith));
      })

pump_fin-IsSound :
    (h : Host)
    → IsSound h
    → h.conn.retx_pending ≡ false
    → is_established h.conn.state ≡ true
    → IsSound (pump_fin h)
unfolding pump_fin send_segment arm_retransmit
pump_fin-IsSound h inv free up =
    verdict_cases IsSound (send_segment h (fin_flag + ack_flag) []).0
      (tx_refused-IsSound _ (record { sound = inv.sound }))
      (record {
        sound =
            armed-Sound 0 (when_free h.conn inv.sound free) (live_when_up h.conn.state up) refl
              (omega arith) (omega arith);
      })

pub pump_send-IsSound : (h : Host) → IsSound h → IsSound (pump_send h)
unfolding pump_send
pump_send-IsSound h inv =
    let c = h.conn in
    if_cases IsSound (not (is_established c.state) || c.retx_pending) (λ a. inv)
      (λ a.
        if_cases IsSound (length c.to_send == 0 && not c.fin_pending) (λ b. inv)
          (λ b.
            if_cases IsSound (ltb 0 c.tx_fail_count && ltb h.net.ticks c.tx_next_tick) (λ d. inv)
              (λ d.
                if_cases IsSound (ltb 0 (length c.to_send))
                  (λ e.
                    if_cases IsSound (c.peer_wnd == 0) (λ f. zero_window_wait-IsSound h inv)
                      (λ f.
                        pump_bytes-IsSound h inv (ground (arith, a)) (ground (arith, a))
                          (ground (arith, e)) (ground (arith, f))))
                  (λ e. pump_fin-IsSound h inv (ground (arith, a)) (ground (arith, a))))))

pub send_data-IsSound : (h : Host) (bytes : List ℕ) → IsSound h → IsSound (send_data h bytes).1
unfolding send_data send_space
send_data-IsSound h bytes inv =
    let P : Bool × Host → Type 0 = λ r. IsSound r.1 in
    if_cases P (not (is_established h.conn.state) || h.conn.fin_pending) (λ a. inv)
      (λ a.
        if_cases P (ltb (send_space h.conn) (length bytes)) (λ b. inv)
          (λ b. pump_send-IsSound _ (record {
            sound =
                subst
                  (λ n.
                    Sound h.conn.state (length h.conn.received) n h.conn.snd_una h.conn.snd_nxt
                      h.conn.retx_pending h.conn.retx_len h.conn.retx_count h.conn.peer_mss)
                  (sym (length-append h.conn.to_send bytes))
                  (longer (length bytes) inv.sound (ground (arith, b, inv.sound.fits_send)));
          })))

pub close-IsSound : (h : Host) → IsSound h → IsSound (close h)
unfolding close
close-IsSound h inv =
    if_cases IsSound (not (is_established h.conn.state)) (λ a. inv)
      (λ a. pump_send-IsSound _ (record { sound = inv.sound }))

pub poll_retransmit-IsSound : (h : Host) → IsSound h → IsSound (poll_retransmit h)
unfolding poll_retransmit retransmit send_segment
poll_retransmit-IsSound h inv = again (pump_send h) (pump_send-IsSound h inv)
  where
    again : (k : Host) → IsSound k → IsSound (retransmit k)
    again k inv =
        let c = k.conn in
        if_cases IsSound (not c.retx_pending) (λ a. inv)
          (λ a.
            if_cases IsSound (ltb (sub32 k.net.ticks c.retx_tick_sent) 800) (λ b. inv)
              (λ b.
                if_cases IsSound (leb 5 c.retx_count)
                  (λ d. record { sound = give_up-IsConn c inv.sound })
                  (λ d. record { sound = one_more inv.sound (ground (arith, d)) })))
