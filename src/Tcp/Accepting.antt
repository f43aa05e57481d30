-- ===== src/Tcp/Accepting.antt =====
-- kernel/tcp.h: the parts of the receiver up to TCP_ESTABLISHED, and the invariant.
use mini_win.Base.{◌-◌, ◌^◌, refl, sym, true, ◌&&◌, ◌++◌, arith, subst, leb, length, drop}
use mini_win.Base.{length-append, length-drop, ℕ, ◌≤◌, ◌≡◌, Bool, false, not, ◌||◌, List, ltb}
use mini_win.Base.{◌==◌, if◌then◌else◌, if_cases}
use mini_win.Tcp.{State, established, Conn, Host, add32, sub32, is_closed, is_syn_sent, has}
use mini_win.Tcp.{recv_window, recv_size, send_segment, send_ack, clear_retransmit, give_up}
use mini_win.Tcp.{fin_flag, syn_flag, ack_flag}
use mini_win.Tcp.Send.{update_peer_window}
use mini_win.Tcp.Receive.{Segment, on_reset, acknowledged, accept, take_fin, fin_here}
use mini_win.Tcp.Receive.{in_syn_sent, window_of, bytes_of, fin_of, in_established}
use mini_win.Tcp.Invariant.{is_time_wait, Sound, IsConn, IsSound, give_up-IsConn}
use mini_win.Tcp.Sending.{pump_send-IsSound}

-- A bare ACK leaves the connection alone.
pub ack-IsSound : (h : Host) → IsSound h → IsSound (send_ack h)
unfolding send_segment
ack-IsSound h inv = record { sound = inv.sound }

-- A change of state, or of the window, leaves the rest sound.
pub moved-Sound :
    {state : State} {received to_send una nxt len count mss mss' : ℕ} {pending : Bool}
    (state' : State)
    → Sound state received to_send una nxt pending len count mss
    → (is_closed state' ≡ false → is_closed state ≡ false)
    → is_time_wait state' ≡ false
    → 64 ≤ mss'
    → Sound state' received to_send una nxt pending len count mss'
moved-Sound state' inv live never wide = record {
  fits_recv = inv.fits_recv;
  fits_send = inv.fits_send;
  front = inv.front;
  short = inv.short;
  idle = inv.idle;
  number = inv.number;
  in_flight = λ e. inv.in_flight (live e);
  tries = inv.tries;
  wide = wide;
  never_waits = never;
}

pub drained-Sound :
    {state : State} {received received' to_send una nxt len count mss : ℕ} {pending : Bool}
    → Sound state received to_send una nxt pending len count mss
    → received' ≤ 32768
    → Sound state received' to_send una nxt pending len count mss
drained-Sound inv fits = record {
  fits_recv = fits;
  fits_send = inv.fits_send;
  front = inv.front;
  short = inv.short;
  idle = inv.idle;
  number = inv.number;
  in_flight = inv.in_flight;
  tries = inv.tries;
  wide = inv.wide;
  never_waits = inv.never_waits;
}

pub on_reset-IsSound : (h : Host) (s : Segment) → IsSound h → IsSound (on_reset h s)
unfolding on_reset
on_reset-IsSound h s inv =
    let c = h.conn in
    let window = if recv_window c == 0 then 1 else recv_window c in
    let over : IsSound (record h { conn = give_up c }) = record {
      sound = give_up-IsConn c inv.sound;
    } in
    if_cases IsSound (is_syn_sent c.state)
      (λ a.
        if_cases IsSound (not (has s.flags ack_flag) || not (s.ack == c.snd_nxt)) (λ b. inv)
          (λ b. over))
      (λ a.
        if_cases IsSound (not (s.seq == c.rcv_nxt))
          (λ b.
            if_cases IsSound (ltb (sub32 s.seq c.rcv_nxt) window) (λ d. ack-IsSound h inv)
              (λ d. inv))
          (λ b. over))

-- The queue without the segment that was in flight.
acked-Sound :
    {state : State} {received to_send una nxt len count mss : ℕ} {pending : Bool}
    → Sound state received to_send una nxt pending len count mss
    → Sound state received (to_send - len) nxt nxt false 0 0 mss
acked-Sound inv = record {
  fits_recv = inv.fits_recv;
  fits_send = omega (arith, inv.fits_send);
  front = omega arith;
  short = omega arith;
  idle = λ e. refl;
  number = (inv.number.1, inv.number.1);
  in_flight = λ e. omega (arith, inv.number.1);
  tries = omega arith;
  wide = inv.wide;
  never_waits = inv.never_waits;
}

-- What a test of the segment makes of a connection, one way or the other.
pub if_conn :
    (b : Bool) (x y : Conn)
    → (b ≡ true → IsConn x)
    → (b ≡ false → IsConn y)
    → IsConn (if b then x else y)
if_conn true x y f g = f refl
if_conn false x y f g = g refl

pub acknowledged-IsConn : (c : Conn) (s : Segment) → IsConn c → IsConn (acknowledged c s)
unfolding acknowledged clear_retransmit
acknowledged-IsConn c s inv =
    if_conn (has s.flags ack_flag && s.ack == c.snd_nxt && c.retx_pending)
      (record (clear_retransmit c) { snd_una = s.ack; to_send = drop c.retx_len c.to_send }) c
      (λ e.
        subst (λ q. Sound c.state (length c.received) q s.ack c.snd_nxt false 0 0 c.peer_mss)
          (sym (length-drop c.retx_len c.to_send))
          (subst
            (λ a.
              Sound c.state (length c.received) (length c.to_send - c.retx_len) a c.snd_nxt false 0
                0 c.peer_mss)
            {x = c.snd_nxt} {y = s.ack} (ground (arith, e)) (acked-Sound inv)))
      (λ e. inv)

pub accept-IsConn : (c : Conn) (fresh : List ℕ) → IsConn c → IsConn (accept c fresh)
unfolding accept
accept-IsConn c fresh inv =
    if_conn (leb (length fresh) (recv_size - length c.received))
      (record c { received = c.received ++ fresh; rcv_nxt = add32 c.rcv_nxt (length fresh) }) c
      (λ e. drained-Sound inv (ground (arith, e, inv.fits_recv, length-append c.received fresh)))
      (λ e. inv)

update_peer_window-IsConn :
    (c : Conn) (window seq ack : ℕ) → IsConn c → IsConn (update_peer_window c window seq ack)
unfolding update_peer_window
update_peer_window-IsConn c window seq ack inv =
    if_conn (ltb (sub32 c.snd_nxt c.snd_una) (sub32 ack c.snd_una)) c _ (λ e. inv)
      (λ e.
        if_conn
          (not c.wl_valid
            || (ltb 0 (sub32 seq c.wl1) && ltb (sub32 seq c.wl1) (2 ^ 31))
            || (seq == c.wl1 && ltb (sub32 ack c.wl2) (2 ^ 31)))
          (record c { peer_wnd = window; wl1 = seq; wl2 = ack; wl_valid = true }) c (λ f. inv)
          (λ f. inv))

pub in_syn_sent-IsSound :
    (h : Host) (s : Segment)
    → is_closed h.conn.state ≡ false
    → 64 ≤ s.told_mss h.conn.peer_mss
    → IsSound h
    → IsSound (in_syn_sent h s)
unfolding in_syn_sent
in_syn_sent-IsSound h s live wide inv =
    if_cases IsSound (has s.flags syn_flag && has s.flags ack_flag && s.ack == h.conn.snd_nxt)
      (λ e.
        ack-IsSound _ (record { sound = moved-Sound established inv.sound (λ q. live) refl wide }))
      (λ e. inv)

pub in_established-IsSound : (h : Host) (s : Segment) → IsSound h → IsSound (in_established h s)
unfolding in_established window_of bytes_of fin_of take_fin
in_established-IsSound h s inv =
    pump_send-IsSound _ (fin (bytes_of (window_of h s) s) (bytes (window_of h s) (window inv)))
  where
    window : IsSound h → IsSound (window_of h s)
    window inv =
        if_cases IsSound (has s.flags ack_flag)
          (λ e. record { sound = update_peer_window-IsConn h.conn s.window s.seq s.ack inv.sound })
          (λ e. inv)

    bytes : (k : Host) → IsSound k → IsSound (bytes_of k s)
    bytes k inv =
        let already = sub32 k.conn.rcv_nxt s.seq in
        if_cases IsSound (ltb 0 (length s.bytes))
          (λ e. ack-IsSound _ (record {
            sound =
                if_conn (ltb already (2 ^ 31) && ltb already (length s.bytes))
                  (accept k.conn (drop already s.bytes)) k.conn
                  (λ f. accept-IsConn k.conn (drop already s.bytes) inv.sound) (λ f. inv.sound);
          }))
          (λ e. inv)

    fin : (k : Host) → IsSound k → IsSound (fin_of k s)
    fin k inv =
        if_cases IsSound (fin_here k.conn s) (λ e. ack-IsSound _ (record { sound = inv.sound }))
          (λ e.
            if_cases IsSound
              (has s.flags fin_flag && add32 (add32 s.seq (length s.bytes)) 1 == k.conn.rcv_nxt)
              (λ f. ack-IsSound k inv) (λ f. inv))
