-- ===== src/Tcp/Receiving.antt =====
-- kernel/tcp.h: the receiver past TCP_ESTABLISHED and as a whole, tcp_poll_recv, and the invariant.
use mini_win.Base.{zero, suc, ◌+◌, ◌*◌, ◌/◌, min, ap, ◌-◌, refl, true, ◌&&◌, arith, leb, length}
use mini_win.Base.{drop, length-drop, ℕ, ◌≤◌, ◌≡◌, Bool, false, not, ◌||◌, List, ltb, ◌==◌}
use mini_win.Base.{if◌then◌else◌, if_cases}
use mini_win.Ip.{Packet}
use mini_win.Net.{at, get16}
use mini_win.Tcp.{State, closed, syn_sent, established, fin_wait_1, fin_wait_2, time_wait, Host}
use mini_win.Tcp.{is_closed, is_established, has, recv_size, send_segment, rst_flag, ack_flag}
use mini_win.Tcp.Receive.{Segment, poll_recv, parse_options, checksum_ok, read_segment}
use mini_win.Tcp.Receive.{acknowledged, take_fin, fin_here, in_syn_sent, in_established}
use mini_win.Tcp.Receive.{tail_bytes, fin_acknowledged, is_fin_wait_2, tail_fin, in_fin_wait_1}
use mini_win.Tcp.Receive.{in_fin_wait_2, by_state, on_segment, handle_packet}
use mini_win.Tcp.Invariant.{Sound, IsConn, IsSound}
use mini_win.Tcp.Accepting.{accept-IsConn, ack-IsSound, acknowledged-IsConn, drained-Sound}
use mini_win.Tcp.Accepting.{if_conn, in_established-IsSound, in_syn_sent-IsSound, moved-Sound}
use mini_win.Tcp.Accepting.{on_reset-IsSound}

tail_bytes-IsSound : (h : Host) (s : Segment) → IsSound h → IsSound (tail_bytes h s)
unfolding tail_bytes
tail_bytes-IsSound h s inv =
    if_cases IsSound (ltb 0 (length s.bytes) && s.seq == h.conn.rcv_nxt)
      (λ e. ack-IsSound _ (record { sound = accept-IsConn h.conn s.bytes inv.sound })) (λ e. inv)

-- A connection that closes is sound.
closed-Sound :
    {state : State} {received to_send una nxt len count mss : ℕ} {pending : Bool}
    → Sound state received to_send una nxt pending len count mss
    → Sound closed received to_send una nxt pending len count mss
closed-Sound inv = moved-Sound closed inv (λ e. cc) refl inv.wide

in_fin_wait_2-IsSound : (h : Host) (s : Segment) → IsSound h → IsSound (in_fin_wait_2 h s)
unfolding in_fin_wait_2 take_fin send_segment
in_fin_wait_2-IsSound h s inv =
    let t = tail_bytes-IsSound h s inv in
    if_cases IsSound (fin_here (tail_bytes h s).conn s)
      (λ e. record { sound = closed-Sound t.sound }) (λ e. t)

in_fin_wait_1-IsSound :
    (h : Host) (s : Segment)
    → is_closed h.conn.state ≡ false
    → IsSound h
    → IsSound (in_fin_wait_1 h s)
unfolding in_fin_wait_1 tail_fin take_fin send_segment fin_acknowledged
in_fin_wait_1-IsSound h s live inv =
    fin (tail_bytes (record h { conn = fin_acknowledged h.conn s }) s)
      (tail_bytes-IsSound _ s (record { sound = passed }))
  where
    passed : IsConn (fin_acknowledged h.conn s)
    passed =
        if_conn (has s.flags ack_flag && s.ack == h.conn.snd_nxt)
          (record h.conn { state = if h.conn.peer_fin_seen then closed else fin_wait_2 }) h.conn
          (λ e. by_fin h.conn.peer_fin_seen) (λ e. inv.sound)
      where
        by_fin :
            (seen : Bool) → IsConn (record h.conn { state = if seen then closed else fin_wait_2 })
        by_fin true = closed-Sound inv.sound
        by_fin false = moved-Sound fin_wait_2 inv.sound (λ e. live) refl inv.sound.wide

    fin : (k : Host) → IsSound k → IsSound (tail_fin k s)
    fin k inv =
        if_cases IsSound (fin_here k.conn s)
          (λ e.
            if_cases IsSound (is_fin_wait_2 k.conn.state)
              (λ f. record { sound = closed-Sound inv.sound }) (λ f. record { sound = inv.sound }))
          (λ e. inv)

-- What the options tell is at least 64.
parse_options-wide :
    (rounds : ℕ) (seg : List ℕ) (hdr_len i mss : ℕ)
    → 64 ≤ mss
    → 64 ≤ parse_options rounds seg hdr_len i mss
unfolding parse_options
parse_options-wide zero seg hdr_len i mss w = w
parse_options-wide (suc rounds) seg hdr_len i mss w =
    let P : ℕ → Type 0 = λ m. 64 ≤ m in
    let size = at seg (i + 1) in
    if_cases P (leb hdr_len i || at seg i == 0) (λ a. w)
      (λ a.
        if_cases P (at seg i == 1) (λ b. parse_options-wide rounds seg hdr_len (i + 1) mss w)
          (λ b.
            if_cases P (leb hdr_len (i + 1)) (λ d. w)
              (λ d.
                if_cases P (ltb size 2 || ltb hdr_len (i + size)) (λ e. w)
                  (λ e. parse_options-wide rounds seg hdr_len (i + size) _ (
                    if_cases P (at seg i == 2 && size == 4 && leb 64 (get16 seg (i + 2)))
                      (λ f. ground (arith, f)) (λ f. w))))))

by_state-IsSound :
    (h : Host) (s : Segment)
    → ((m : ℕ) → 64 ≤ m → 64 ≤ s.told_mss m)
    → IsSound h
    → IsSound (by_state h s)
unfolding by_state
by_state-IsSound h s wide inv = go h.conn.state refl
  where
    go :
        (state : State)
        → h.conn.state ≡ state
        → IsSound (elim state [
          | closed ↦ h
          | syn_sent ↦ in_syn_sent h s
          | established ↦ in_established h s
          | fin_wait_1 ↦ in_fin_wait_1 h s
          | fin_wait_2 ↦ in_fin_wait_2 h s
          | time_wait ↦ h
        ])
    go closed e = inv
    go syn_sent e =
        in_syn_sent-IsSound h s (ap is_closed e) (wide h.conn.peer_mss inv.sound.wide) inv
    go established e = in_established-IsSound h s inv
    go fin_wait_1 e = in_fin_wait_1-IsSound h s (ap is_closed e) inv
    go fin_wait_2 e = in_fin_wait_2-IsSound h s inv
    go time_wait e = inv

pub handle_packet-IsSound : (h : Host) (ip : Packet) → IsSound h → IsSound (handle_packet h ip)
unfolding handle_packet on_segment read_segment
handle_packet-IsSound h ip inv =
    let seg = ip.payload in
    let hdr_len = at seg 12 / 16 * 4 in
    let s = read_segment seg hdr_len in
    if_cases IsSound (ltb (length seg) 20) (λ a. inv)
      (λ a.
        if_cases IsSound (is_closed h.conn.state) (λ b. inv)
          (λ b.
            if_cases IsSound
              (not (ip.src_ip == h.conn.remote_ip)
                || not (get16 seg 0 == h.conn.remote_port)
                || not (get16 seg 2 == h.conn.local_port))
              (λ d. inv)
              (λ d.
                if_cases IsSound (not (checksum_ok ip)) (λ e. inv)
                  (λ e.
                    if_cases IsSound (ltb hdr_len 20 || ltb (length seg) hdr_len) (λ f. inv)
                      (λ f.
                        if_cases IsSound (has s.flags rst_flag) (λ g. on_reset-IsSound h s inv)
                          (λ g.
                            by_state-IsSound (record h { conn = acknowledged h.conn s }) s
                              (λ m. parse_options-wide hdr_len seg hdr_len 20 m)
                              (record { sound = acknowledged-IsConn h.conn s inv.sound })))))))

pub poll_recv-IsSound : (h : Host) (maxlen : ℕ) → IsSound h → IsSound (poll_recv h maxlen).1
unfolding poll_recv
poll_recv-IsSound h maxlen inv =
    let c = h.conn in
    let n = min (length c.received) maxlen in
    let rest : IsSound (record h { conn = record c { received = drop n c.received } }) = record {
      sound =
          drained-Sound inv.sound (omega (arith, length-drop n c.received, inv.sound.fits_recv));
    } in
    if_cases IsSound (ltb 0 n && ltb (recv_size - length c.received) 1400 && is_established c.state)
      (λ e. ack-IsSound _ rest) (λ e. rest)
