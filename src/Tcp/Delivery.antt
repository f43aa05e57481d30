-- ===== src/Tcp/Delivery.antt =====
-- kernel/tcp.h: the receiver and the peer's stream, segment by segment.

use mini_win.Base.{◌*◌, ◌/◌, Bool, if◌then◌else◌, not, ◌||◌, ◌==◌, ◌&&◌, ltb, if_cases, ℕ, ◌^◌}
use mini_win.Base.{◌<◌, ◌≡◌, refl, sym, ap, true, false, arith, subst, length}
use mini_win.Net.{at, get16}
use mini_win.Ip.{Packet}
use mini_win.Tcp.{State, closed, syn_sent, established, fin_wait_1, fin_wait_2, time_wait, Conn}
use mini_win.Tcp.{Host, sub32, is_closed, is_syn_sent, has, recv_window, send_segment, send_ack}
use mini_win.Tcp.{clear_retransmit, give_up, rst_flag, ack_flag}
use mini_win.Tcp.Receive.{Segment, checksum_ok, read_segment, on_reset, acknowledged, in_syn_sent}
use mini_win.Tcp.Receive.{take_fin, fin_here, in_established, tail_bytes, fin_acknowledged}
use mini_win.Tcp.Receive.{is_fin_wait_2, tail_fin, in_fin_wait_1, in_fin_wait_2, by_state}
use mini_win.Tcp.Receive.{on_segment, handle_packet}
use mini_win.Tcp.Quiet.{Untouched, Leaves, stays}
use mini_win.Tcp.Stream.{unmoved, Untouched-Added, IsFrom}
use mini_win.Tcp.Parts.{Went, Took, plain, with_fin, around, tail_bytes-Went, in_established-Took}

module _ (f : ℕ → ℕ) where
  pub quiet :
      {c : Conn} (h : Host)
      → c.rcv_nxt < 2 ^ 32
      → is_syn_sent c.state ≡ false
      → Leaves c h
      → Took f c h
  quiet {c} h lt past l = plain f (record { added = Untouched-Added f c h.conn lt past l.same })

  in_fin_wait_2-Took :
      (h : Host) (s : Segment)
      → h.conn.rcv_nxt < 2 ^ 32
      → is_syn_sent h.conn.state ≡ false
      → IsFrom f s
      → Took f h.conn (in_fin_wait_2 h s)
  unfolding in_fin_wait_2 send_segment take_fin
  in_fin_wait_2-Took h s lt past from =
      let w = tail_bytes-Went f h s lt past from in
      if_cases (Took f h.conn) (fin_here (tail_bytes h s).conn s)
        (λ e. with_fin f s w e refl refl refl refl) (λ e. plain f w)

  in_fin_wait_1-Took :
      (h : Host) (s : Segment)
      → h.conn.rcv_nxt < 2 ^ 32
      → is_syn_sent h.conn.state ≡ false
      → IsFrom f s
      → Took f h.conn (in_fin_wait_1 h s)
  unfolding in_fin_wait_1 tail_fin send_segment take_fin fin_acknowledged
  in_fin_wait_1-Took h s lt past from =
      let d = fin_acknowledged h.conn s in
      let u = passed in
      let next : d.rcv_nxt < 2 ^ 32 = subst (λ m. m < 2 ^ 32) (sym u.rcv_nxt) lt in
      let t = tail_bytes (record h { conn = d }) s in
      around f {h = tail_fin t s} u
        (last t (tail_bytes-Went f (record h { conn = d }) s next (u.past_syn past) from))
        (stays (tail_fin t s))
    where
      passed : Untouched h.conn (fin_acknowledged h.conn s)
      passed =
          if_cases (Untouched h.conn) (has s.flags ack_flag && s.ack == h.conn.snd_nxt)
            (λ e. record {
              received = refl;
              rcv_nxt = refl;
              peer_fin_seen = refl;
              past_syn = λ q. either h.conn.peer_fin_seen;
            })
            (λ e. unmoved f h.conn)
        where
          either : (b : Bool) → is_syn_sent (if b then closed else fin_wait_2) ≡ false
          either true = refl
          either false = refl

      last : {c : Conn} (t : Host) → Went f c t → Took f c (tail_fin t s)
      last {c} t w =
          if_cases (Took f c) (fin_here t.conn s)
            (λ e.
              if_cases (Took f c) (is_fin_wait_2 t.conn.state)
                (λ g. with_fin f s w e refl refl refl refl)
                (λ g. with_fin f s w e refl refl refl w.added.past_syn))
            (λ e. plain f w)

  on_reset-Took :
      (h : Host) (s : Segment)
      → h.conn.rcv_nxt < 2 ^ 32
      → is_syn_sent h.conn.state ≡ false
      → Took f h.conn (on_reset h s)
  unfolding on_reset send_segment clear_retransmit
  on_reset-Took h s lt past =
      let c = h.conn in
      let window = if recv_window c == 0 then 1 else recv_window c in
      let over : Took f c (record h { conn = give_up c }) =
        quiet (record h { conn = give_up c }) lt past
          (record {
            same = record {
              received = refl;
              rcv_nxt = refl;
              peer_fin_seen = refl;
              past_syn = λ q. refl;
            };
          }) in
      let same : Took f c h = quiet h lt past (stays h) in
      if_cases (Took f c) (is_syn_sent c.state)
        (λ a.
          if_cases (Took f c) (not (has s.flags ack_flag) || not (s.ack == c.snd_nxt)) (λ b. same)
            (λ b. over))
        (λ a.
          if_cases (Took f c) (not (s.seq == c.rcv_nxt))
            (λ b.
              if_cases (Took f c) (ltb (sub32 s.seq c.rcv_nxt) window)
                (λ d. quiet (send_ack h) lt past (record { same = unmoved f c })) (λ d. same))
            (λ b. over))

  acknowledged-Untouched : (c : Conn) (s : Segment) → Untouched c (acknowledged c s)
  unfolding acknowledged clear_retransmit
  acknowledged-Untouched c s =
      if_cases (Untouched c) (has s.flags ack_flag && s.ack == c.snd_nxt && c.retx_pending)
        (λ e. record { received = refl; rcv_nxt = refl; peer_fin_seen = refl; past_syn = λ q. q })
        (λ e. unmoved f c)

  by_state-Took :
      (h : Host) (s : Segment)
      → h.conn.rcv_nxt < 2 ^ 32
      → is_syn_sent h.conn.state ≡ false
      → IsFrom f s
      → Took f h.conn (by_state h s)
  unfolding by_state
  by_state-Took h s lt past from = go h.conn.state refl
    where
      go :
          (state : State)
          → h.conn.state ≡ state
          → Took f h.conn (elim state [
            | closed ↦ h
            | syn_sent ↦ in_syn_sent h s
            | established ↦ in_established h s
            | fin_wait_1 ↦ in_fin_wait_1 h s
            | fin_wait_2 ↦ in_fin_wait_2 h s
            | time_wait ↦ h
          ])
      go closed e = quiet h lt past (stays h)
      go syn_sent e = absurd (ground (arith, ap is_syn_sent e, past))
      go established e = in_established-Took f h s lt past from
      go fin_wait_1 e = in_fin_wait_1-Took h s lt past from
      go fin_wait_2 e = in_fin_wait_2-Took h s lt past from
      go time_wait e = quiet h lt past (stays h)

  -- A packet that carries a segment of the stream.
  unfoldable pub Carries : Packet → Type 0
  Carries ip = IsFrom f (read_segment ip.payload (at ip.payload 12 / 16 * 4))

  pub handle_packet-Took :
      (h : Host) (ip : Packet)
      → h.conn.rcv_nxt < 2 ^ 32
      → is_syn_sent h.conn.state ≡ false
      → Carries ip
      → Took f h.conn (handle_packet h ip)
  unfolding handle_packet on_segment Carries
  handle_packet-Took h ip lt past from =
      let c = h.conn in
      let seg = ip.payload in
      let hdr_len = at seg 12 / 16 * 4 in
      let s = read_segment seg hdr_len in
      let same : Took f c h = quiet h lt past (stays h) in
      let P = Took f c in
      if_cases P (ltb (length seg) 20) (λ a. same)
        (λ a.
          if_cases P (is_closed c.state) (λ b. same)
            (λ b.
              if_cases P
                (not (ip.src_ip == c.remote_ip)
                  || not (get16 seg 0 == c.remote_port)
                  || not (get16 seg 2 == c.local_port))
                (λ d. same)
                (λ d.
                  if_cases P (not (checksum_ok ip)) (λ e. same)
                    (λ e.
                      if_cases P (ltb hdr_len 20 || ltb (length seg) hdr_len) (λ g. same)
                        (λ g.
                          if_cases P (has s.flags rst_flag) (λ q. on_reset-Took h s lt past)
                            (λ q.
                              let u = acknowledged-Untouched c s in
                              let k = record h { conn = acknowledged c s } in
                              around f {h = by_state k s} u
                                (by_state-Took k s (subst (λ m. m < 2 ^ 32) (sym u.rcv_nxt) lt)
                                  (u.past_syn past) from)
                                (stays (by_state k s))))))))
