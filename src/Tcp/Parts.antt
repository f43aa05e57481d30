-- ===== src/Tcp/Parts.antt =====
-- kernel/tcp.h: the parts of the receiver and the peer's stream.

use mini_win.Base.{not, ◌||◌, inr, ◌==◌, ◌&&◌, ltb, if_cases, ap₂, ℕ, ◌+◌, ◌^◌, ◌<◌, ◌≡◌, refl}
use mini_win.Base.{sym, ap, ◌∙◌, inl, true, false, ◌++◌, arith, subst, length, drop}
use mini_win.Tcp.{Conn, Host, add32, sub32, is_syn_sent, has, send_segment, fin_flag, ack_flag}
use mini_win.Tcp.Send.{update_peer_window}
use mini_win.Tcp.Receive.{Segment, take_fin, fin_here, window_of, bytes_of, fin_of}
use mini_win.Tcp.Receive.{in_established, tail_bytes}
use mini_win.Tcp.Quiet.{Untouched, Leaves, stays, pump_send-Leaves}
use mini_win.Tcp.Stream.{bytes_from, at_same, Added, Grew, unmoved, Untouched-Added, IsFrom}
use mini_win.Tcp.Stream.{accept-Added, fresh-from}

module _ (f : ℕ → ℕ) where
  -- The receiver's state after a segment, once the window is booked.
  pub record Went (c : Conn) (h : Host) : Type 0 where
    pub added : Added f c h.conn

  pub bytes_of-Went :
      (h : Host) (s : Segment)
      → h.conn.rcv_nxt < 2 ^ 32
      → is_syn_sent h.conn.state ≡ false
      → IsFrom f s
      → Went h.conn (bytes_of h s)
  unfolding bytes_of send_segment
  bytes_of-Went h s lt past from =
      let c = h.conn in
      let already = sub32 c.rcv_nxt s.seq in
      let same : Added f c c = Untouched-Added f c c lt past (unmoved f c) in
      if_cases (Went c) (ltb 0 (length s.bytes))
        (λ e. record {
          added =
              if_cases (Added f c) (ltb already (2 ^ 31) && ltb already (length s.bytes))
                (λ g.
                  accept-Added f c (drop already s.bytes) lt past
                    (fresh-from f c s lt from (ground (arith, g))))
                (λ g. same);
        })
        (λ e. record { added = same })

  pub tail_bytes-Went :
      (h : Host) (s : Segment)
      → h.conn.rcv_nxt < 2 ^ 32
      → is_syn_sent h.conn.state ≡ false
      → IsFrom f s
      → Went h.conn (tail_bytes h s)
  unfolding tail_bytes send_segment IsFrom
  tail_bytes-Went h s lt past (small, from) =
      if_cases (Went h.conn) (ltb 0 (length s.bytes) && s.seq == h.conn.rcv_nxt)
        (λ e. record {
          added = accept-Added f h.conn s.bytes lt past (from ∙ at_same f refl (ground (arith, e)));
        })
        (λ e. record { added = Untouched-Added f h.conn h.conn lt past (unmoved f h.conn) })

  -- What a whole segment does.
  pub record Took (c : Conn) (h : Host) : Type 0 where
    pub grew : Grew f c h.conn

  pub plain : {c : Conn} {h : Host} → Went c h → Took c h
  plain w = record {
    grew = record {
      count = w.added.count;
      bytes = w.added.bytes;
      next = inl (w.added.next, w.added.ended);
      number = w.added.number;
      past_syn = w.added.past_syn;
    };
  }

  -- The FIN right after the bytes, whatever it makes of the state.
  pub with_fin :
      {c : Conn} {h k : Host} (s : Segment)
      → Went c h
      → fin_here h.conn s ≡ true
      → k.conn.received ≡ h.conn.received
      → k.conn.rcv_nxt ≡ add32 (add32 s.seq (length s.bytes)) 1
      → k.conn.peer_fin_seen ≡ true
      → is_syn_sent k.conn.state ≡ false
      → Took c k
  with_fin {c} {h} {k} s w here r n p past = record {
    grew = record {
      count = w.added.count;
      bytes = r ∙ w.added.bytes;
      next = inr (ground (arith, here, n, w.added.next), p);
      number = subst (λ m. m < 2 ^ 32) (sym n) (omega arith);
      past_syn = past;
    };
  }

  -- A segment after a change that leaves the receiver alone, and before another.
  pub around : {c d : Conn} {h k : Host} → Untouched c d → Took d h → Leaves h.conn k → Took c k
  around {c} {d} {h} {k} u t l = record {
    grew = record {
      count = t.grew.count;
      bytes =
          l.same.received
          ∙ t.grew.bytes
          ∙ ap₂ (λ ys n. ys ++ bytes_from f n t.grew.count) u.received u.rcv_nxt;
      next = elim t.grew.next [
        | inl (n, p) ↦ inl (
          l.same.rcv_nxt ∙ n ∙ ap (λ m. add32 m t.grew.count) u.rcv_nxt,
          l.same.peer_fin_seen ∙ p ∙ u.peer_fin_seen,
        )
        | inr (n, p) ↦ inr (
          l.same.rcv_nxt ∙ n ∙ ap (λ m. add32 m (t.grew.count + 1)) u.rcv_nxt,
          l.same.peer_fin_seen ∙ p,
        )
      ];
      number = subst (λ m. m < 2 ^ 32) (sym l.same.rcv_nxt) t.grew.number;
      past_syn = l.same.past_syn t.grew.past_syn;
    };
  }

  pub fin_of-Took : (c : Conn) (h : Host) (s : Segment) → Went c h → Took c (fin_of h s)
  unfolding fin_of send_segment take_fin
  fin_of-Took c h s w =
      if_cases (Took c) (fin_here h.conn s) (λ e. with_fin s w e refl refl refl w.added.past_syn)
        (λ e.
          if_cases (Took c)
            (has s.flags fin_flag && add32 (add32 s.seq (length s.bytes)) 1 == h.conn.rcv_nxt)
            (λ g. plain (record { added = w.added })) (λ g. plain w))

  window_of-Untouched : (h : Host) (s : Segment) → Leaves h.conn (window_of h s)
  unfolding window_of update_peer_window
  window_of-Untouched h s =
      let c = h.conn in
      if_cases (Leaves c) (has s.flags ack_flag)
        (λ e. record {
          same =
              if_cases (Untouched c) (ltb (sub32 c.snd_nxt c.snd_una) (sub32 s.ack c.snd_una))
                (λ g. unmoved f c)
                (λ g.
                  if_cases (Untouched c)
                    (not c.wl_valid
                      || (ltb 0 (sub32 s.seq c.wl1) && ltb (sub32 s.seq c.wl1) (2 ^ 31))
                      || (s.seq == c.wl1 && ltb (sub32 s.ack c.wl2) (2 ^ 31)))
                    (λ q. record {
                      received = refl;
                      rcv_nxt = refl;
                      peer_fin_seen = refl;
                      past_syn = λ p. p;
                    })
                    (λ q. unmoved f c));
        })
        (λ e. stays h)

  pub in_established-Took :
      (h : Host) (s : Segment)
      → h.conn.rcv_nxt < 2 ^ 32
      → is_syn_sent h.conn.state ≡ false
      → IsFrom f s
      → Took h.conn (in_established h s)
  unfolding in_established
  in_established-Took h s lt past from =
      let w = window_of h s in
      let u = window_of-Untouched h s in
      let next : w.conn.rcv_nxt < 2 ^ 32 = subst (λ m. m < 2 ^ 32) (sym u.same.rcv_nxt) lt in
      around {h = fin_of (bytes_of w s) s} u.same
        (fin_of-Took w.conn (bytes_of w s) s (bytes_of-Went w s next (u.same.past_syn past) from))
        (pump_send-Leaves (fin_of (bytes_of w s) s))
