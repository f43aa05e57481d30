-- ===== src/Tcp/Prefix.antt =====
-- kernel/tcp.h: what the reader gets over a whole run.
use mini_win.Base.{take-drop, ◌+◌, ◌-◌, min, sym, ap₂, ◌&&◌, arith, append_assoc, append-nil, ltb}
use mini_win.Base.{length, if_cases, ℕ, ◌^◌, ◌≤◌, ◌<◌, ◌≡◌, ap, ◌∙◌, ◌⊎◌, inl, inr, true, false}
use mini_win.Base.{List, [], ◌∷◌, ◌++◌, take, drop}
use mini_win.Tcp.{Host, add32, is_syn_sent, is_established, send_segment, recv_size}
use mini_win.Tcp.Receive.{poll_recv}
use mini_win.Tcp.Quiet.{Leaves, stays, send_data-Leaves, close-Leaves, poll_retransmit-Leaves}
use mini_win.Tcp.Stream.{bytes_from, bytes_from-add}
use mini_win.Tcp.Parts.{Took}
use mini_win.Tcp.Delivery.{Carries, quiet, handle_packet-Took}
use mini_win.Tcp.Runs.{Call, connects, sends, closes, polls, arrives, ticks, passes, step, run}

-- What the polls of a run copy out.
unfoldable pub read_out : Host → List Call → List ℕ
read_out h [] = []
read_out h (connects ip port ∷ cs) = read_out (step h (connects ip port)) cs
read_out h (sends bytes ∷ cs) = read_out (step h (sends bytes)) cs
read_out h (closes ∷ cs) = read_out (step h closes) cs
read_out h (polls maxlen ∷ cs) = (poll_recv h maxlen).0 ++ read_out (step h (polls maxlen)) cs
read_out h (arrives ip ∷ cs) = read_out (step h (arrives ip)) cs
read_out h (ticks ∷ cs) = read_out (step h ticks) cs
read_out h (passes net wall ∷ cs) = read_out (step h (passes net wall)) cs

module _ (f : ℕ → ℕ) where
  -- A run on one connection whose peer sends the stream.
  unfoldable pub FromPeer : List Call → Type 0
  FromPeer [] = 0 ≤ 0
  FromPeer (connects ip port ∷ cs) = 1 ≤ 0
  FromPeer (sends bytes ∷ cs) = FromPeer cs
  FromPeer (closes ∷ cs) = FromPeer cs
  FromPeer (polls maxlen ∷ cs) = FromPeer cs
  FromPeer (arrives ip ∷ cs) = Carries f ip × FromPeer cs
  FromPeer (ticks ∷ cs) = FromPeer cs
  FromPeer (passes net wall ∷ cs) = FromPeer cs

  -- From one host to a later one, with what was read in between: the stream goes on, unless its end
  -- has been seen.
  pub record Read (h h' : Host) (out : List ℕ) : Type 0 where
    pub count : ℕ
    pub bytes : out ++ h'.conn.received ≡ h.conn.received ++ bytes_from f h.conn.rcv_nxt count
    pub next : h'.conn.rcv_nxt ≡ add32 h.conn.rcv_nxt count

  -- One step: the stream goes on, or its end is seen.
  record Steps (h h' : Host) (out : List ℕ) : Type 0 where
    went : Read h h' out ⊎ (h'.conn.peer_fin_seen ≡ true)
    ended : h.conn.peer_fin_seen ≡ true → h'.conn.peer_fin_seen ≡ true
    number : h'.conn.rcv_nxt < 2 ^ 32
    past_syn : is_syn_sent h'.conn.state ≡ false

  took-Steps : (h h' : Host) → Took f h.conn h' → Steps h h' []
  took-Steps h h' t = record {
    went = elim t.grew.next [
      | inl (n, p) ↦ inl (record { count = t.grew.count; bytes = t.grew.bytes; next = n })
      | inr (n, p) ↦ inr p
    ];
    ended = λ e. elim t.grew.next [ inl (n, p) ↦ p ∙ e | inr (n, p) ↦ p ];
    number = t.grew.number;
    past_syn = t.grew.past_syn;
  }

  poll-Steps :
      (h : Host) (maxlen : ℕ)
      → h.conn.rcv_nxt < 2 ^ 32
      → is_syn_sent h.conn.state ≡ false
      → Steps h (poll_recv h maxlen).1 (poll_recv h maxlen).0
  unfolding poll_recv send_segment
  poll-Steps h maxlen lt past =
      let c = h.conn in
      let n = min (length c.received) maxlen in
      let rest = record h { conn = record c { received = drop n c.received } } in
      let went : Read h rest (take n c.received) = record {
        count = 0;
        bytes = take-drop n c.received ∙ sym (append-nil c.received);
        next = omega (arith, lt);
      } in
      if_cases (λ k. Steps h k (take n c.received))
        (ltb 0 n && ltb (recv_size - length c.received) 1400 && is_established c.state)
        (λ e. record {
          went = inl (record { count = went.count; bytes = went.bytes; next = went.next });
          ended = λ q. q;
          number = lt;
          past_syn = past;
        })
        (λ e. record { went = inl went; ended = λ q. q; number = lt; past_syn = past })

  both :
      {h k l : Host} (out out' : List ℕ)
      → h.conn.rcv_nxt < 2 ^ 32
      → Read h k out
      → Read k l out'
      → Read h l (out ++ out')
  both {h} {k} {l} out out' lt a b = record {
    count = a.count + b.count;
    bytes =
        append_assoc out out' l.conn.received
        ∙ ap (λ ys. out ++ ys) b.bytes
        ∙ sym (append_assoc out k.conn.received (bytes_from f k.conn.rcv_nxt b.count))
        ∙ ap₂ (λ ys m. ys ++ bytes_from f m b.count) a.bytes a.next
        ∙ append_assoc h.conn.received (bytes_from f h.conn.rcv_nxt a.count)
            (bytes_from f (add32 h.conn.rcv_nxt a.count) b.count)
        ∙ ap (λ ys. h.conn.received ++ ys)
            (sym (bytes_from-add f h.conn.rcv_nxt a.count b.count lt));
    next = b.next ∙ ap (λ m. add32 m b.count) a.next ∙ omega (arith, lt);
  }

  quiet-Steps :
      (h k : Host)
      → h.conn.rcv_nxt < 2 ^ 32
      → is_syn_sent h.conn.state ≡ false
      → Leaves h.conn k
      → Steps h k []
  quiet-Steps h k lt past l = took-Steps h k (quiet f k lt past l)

  -- A step and the run after it.
  on :
      {h k l : Host} (out out' : List ℕ)
      → h.conn.rcv_nxt < 2 ^ 32
      → Steps h k out
      → Steps k l out'
      → Steps h l (out ++ out')
  on out out' lt a b = record {
    went = elim a.went [
      | inr e ↦ inr (b.ended e)
      | inl r ↦ elim b.went [ inr e ↦ inr e | inl q ↦ inl (both out out' lt r q) ]
    ];
    ended = λ e. b.ended (a.ended e);
    number = b.number;
    past_syn = b.past_syn;
  }

  run-Steps :
      (h : Host) (cs : List Call)
      → h.conn.rcv_nxt < 2 ^ 32
      → is_syn_sent h.conn.state ≡ false
      → FromPeer cs
      → Steps h (run h cs) (read_out h cs)
  unfolding run step read_out FromPeer
  run-Steps h [] lt past from = quiet-Steps h h lt past (stays h)
  run-Steps h (connects ip port ∷ cs) lt past from = absurd (omega (arith, from))
  run-Steps h (sends bytes ∷ cs) lt past from =
      let k = step h (sends bytes) in
      let st : Steps h k [] = quiet-Steps h k lt past (send_data-Leaves h bytes) in
      on [] (read_out k cs) lt st (run-Steps k cs st.number st.past_syn from)
  run-Steps h (closes ∷ cs) lt past from =
      let k = step h closes in
      let st : Steps h k [] = quiet-Steps h k lt past (close-Leaves h) in
      on [] (read_out k cs) lt st (run-Steps k cs st.number st.past_syn from)
  run-Steps h (polls maxlen ∷ cs) lt past from =
      let k = step h (polls maxlen) in
      let st : Steps h k (poll_recv h maxlen).0 = poll-Steps h maxlen lt past in
      on (poll_recv h maxlen).0 (read_out k cs) lt st (run-Steps k cs st.number st.past_syn from)
  run-Steps h (arrives ip ∷ cs) lt past (here, from) =
      let k = step h (arrives ip) in
      let st : Steps h k [] = took-Steps h k (handle_packet-Took f h ip lt past here) in
      on [] (read_out k cs) lt st (run-Steps k cs st.number st.past_syn from)
  run-Steps h (ticks ∷ cs) lt past from =
      let k = step h ticks in
      let st : Steps h k [] = quiet-Steps h k lt past (poll_retransmit-Leaves h) in
      on [] (read_out k cs) lt st (run-Steps k cs st.number st.past_syn from)
  run-Steps h (passes net wall ∷ cs) lt past from =
      let k = step h (passes net wall) in
      let st : Steps h k [] = quiet-Steps h k lt past (record { same = (stays h).same }) in
      on [] (read_out k cs) lt st (run-Steps k cs st.number st.past_syn from)

  -- On a connection past its handshake, whatever mix of arriving segments, reads, sends, closes and
  -- timer polls follows, as long as every segment carries the bytes that the peer's stream has at
  -- its sequence number: the bytes read in between and those left in the buffer are those that were
  -- there before and then the stream's, in order, without a gap or a repetition, and the next
  -- number expected is the one after them; or the peer's end of stream has been seen.
  pub run-prefix :
      (h : Host) (cs : List Call)
      → h.conn.rcv_nxt < 2 ^ 32
      → is_syn_sent h.conn.state ≡ false
      → FromPeer cs
      → Read h (run h cs) (read_out h cs) ⊎ ((run h cs).conn.peer_fin_seen ≡ true)
  run-prefix h cs lt past from = (run-Steps h cs lt past from).went
