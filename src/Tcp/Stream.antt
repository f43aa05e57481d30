-- ===== src/Tcp/Stream.antt =====
-- kernel/tcp.h: the peer's stream, by the sequence numbers of its bytes.

use mini_win.Base.{length-drop, leb, if_cases, ℕ, zero, suc, ◌+◌, ◌-◌, ◌^◌, ◌≤◌, ◌<◌, ◌≡◌, refl}
use mini_win.Base.{sym, ap, ◌∙◌, ◌⊎◌, true, false, List, [], ◌∷◌, ◌++◌, arith, subst, append-nil}
use mini_win.Base.{length, drop}
use mini_win.Tcp.{Conn, add32, sub32, is_syn_sent, recv_size}
use mini_win.Tcp.Receive.{Segment, accept}
use mini_win.Tcp.Quiet.{Untouched}

module _ (f : ℕ → ℕ) where
  -- The bytes of a stream from the sequence number `a` on.
  abbrev pub bytes_from : ℕ → ℕ → List ℕ
  bytes_from a zero = []
  bytes_from a (suc n) = f a ∷ bytes_from (add32 a 1) n

  bytes_from-length : (a n : ℕ) → length (bytes_from a n) ≡ n
  bytes_from-length a zero = refl
  bytes_from-length a (suc n) = ap suc (bytes_from-length (add32 a 1) n)

  pub at_same : {a b n m : ℕ} → n ≡ m → a ≡ b → bytes_from a n ≡ bytes_from b m
  at_same e g = cc

  pub bytes_from-add :
      (a k n : ℕ) → a < 2 ^ 32 → bytes_from a (k + n) ≡ bytes_from a k ++ bytes_from (add32 a k) n
  bytes_from-add a zero n lt = at_same (omega arith) (omega (arith, lt))
  bytes_from-add a (suc k) n lt =
      ap (λ m. bytes_from a m) {x = suc k + n} {y = suc (k + n)} (omega arith)
      ∙ ap (λ ys. f a ∷ ys)
          (bytes_from-add (add32 a 1) k n (omega arith)
            ∙ ap (λ b. bytes_from (add32 a 1) k ++ bytes_from b n) {x = add32 (add32 a 1) k}
                {y = add32 a (suc k)} (omega arith))

  pub drop-bytes_from :
      (k a n : ℕ) → a < 2 ^ 32 → k ≤ n → drop k (bytes_from a n) ≡ bytes_from (add32 a k) (n - k)
  drop-bytes_from zero a n lt le = at_same (omega arith) (omega (arith, lt))
  drop-bytes_from (suc k) a zero lt le = absurd (omega arith)
  drop-bytes_from (suc k) a (suc n) lt le =
      drop-bytes_from k (add32 a 1) n (omega arith) (omega arith)
      ∙ at_same (omega arith) (omega arith)

  -- From one connection to the next: some more bytes of the stream, and the number that says which
  -- is next.
  pub record Added (c c' : Conn) : Type 0 where
    pub count : ℕ
    pub bytes : c'.received ≡ c.received ++ bytes_from c.rcv_nxt count
    pub next : c'.rcv_nxt ≡ add32 c.rcv_nxt count
    pub ended : c'.peer_fin_seen ≡ c.peer_fin_seen
    pub number : c'.rcv_nxt < 2 ^ 32
    pub past_syn : is_syn_sent c'.state ≡ false

  -- The same, and perhaps the end of the stream, which takes a number of its own.
  pub record Grew (c c' : Conn) : Type 0 where
    pub count : ℕ
    pub bytes : c'.received ≡ c.received ++ bytes_from c.rcv_nxt count
    pub next :
        ((c'.rcv_nxt ≡ add32 c.rcv_nxt count) × (c'.peer_fin_seen ≡ c.peer_fin_seen))
        ⊎ ((c'.rcv_nxt ≡ add32 c.rcv_nxt (count + 1)) × (c'.peer_fin_seen ≡ true))
    pub number : c'.rcv_nxt < 2 ^ 32
    pub past_syn : is_syn_sent c'.state ≡ false

  pub unmoved : (c : Conn) → Untouched c c
  unmoved c = record { received = refl; rcv_nxt = refl; peer_fin_seen = refl; past_syn = λ e. e }

  pub Untouched-Added :
      (c c' : Conn) → c.rcv_nxt < 2 ^ 32 → is_syn_sent c.state ≡ false → Untouched c c' → Added c c'
  Untouched-Added c c' lt past u = record {
    count = 0;
    bytes = u.received ∙ sym (append-nil c.received);
    next = u.rcv_nxt ∙ omega (arith, lt);
    ended = u.peer_fin_seen;
    number = subst (λ n. n < 2 ^ 32) (sym u.rcv_nxt) lt;
    past_syn = u.past_syn past;
  }

  -- A segment of the stream: its bytes are those at its sequence number.
  unfoldable pub IsFrom : Segment → Type 0
  IsFrom s = (s.seq < 2 ^ 32) × (s.bytes ≡ bytes_from s.seq (length s.bytes))

  pub accept-Added :
      (c : Conn) (fresh : List ℕ)
      → c.rcv_nxt < 2 ^ 32
      → is_syn_sent c.state ≡ false
      → fresh ≡ bytes_from c.rcv_nxt (length fresh)
      → Added c (accept c fresh)
  unfolding accept
  accept-Added c fresh lt past from =
      if_cases (Added c) (leb (length fresh) (recv_size - length c.received))
        (λ e. record {
          count = length fresh;
          bytes = ap (λ ys. c.received ++ ys) from;
          next = refl;
          ended = refl;
          number = omega arith;
          past_syn = past;
        })
        (λ e. Untouched-Added c c lt past (unmoved c))

  -- The fresh part of a segment that overlaps what is there.
  pub fresh-from :
      (c : Conn) (s : Segment)
      → c.rcv_nxt < 2 ^ 32
      → IsFrom s
      → sub32 c.rcv_nxt s.seq < length s.bytes
      → let fresh = drop (sub32 c.rcv_nxt s.seq) s.bytes in
        fresh ≡ bytes_from c.rcv_nxt (length fresh)
  unfolding IsFrom
  fresh-from c s lt (small, from) before =
      let k = sub32 c.rcv_nxt s.seq in
      ap (λ ys. drop k ys) from
      ∙ drop-bytes_from k s.seq (length s.bytes) small (omega (arith, before))
      ∙ at_same (sym (length-drop k s.bytes)) (omega (arith, small, lt))
