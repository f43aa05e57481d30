-- ===== src/Tcp/Invariant.antt =====
-- kernel/tcp.h: what holds of the connection between two calls.
use mini_win.Base.{◌+◌, subst, ℕ, ◌^◌, ◌≤◌, ◌<◌, ◌≡◌, refl, Bool, true, false, arith, ◌==◌}
use mini_win.Base.{if◌then◌else◌, length}
use mini_win.Ip.{Verdict, failed, sent, queued}
use mini_win.Tcp.{State, closed, syn_sent, established, fin_wait_1, fin_wait_2, time_wait, Conn}
use mini_win.Tcp.{Host, add32, is_closed, is_established, clear_retransmit, give_up}

-- The sequence numbers that the segment in flight takes: its bytes, or one for a SYN or a FIN.
abbrev pub span : Bool → ℕ → ℕ
span pending len = if pending then (if len == 0 then 1 else len) else 0

abbrev pub is_time_wait : State → Bool
is_time_wait time_wait = true
is_time_wait _ = false

-- The buffers are within their arrays; the segment in flight is a front part of the queue, of at
-- most 1200 bytes, and on a live connection it is all that lies between snd_una and snd_nxt; it has
-- been sent again at most 5 times; the peer's MSS is at least 64.
pub record Sound (state : State) (received to_send una nxt : ℕ) (pending : Bool) (len count mss : ℕ)
    : Type 0 where
  pub fits_recv : received ≤ 32768
  pub fits_send : to_send ≤ 20480
  pub front : len ≤ to_send
  pub short : len ≤ 1200
  pub idle : pending ≡ false → len ≡ 0
  pub number : (una < 2 ^ 32) × (nxt < 2 ^ 32)
  pub in_flight : is_closed state ≡ false → nxt ≡ add32 una (span pending len)
  pub tries : count ≤ 5
  pub wide : 64 ≤ mss
  pub never_waits : is_time_wait state ≡ false

abbrev pub IsConn : Conn → Type 0
IsConn c =
    Sound c.state (length c.received) (length c.to_send) c.snd_una c.snd_nxt c.retx_pending
      c.retx_len c.retx_count c.peer_mss

pub record IsSound (h : Host) : Type 0 where
  pub sound : IsConn h.conn

pub verdict_cases {ℓ} :
    {A : Type 0} (P : A → Type ℓ) (v : Verdict) {x y : A}
    → P x
    → P y
    → P (elim v [ failed ↦ x | sent ↦ y | queued ↦ y ])
verdict_cases P failed a b = a
verdict_cases P sent a b = b
verdict_cases P queued a b = b

pub give_up-IsConn : (c : Conn) → IsConn c → IsConn (give_up c)
unfolding clear_retransmit
give_up-IsConn c inv = record {
  fits_recv = inv.fits_recv;
  fits_send = inv.fits_send;
  front = omega arith;
  short = omega arith;
  idle = λ e. refl;
  number = inv.number;
  in_flight = λ e. absurd (ground (arith, e));
  tries = omega arith;
  wide = inv.wide;
  never_waits = refl;
}

-- A segment put in flight where there was none.
pub armed-Sound :
    {state state' : State} {received to_send una nxt len count mss : ℕ} (n : ℕ)
    → Sound state received to_send una nxt false len count mss
    → is_closed state ≡ false
    → is_time_wait state' ≡ false
    → n ≤ to_send
    → n ≤ 1200
    → Sound state' received to_send una (add32 nxt (span true n)) true n 0 mss
armed-Sound n inv live never front short = record {
  fits_recv = inv.fits_recv;
  fits_send = inv.fits_send;
  front = front;
  short = short;
  idle = λ e. cc;
  number = (inv.number.0, omega arith);
  in_flight = λ e. ground (arith, inv.in_flight live, inv.number.0);
  tries = omega arith;
  wide = inv.wide;
  never_waits = never;
}

pub when_free :
    (c : Conn)
    → IsConn c
    → c.retx_pending ≡ false
    → Sound c.state
        (length c.received)
        (length c.to_send)
        c.snd_una
        c.snd_nxt
        false
        c.retx_len
        c.retx_count
        c.peer_mss
when_free c inv free =
    subst
      (λ p.
        Sound c.state (length c.received) (length c.to_send) c.snd_una c.snd_nxt p c.retx_len
          c.retx_count c.peer_mss)
      free inv

pub live_when_up : (s : State) → is_established s ≡ true → is_closed s ≡ false
live_when_up closed e = cc
live_when_up syn_sent e = refl
live_when_up established e = refl
live_when_up fin_wait_1 e = refl
live_when_up fin_wait_2 e = refl
live_when_up time_wait e = refl

pub longer :
    {state : State} {received to_send una nxt len count mss : ℕ} {pending : Bool} (n : ℕ)
    → Sound state received to_send una nxt pending len count mss
    → to_send + n ≤ 20480
    → Sound state received (to_send + n) una nxt pending len count mss
longer n inv fits = record {
  fits_recv = inv.fits_recv;
  fits_send = fits;
  front = omega (arith, inv.front);
  short = inv.short;
  idle = inv.idle;
  number = inv.number;
  in_flight = inv.in_flight;
  tries = inv.tries;
  wide = inv.wide;
  never_waits = inv.never_waits;
}

-- One more attempt.
pub one_more :
    {state : State} {received to_send una nxt len count mss : ℕ} {pending : Bool}
    → Sound state received to_send una nxt pending len count mss
    → count < 5
    → Sound state received to_send una nxt pending len (count + 1) mss
one_more inv few = record {
  fits_recv = inv.fits_recv;
  fits_send = inv.fits_send;
  front = inv.front;
  short = inv.short;
  idle = inv.idle;
  number = inv.number;
  in_flight = inv.in_flight;
  tries = omega (arith, few);
  wide = inv.wide;
  never_waits = inv.never_waits;
}
