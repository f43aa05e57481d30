-- ===== src/Ip/Waiting.antt =====
-- kernel/ip.h and kernel/arp.h together: what becomes of the packet that waits for an address.
use mini_win.Base.{◌≡◌, inl, inr, true, not, none, some, arith, subst, ◌==◌, ℕ, refl, ◌∙◌, ◌≢◌}
use mini_win.Base.{List}
use mini_win.Net.{Net, Config, Parked, get32, nic_send}
use mini_win.Arp.{handle_frame, mac_at, learn}
use mini_win.Arp.Frames.{IsAnswer, handle_frame-answer}
use mini_win.Arp.Unanswered.{Kept, handle_frame_cases}
use mini_win.Ip.{Verdict, failed, sent, queued, datagram, send_now, send, next_hop, flush_pending}
use mini_win.Ip.Send.{Promise, send-Promise}

-- What may happen while a packet for `dst_ip` waits: time goes on, frames arrive that are no
-- believed reply from its next hop, and datagrams are sent that do not have to wait themselves.
pub data Meanwhile (dst_ip : ℕ) (n : Net) : Net → Type 0 where
  begins : Meanwhile dst_ip n n
  ticked : (m : Net) → Meanwhile dst_ip n m → (t : ℕ) → Meanwhile dst_ip n (record m { ticks = t })
  hears :
      (m : Net)
      → Meanwhile dst_ip n m
      → (frame : List ℕ) → (IsAnswer m frame → get32 frame 28 ≢ next_hop m.cfg dst_ip)
      → Meanwhile dst_ip n (handle_frame flush_pending m frame).1
  sends :
      (m : Net)
      → Meanwhile dst_ip n m
      → (ip proto : ℕ) (payload : List ℕ) → (send m ip proto payload).0 ≢ queued
      → Meanwhile dst_ip n (send m ip proto payload).1

-- A datagram that does not wait leaves the one that does.
answer-Kept :
    (n : Net) (ip proto : ℕ) (payload : List ℕ) (r : Verdict × Net)
    → Promise n ip proto payload r
    → r.0 ≢ queued
    → Kept n r.1
unfolding Promise
answer-Kept n ip proto payload (sent, n') (mac, reached, taken, parked, cfg) ne = record {
  parked = parked;
  cfg = cfg;
}
answer-Kept n ip proto payload (failed, n') (parked, taken, cfg) ne = record {
  parked = parked;
  cfg = cfg;
}
answer-Kept n ip proto payload (queued, n') p ne = absurd (ne refl)

module _ (p : Parked) where
  -- The packet waits still.
  record Waits (cfg : Config) (m : Net) : Type 0 where
    parked : m.parked ≡ some p
    same : m.cfg ≡ cfg

  Kept-Waits : {cfg : Config} {m m' : Net} → Kept m m' → Waits cfg m → Waits cfg m'
  Kept-Waits k w = record { parked = k.parked ∙ w.parked; same = k.cfg ∙ w.same }

  -- A believed reply from elsewhere.
  flush-Waits :
      {cfg : Config} (ip : ℕ) (mac : List ℕ) (m : Net)
      → ip ≢ next_hop m.cfg p.dst_ip
      → Waits cfg m
      → Waits cfg (flush_pending ip mac m)
  unfolding flush_pending
  flush-Waits {cfg} ip mac m other w =
      let elsewhere : not (next_hop m.cfg p.dst_ip == ip) ≡ true = ground (arith, other) in
      rw (w.parked, elsewhere, flush_pending) w

  frame-Waits :
      {cfg : Config} (m : Net) (frame : List ℕ)
      → (IsAnswer m frame → get32 frame 28 ≢ next_hop m.cfg p.dst_ip)
      → Waits cfg m
      → Waits cfg (handle_frame flush_pending m frame).1
  frame-Waits {cfg} m frame other w = elim (handle_frame_cases flush_pending m frame) [
    | inr k ↦ Kept-Waits k w
    | inl a ↦ rw (handle_frame-answer flush_pending m frame a) (
        flush-Waits (get32 frame 28) (mac_at frame 22)
          (record m { cache = learn m.cache a.slot (get32 frame 28) (mac_at frame 22) }) (other a)
          (record { parked = w.parked; same = w.same }))
  ]

  Meanwhile-Waits : (n m : Net) → n.parked ≡ some p → Meanwhile p.dst_ip n m → Waits n.cfg m
  Meanwhile-Waits n _ e begins = record { parked = e; same = refl }
  Meanwhile-Waits n _ e (ticked m h t) =
      let w = Meanwhile-Waits n m e h in record { parked = w.parked; same = w.same }
  Meanwhile-Waits n _ e (hears m h frame other) =
      frame-Waits m frame other (Meanwhile-Waits n m e h)
  Meanwhile-Waits n _ e (sends m h ip proto payload ne) =
      Kept-Waits
        (answer-Kept m ip proto payload (send m ip proto payload) (send-Promise m ip proto payload)
          ne)
        (Meanwhile-Waits n m e h)

-- After ip_send has answered IP_SEND_QUEUED for a datagram, while time goes on, frames arrive that
-- arp_handle_frame does not believe as replies from its next hop, and ip_send is called for other
-- datagrams that do not have to wait: the first reply from the next hop that arp_handle_frame
-- believes has the datagram offered to the card, for the address in the reply, and nothing is left
-- waiting.
pub queued-answered :
    (n n' m : Net) (dst_ip proto : ℕ) (payload frame : List ℕ)
    → send n dst_ip proto payload ≡ (queued, n')
    → Meanwhile dst_ip n' m
    → IsAnswer m frame
    → get32 frame 28 ≡ next_hop m.cfg dst_ip
    → let after = (handle_frame flush_pending m frame).1 in
      (after.nic ≡ (nic_send m.nic (datagram m dst_ip proto payload (mac_at frame 22))).1)
      × (after.parked ≡ none)
unfolding flush_pending send_now Promise
queued-answered n n' m dst_ip proto payload frame e h a hop =
    let packet : Parked = record { dst_ip = dst_ip; proto = proto; payload = payload } in
    let waiting : n'.parked ≡ some packet =
      (subst (Promise n dst_ip proto payload) e (send-Promise n dst_ip proto payload)).0 in
    let still : m.parked ≡ some packet = (Meanwhile-Waits packet n' m waiting h).parked in
    let for_hop : (next_hop m.cfg dst_ip == get32 frame 28) ≡ true = ground (arith, hop) in
    rw (handle_frame-answer flush_pending m frame a, flush_pending, still, for_hop) (refl, refl)
