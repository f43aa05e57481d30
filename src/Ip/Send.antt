-- ===== src/Ip/Send.antt =====
-- kernel/ip.h: the answers of ip_send.
use mini_win.Base.{◌<◌, if_cases, true, option_cases, ℕ, ◌≤◌, ◌≡◌, refl, ◌⊎◌, inl, inr, not, ◌&&◌}
use mini_win.Base.{none, some, List, ◌∷◌, arith, ltb, leb, ◌==◌, if◌then◌else◌, Bool-cases}
use mini_win.Base.{length, replicate}
use mini_win.Net.{Net, broadcast, nic_send, Entry}
use mini_win.Arp.{arp_frame, lookup, is_pending, send_request}
use mini_win.Ip.{Verdict, failed, sent, queued, datagram, send_now, send_later, send, next_hop}
use mini_win.Ip.{flush_pending}

-- The link address to which a datagram goes at once.
pub Reaches : Net → ℕ → List ℕ → Type 0
Reaches n dst_ip mac =
    ((next_hop n.cfg dst_ip ≡ broadcast) × (mac ≡ replicate 6 255))
    ⊎ (lookup n.cache (next_hop n.cfg dst_ip) ≡ some mac)

-- What the card has taken when the datagram itself is not sent: nothing, or a request for the next
-- hop.
pub Asks : Net → ℕ → Net → Type 0
Asks n hop n' =
    (n'.nic.sent ≡ n.nic.sent)
    ⊎ (n'.nic.sent
        ≡ arp_frame (replicate 6 255) n.nic.mac 1 n.cfg.my_ip (replicate 6 0) hop ∷ n.nic.sent)

-- What the answers promise. SENT: the card took the datagram, for the right address, and no other
-- frame; the waiting packet is what it was. QUEUED: the datagram is the packet that waits, no more
-- than 512 bytes long, in place of any other; its next hop is not known, and the card took no frame
-- but a request for it. FAILED: the waiting packet is what it was, and the card took no frame but a
-- request for the next hop. The addresses of the machine never change.
unfoldable pub Promise : Net → ℕ → ℕ → List ℕ → Verdict × Net → Type 0
Promise n dst_ip proto payload (sent, n') =
    (mac : List ℕ) × Reaches n dst_ip mac
    × (n'.nic.sent ≡ datagram n dst_ip proto payload mac ∷ n.nic.sent)
    × (n'.parked ≡ n.parked)
    × (n'.cfg ≡ n.cfg)
Promise n dst_ip proto payload (queued, n') =
    (n'.parked ≡ some (record { dst_ip = dst_ip; proto = proto; payload = payload }))
    × (length payload ≤ 512)
    × (lookup n.cache (next_hop n.cfg dst_ip) ≡ none)
    × Asks n (next_hop n.cfg dst_ip) n'
    × (n'.cfg ≡ n.cfg)
Promise n dst_ip proto payload (failed, n') =
    (n'.parked ≡ n.parked) × Asks n (next_hop n.cfg dst_ip) n' × (n'.cfg ≡ n.cfg)

refused : (n : Net) (hop : ℕ) → (n.parked ≡ n.parked) × Asks n hop n × (n.cfg ≡ n.cfg)
unfolding Asks
refused n hop = (refl, inl refl, refl)

send_now-Promise :
    (n : Net) (dst_ip proto : ℕ) (payload mac : List ℕ)
    → Reaches n dst_ip mac
    → Promise n dst_ip proto payload (send_now n dst_ip proto payload mac)
unfolding Promise send_now nic_send Asks
send_now-Promise n dst_ip proto payload mac r = elim (Bool-cases (n.nic.takes n.nic.offered)) [
  | inl e ↦ rw e (mac, r, refl, refl, refl)
  | inr e ↦ rw e (refl, inl refl, refl)
]

-- What asking for the next hop leaves.
record Asked (n : Net) (hop : ℕ) (n' : Net) : Type 0 where
  parked : n'.parked ≡ n.parked
  cfg : n'.cfg ≡ n.cfg
  taken : Asks n hop n'

request-Asked :
    (n : Net) (hop : ℕ) (cache : List Entry)
    → Asked n hop (record n {
      cache = cache;
      nic =
          (nic_send n.nic
            (arp_frame (replicate 6 255) n.nic.mac 1 n.cfg.my_ip (replicate 6 0) hop)).1;
    })
unfolding nic_send Asks
request-Asked n hop cache = elim (Bool-cases (n.nic.takes n.nic.offered)) [
  | inl e ↦ rw e (record { parked = refl; cfg = refl; taken = inr refl })
  | inr e ↦ rw e (record { parked = refl; cfg = refl; taken = inl refl })
]

nothing-Asked : (n : Net) (hop : ℕ) → Asked n hop n
unfolding Asks
nothing-Asked n hop = record { parked = refl; cfg = refl; taken = inl refl }

send_request-Asked : (n : Net) (hop : ℕ) → Asked n hop (send_request n n.cfg.my_ip hop)
unfolding send_request
send_request-Asked n hop =
    if_cases (Asked n hop) (not n.nic.present) (λ e. nothing-Asked n hop)
      (λ e. request-Asked n hop _)

asking-Asked :
    (n : Net) (hop : ℕ)
    → Asked n hop (if is_pending n hop then n else send_request n n.cfg.my_ip hop)
asking-Asked n hop =
    if_cases (Asked n hop) (is_pending n hop) (λ e. nothing-Asked n hop)
      (λ e. send_request-Asked n hop)

send_later-Promise :
    (n : Net) (dst_ip proto : ℕ) (payload : List ℕ)
    → lookup n.cache (next_hop n.cfg dst_ip) ≡ none
    → Promise n dst_ip proto payload (send_later n dst_ip proto payload (next_hop n.cfg dst_ip))
unfolding Promise send_later Asks
send_later-Promise n dst_ip proto payload e =
    let asked = asking-Asked n (next_hop n.cfg dst_ip) in
    elim (Bool-cases (leb (length payload) 512)) [
      | inl f ↦ rw f (refl, ground arith, e, asked.taken, asked.cfg)
      | inr f ↦ rw f (asked.parked, asked.taken, asked.cfg)
    ]

-- IP_SEND_SENT: the card has taken the datagram, for the address of its next hop, and no other
-- frame. IP_SEND_QUEUED: the datagram, of at most 512 bytes, is the one that waits, its next hop is
-- not known, and the card has taken no frame but a request for the next hop. IP_SEND_FAILED: the
-- card has taken no frame but a request for the next hop. Unless the answer is IP_SEND_QUEUED the
-- waiting packet is what it was, and the configuration never changes.
pub send-Promise :
    (n : Net) (dst_ip proto : ℕ) (payload : List ℕ)
    → Promise n dst_ip proto payload (send n dst_ip proto payload)
unfolding send Promise Reaches
send-Promise n dst_ip proto payload =
    let holds = Promise n dst_ip proto payload in
    if_cases holds (not n.nic.present) (λ a. refused n (next_hop n.cfg dst_ip))
      (λ a.
        if_cases holds (not n.cfg.ready && not (dst_ip == broadcast))
          (λ b. refused n (next_hop n.cfg dst_ip))
          (λ b.
            if_cases holds (ltb 1480 (length payload)) (λ c. refused n (next_hop n.cfg dst_ip))
              (λ c.
                if_cases holds (next_hop n.cfg dst_ip == broadcast)
                  (λ d.
                    send_now-Promise n dst_ip proto payload (replicate 6 255)
                      (inl (ground (arith, d), refl)))
                  (λ d.
                    option_cases holds (lookup n.cache (next_hop n.cfg dst_ip))
                      (λ e. send_later-Promise n dst_ip proto payload e)
                      (λ mac e. send_now-Promise n dst_ip proto payload mac (inr e))))))

-- More than a frame holds is refused.
pub send-too_long :
    (n : Net) (dst_ip proto : ℕ) (payload : List ℕ)
    → 1480 < length payload
    → send n dst_ip proto payload ≡ (failed, n)
unfolding send
send-too_long n dst_ip proto payload long =
    let over : ltb 1480 (length payload) ≡ true = ground (arith, long) in
    let stays : Verdict × Net → Type 0 = λ r. r ≡ (failed, n) in
    if_cases stays (not n.nic.present) (λ a. refl)
      (λ a.
        if_cases stays (not n.cfg.ready && not (dst_ip == broadcast)) (λ b. refl)
          (λ b. rw over refl))

pub flush_pending-cache :
    (ip : ℕ) (mac : List ℕ) (n : Net) → (flush_pending ip mac n).cache ≡ n.cache
unfolding flush_pending send_now
flush_pending-cache ip mac n = ground arith
