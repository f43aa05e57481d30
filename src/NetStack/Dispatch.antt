-- ===== src/NetStack/Dispatch.antt =====
-- kernel/net_stack.h with kernel/ip.h: a frame on its way from one host to another.
use mini_win.Base.{ap, ◌∙◌, some, if◌then◌else◌, ℕ, ◌+◌, ◌^◌, ◌≤◌, ◌<◌, ◌≡◌, refl, false, not}
use mini_win.Base.{◌&&◌, List, [], ◌∷◌, ◌++◌, arith, ltb, ◌==◌, length, if_cases}
use mini_win.Net.{Net, broadcast}
use mini_win.Arp.{handle_frame}
use mini_win.Ip.{Packet, parse, flush_pending, datagram, build_header}
use mini_win.Ip.Header.{parse-build_header}
use mini_win.Udp.{Delivery}
use mini_win.NetStack.{Stack, with_net, by_protocol, ip_frame, stack_handle_frame}

-- A link address of six bytes.
abbrev pub six : (ℕ → ℕ) → List ℕ
six f = f 0 ∷ f 1 ∷ f 2 ∷ f 3 ∷ f 4 ∷ f 5 ∷ []

-- The packet that the receiver hands to its protocol.
abbrev pub arrived : ℕ → ℕ → ℕ → List ℕ → Packet
arrived src dst proto payload = record {
  proto = proto;
  total_len = 20 + length payload;
  src_ip = src;
  dst_ip = dst;
  payload = payload;
}

-- The frame of a datagram between two link addresses.
abbrev between : (ℕ → ℕ) → (ℕ → ℕ) → List ℕ → List ℕ
between to from rest = six to ++ (six from ++ (8 ∷ 0 ∷ rest))

not_arp :
    (cb : ℕ → List ℕ → Net → Net) (n : Net) (to from : ℕ → ℕ) (rest : List ℕ)
    → handle_frame cb n (between to from rest) ≡ (false, n)
unfolding handle_frame
not_arp cb n to from rest =
    if_cases (λ r. r ≡ (false, n)) (ltb (length (between to from rest)) 42) (λ a. refl) (λ a. refl)

-- A frame that ARP leaves goes on to IP.
passed_on :
    (deliver : Delivery → Stack → Stack) (s : Stack) (frame : List ℕ)
    → handle_frame flush_pending s.host.net frame ≡ (false, s.host.net)
    → stack_handle_frame deliver s frame ≡ ip_frame deliver s frame
unfolding stack_handle_frame
passed_on deliver s frame e =
    ap (λ r. if r.0 then with_net s r.1 else ip_frame deliver (with_net s r.1) frame) e

-- And a datagram for us to its protocol.
ip_frame-between :
    (deliver : Delivery → Stack → Stack) (s : Stack) (to from : ℕ → ℕ) (rest : List ℕ) (ip : Packet)
    → parse rest ≡ some ip
    → ip.dst_ip ≡ s.host.net.cfg.my_ip
    → ip_frame deliver s (between to from rest) ≡ by_protocol deliver s ip
unfolding ip_frame
ip_frame-between deliver s to from rest ip read us =
    let cfg = s.host.net.cfg in
    if_cases (λ t. t ≡ by_protocol deliver s ip) (ltb (length (between to from rest)) 14)
      (λ e. absurd (ground (arith, e)))
      (λ e. rw read (
        if_cases (λ t. t ≡ by_protocol deliver s ip)
          (cfg.ready && not (ip.dst_ip == cfg.my_ip) && not (ip.dst_ip == broadcast))
          (λ g. absurd (ground (arith, g, us))) (λ g. refl)))

-- The frame in which ip_send_now puts a datagram of at most 1480 bytes between two link addresses
-- of six bytes, for the address of the receiver, is left by ARP and handed by
-- net_stack_handle_frame of the receiver to the switch over protocols, with the sender, the
-- protocol and the payload that were sent.
pub stack_handle_frame-datagram :
    (deliver : Delivery → Stack → Stack) (s : Stack) (sender : Net) (proto : ℕ) (payload : List ℕ)
    (to from : ℕ → ℕ)
    → sender.nic.mac ≡ six from
    → sender.cfg.my_ip < 2 ^ 32
    → s.host.net.cfg.my_ip < 2 ^ 32
    → proto < 256
    → length payload ≤ 1480
    → stack_handle_frame deliver s (datagram sender s.host.net.cfg.my_ip proto payload (six to))
      ≡ by_protocol deliver s (arrived sender.cfg.my_ip s.host.net.cfg.my_ip proto payload)
stack_handle_frame-datagram deliver s sender proto payload to from mac src dst small short =
    let us = s.host.net.cfg.my_ip in
    let rest = build_header sender.cfg.my_ip us proto (length payload) ++ payload in
    ap (λ m. stack_handle_frame deliver s (six to ++ (m ++ (8 ∷ 0 ∷ rest)))) mac
    ∙ passed_on deliver s (between to from rest) (not_arp flush_pending s.host.net to from rest)
    ∙ ip_frame-between deliver s to from rest (arrived sender.cfg.my_ip us proto payload)
        (parse-build_header sender.cfg.my_ip us proto payload src dst small short) refl
