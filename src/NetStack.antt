-- ===== src/NetStack.antt =====
-- kernel/net_stack.h: the dispatch of frames, and one pass of the main loop. The UDP handlers are
-- those of dns.h and dhcp.h; what a call of them does, and what dhcp_poll and dns_poll do, are
-- parameters, and so are the frames that the card has received.
pub mod Dispatch
mod Tests
use mini_win.Base.{ℕ, ◌+◌, ◌%◌, ◌^◌, not, ◌&&◌, none, some, List, [], ◌∷◌, ltb, ◌==◌}
use mini_win.Base.{if◌then◌else◌, length, drop}
use mini_win.Net.{Net, get16, broadcast}
use mini_win.Arp.{handle_frame}
use mini_win.Ip.{Packet, parse, flush_pending}
use mini_win.Icmp.{icmp_handle_packet}
use mini_win.Udp.{Listener, Delivery, udp_handle_packet}
use mini_win.Tcp.{Host}
use mini_win.Tcp.Send.{poll_retransmit}
use mini_win.Tcp.Receive.{handle_packet}

-- The variables of the whole stack.
pub record Stack : Type 0 where
  pub host : Host
  pub listeners : List Listener

-- The network below in the place of what it was.
abbrev pub with_net : Stack → Net → Stack
with_net s n = record s { host = record s.host { net = n } }

module _ (deliver : Delivery → Stack → Stack) where
  -- The switch over the protocols.
  pub by_protocol : Stack → Packet → Stack
  by_protocol s ip =
      if ip.proto == 1
      then with_net s (icmp_handle_packet s.host.net ip)
      else if ip.proto == 17
      then (elim (udp_handle_packet s.listeners ip) [ none ↦ s | some call ↦ deliver call s ])
      else if ip.proto == 6
      then record s { host = handle_packet s.host ip }
      else s

  -- A frame that ARP has not taken.
  unfoldable pub ip_frame : Stack → List ℕ → Stack
  ip_frame s frame =
      let cfg = s.host.net.cfg in
      if ltb (length frame) 14
      then s
      else if not (get16 frame 12 == 0x0800)
      then s
      else elim (parse (drop 14 frame)) [
        | none ↦ s
        | some ip ↦
            if cfg.ready && not (ip.dst_ip == cfg.my_ip) && not (ip.dst_ip == broadcast)
            then s
            else by_protocol s ip
      ]

  -- net_stack_handle_frame
  unfoldable pub stack_handle_frame : Stack → List ℕ → Stack
  stack_handle_frame s frame =
      let (taken, n) = handle_frame flush_pending s.host.net frame in
      if taken then with_net s n else ip_frame (with_net s n) frame

  -- The loop of net_stack_poll over the frames.
  pub drain : Stack → List (List ℕ) → Stack
  drain s [] = s
  drain s (frame ∷ frames) = drain (stack_handle_frame s frame) frames

  -- net_stack_poll
  pub stack_poll : (Stack → Stack) → (Stack → Stack) → Stack → List (List ℕ) → Stack
  stack_poll dhcp_poll dns_poll s frames =
      let n = s.host.net in
      let ticked = with_net s (record n { ticks = (n.ticks + 1) % 2 ^ 32 }) in
      let drained = dhcp_poll (drain ticked frames) in
      if not n.nic.present
      then ticked
      else dns_poll (record drained { host = poll_retransmit drained.host })
