-- ===== src/Udp/Tests.antt =====
-- kernel/udp.h: a listener and a datagram for it.
use mini_win.Base.{◌⊎◌, false, none, ◌≡◌, true, some, List, [], ◌∷◌, arith}
use mini_win.Ip.{Packet}
use mini_win.Udp.{Listener, udp_handle_packet}
use mini_win.Udp.Listeners.{NobodyOn, IsFirstOn}
use mini_win.Udp.Wire.{carrying, udp_handle_packet-carrying}

-- The first listener on the port is not active any more.
abbrev table : List Listener
table =
    record { port = 5353; handler = 1; active = false }
    ∷ record { port = 5353; handler = 2; active = true }
    ∷ []

abbrev note : Packet
note = carrying 600 53 700 5353 (1 ∷ 2 ∷ 3 ∷ [])

udp_handle_packet-carrying_example :
    ((before : List Listener) × (l : Listener) × (after : List Listener) × IsFirstOn 5353 table
        before l after
      × (udp_handle_packet table note
          ≡ some (record {
            handler = l.handler;
            src_ip = 600;
            src_port = 53;
            bytes = 1 ∷ 2 ∷ 3 ∷ [];
          })))
    ⊎ (NobodyOn 5353 table × (udp_handle_packet table note ≡ none))
udp_handle_packet-carrying_example =
    udp_handle_packet-carrying table 600 53 700 5353 (1 ∷ 2 ∷ 3 ∷ []) (ground arith) (omega arith)
      (omega arith) (omega arith)
