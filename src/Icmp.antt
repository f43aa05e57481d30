-- ===== src/Icmp.antt =====
-- kernel/icmp.h: echo requests and replies.
pub mod Echo
mod Tests
use mini_win.Base.{ℕ, zero, suc, ◌+◌, ◌%◌, List, [], ◌∷◌, ◌++◌, ltb, ◌==◌, if◌then◌else◌, length}
use mini_win.Base.{drop}
use mini_win.Net.{Net, at, put16, checksum}
use mini_win.Ip.{Packet, Verdict, send}

-- The 32 bytes of filler, from the byte `i` on.
pub filler : ℕ → ℕ → List ℕ
filler i zero = []
filler i (suc n) = (97 + i % 23) % 256 ∷ filler (i + 1) n

-- A message with a value in its checksum field.
abbrev pub message : ℕ → ℕ → ℕ → List ℕ → List ℕ
message kind code csum rest = (kind ∷ code ∷ []) ++ (put16 csum ++ rest)

-- icmp_send_echo_request
pub send_echo_request : Net → ℕ → ℕ → ℕ → Verdict × Net
send_echo_request n dst_ip id seq =
    let rest = put16 id ++ (put16 seq ++ filler 0 32) in
    send n dst_ip 1 (message 8 0 (checksum (message 8 0 0 rest)) rest)

-- The reply that icmp_send_echo_reply builds, and its sending.
pub echo_reply : List ℕ → List ℕ
echo_reply req = message 0 (at req 1) (checksum (message 0 (at req 1) 0 (drop 4 req))) (drop 4 req)

pub send_echo_reply : Net → ℕ → List ℕ → Net
send_echo_reply n dst_ip req =
    if ltb 1580 (length req) then n else (send n dst_ip 1 (echo_reply req)).1

-- icmp_handle_packet
pub icmp_handle_packet : Net → Packet → Net
icmp_handle_packet n ip =
    if ltb (length ip.payload) 8
    then n
    else if at ip.payload 0 == 8
    then send_echo_reply n ip.src_ip ip.payload
    else n
