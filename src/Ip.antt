-- ===== src/Ip.antt =====
-- kernel/ip.h: IPv4 headers, the next hop, and the sending of a datagram, with the one packet that may
-- wait for an address. The version_ihl field of an ip_packet_t, which nothing reads, is left out.
pub mod Header
pub mod Send
pub mod Waiting
mod Tests
use mini_win.Base.{ℕ, ◌+◌, ◌-◌, ◌*◌, ◌/◌, ◌%◌, ◌^◌, bit_and, not, ◌&&◌, ◌||◌, Option, none, some}
use mini_win.Base.{List, [], ◌∷◌, ◌++◌, ltb, leb, ◌==◌, if◌then◌else◌, length, take, drop}
use mini_win.Base.{replicate}
use mini_win.Net.{Net, Config, Parked, at, put16, put32, get16, get32, broadcast, checksum}
use mini_win.Net.{nic_send}
use mini_win.Arp.{lookup, is_pending, send_request}

-- ip_packet_t
pub record Packet : Type 0 where
  pub proto : ℕ
  pub total_len : ℕ
  pub src_ip : ℕ
  pub dst_ip : ℕ
  pub payload : List ℕ

-- The header with a value in its checksum field.
abbrev pub header_with : ℕ → ℕ → ℕ → ℕ → ℕ → List ℕ
header_with csum src_ip dst_ip proto payload_len =
    0x45
    ∷ 0x00
    ∷ ((put16 ((20 + payload_len) % 2 ^ 16) ++ (put16 0 ++ (put16 0x4000 ++ (64 ∷ proto ∷ []))))
        ++ (put16 csum ++ (put32 src_ip ++ put32 dst_ip)))

-- ip_build_header
pub build_header : ℕ → ℕ → ℕ → ℕ → List ℕ
build_header src_ip dst_ip proto payload_len =
    header_with (checksum (header_with 0 src_ip dst_ip proto payload_len)) src_ip dst_ip proto
      payload_len

-- ip_parse
pub parse : List ℕ → Option Packet
parse bytes =
    let ihl_bytes = at bytes 0 % 16 * 4 in
    let total_len = get16 bytes 2 in
    if ltb (length bytes) 20
    then none
    else if not (at bytes 0 / 16 == 4)
    then none
    else if ltb ihl_bytes 20 || ltb (length bytes) ihl_bytes
    then none
    else if not (checksum (take ihl_bytes bytes) == 0)
    then none
    else if ltb total_len ihl_bytes || ltb (length bytes) total_len
    then none
    else some (record {
      proto = at bytes 9;
      total_len = total_len;
      src_ip = get32 bytes 12;
      dst_ip = get32 bytes 16;
      payload = take (total_len - ihl_bytes) (drop ihl_bytes bytes);
    })

-- ip_next_hop
pub next_hop : Config → ℕ → ℕ
next_hop cfg dst_ip =
    if dst_ip == broadcast
    then broadcast
    else if not (cfg.netmask == 0) && bit_and dst_ip cfg.netmask == bit_and cfg.my_ip cfg.netmask
    then dst_ip
    else cfg.gateway_ip

-- IP_SEND_FAILED, IP_SEND_SENT, IP_SEND_QUEUED
pub data Verdict : Type 0 where
  failed sent queued : Verdict

-- The frame of a datagram.
abbrev pub datagram : Net → ℕ → ℕ → List ℕ → List ℕ → List ℕ
datagram n dst_ip proto payload dst_mac =
    dst_mac
    ++ (n.nic.mac
        ++ (put16 0x0800 ++ (build_header n.cfg.my_ip dst_ip proto (length payload) ++ payload)))

-- ip_send_now
pub send_now : Net → ℕ → ℕ → List ℕ → List ℕ → Verdict × Net
send_now n dst_ip proto payload dst_mac =
    let took = nic_send n.nic (datagram n dst_ip proto payload dst_mac) in
    (if took.0 then sent else failed, record n { nic = took.1 })

-- The part of ip_send for an address that the cache does not have.
pub send_later : Net → ℕ → ℕ → List ℕ → ℕ → Verdict × Net
send_later n dst_ip proto payload hop =
    let asking = if is_pending n hop then n else send_request n n.cfg.my_ip hop in
    if leb (length payload) 512
    then (
      queued,
      record asking {
        parked = some (record { dst_ip = dst_ip; proto = proto; payload = payload });
      },
    )
    else (failed, asking)

-- ip_send
pub send : Net → ℕ → ℕ → List ℕ → Verdict × Net
send n dst_ip proto payload =
    let hop = next_hop n.cfg dst_ip in
    if not n.nic.present
    then (failed, n)
    else if not n.cfg.ready && not (dst_ip == broadcast)
    then (failed, n)
    else if ltb 1480 (length payload)
    then (failed, n)
    else if hop == broadcast
    then send_now n dst_ip proto payload (replicate 6 255)
    else elim (lookup n.cache hop) [
      | some mac ↦ send_now n dst_ip proto payload mac
      | none ↦ send_later n dst_ip proto payload hop
    ]

-- ip_flush_pending
pub flush_pending : ℕ → List ℕ → Net → Net
flush_pending resolved_ip mac n = elim n.parked [
  | none ↦ n
  | some p ↦
      if not (next_hop n.cfg p.dst_ip == resolved_ip)
      then n
      else (send_now (record n { parked = none }) p.dst_ip p.proto p.payload mac).1
]
