-- ===== src/Udp.antt =====
-- kernel/udp.h: datagrams to ports. A handler is a number that stands for the function that
-- udp_listen was given, and udp_handle_packet gives the call that it makes, if any. The table has been
-- cleared (udp_init, which net_stack_init calls).
pub mod Listeners
pub mod Wire
mod Tests
use mini_win.Base.{ℕ, ◌+◌, ◌-◌, Bool, true, false, not, ◌&&◌, ◌||◌, Option, none, some, List, []}
use mini_win.Base.{◌∷◌, ◌++◌, ltb, leb, ◌==◌, if◌then◌else◌, length, take, drop}
use mini_win.Net.{Net, at, put16, put32, get16, checksum_add, checksum_finish}
use mini_win.Ip.{Packet, Verdict, failed, send as ip_send}

-- udp_listener_t
pub record Listener : Type 0 where
  pub port : ℕ
  pub handler : ℕ
  pub active : Bool

-- udp_init
pub init : List Listener → List Listener
init [] = []
init (l ∷ ls) = record l { active = false } ∷ init ls

-- udp_listen
pub listen : List Listener → ℕ → ℕ → Bool × List Listener
listen [] port handler = (false, [])
listen (l ∷ ls) port handler =
    let rest = listen ls port handler in
    if not l.active
    then (true, record { port = port; handler = handler; active = true } ∷ ls)
    else (rest.0, l ∷ rest.1)

-- The pseudo-header of a datagram of `len` bytes.
abbrev pub pseudo_udp : ℕ → ℕ → ℕ → List ℕ
pseudo_udp src_ip dst_ip len = put32 src_ip ++ (put32 dst_ip ++ (0 ∷ 17 ∷ put16 len))

-- The datagram that udp_send builds, with a value in its checksum field, and the value.
pub udp_datagram : ℕ → ℕ → List ℕ → ℕ → List ℕ
udp_datagram src_port dst_port payload csum =
    (put16 src_port ++ (put16 dst_port ++ put16 (8 + length payload))) ++ (put16 csum ++ payload)

pub udp_sum : ℕ → ℕ → List ℕ → ℕ
udp_sum src_ip dst_ip bytes =
    checksum_finish (checksum_add (checksum_add 0 (pseudo_udp src_ip dst_ip (length bytes))) bytes)

pub udp_checksum : ℕ → ℕ → ℕ → ℕ → List ℕ → ℕ
udp_checksum src_ip src_port dst_ip dst_port payload =
    let csum = udp_sum src_ip dst_ip (udp_datagram src_port dst_port payload 0) in
    if csum == 0 then 65535 else csum

-- udp_send
pub udp_send : Net → ℕ → ℕ → ℕ → ℕ → List ℕ → Verdict × Net
udp_send n src_ip src_port dst_ip dst_port payload =
    if ltb 1600 (8 + length payload)
    then (failed, n)
    else ip_send n dst_ip 17 (
        udp_datagram src_port dst_port payload
          (udp_checksum src_ip src_port dst_ip dst_port payload))

-- The call of a handler.
pub record Delivery : Type 0 where
  pub handler : ℕ
  pub src_ip : ℕ
  pub src_port : ℕ
  pub bytes : List ℕ

-- The loop over the listeners.
pub find_listener : List Listener → ℕ → Option ℕ
find_listener [] port = none
find_listener (l ∷ ls) port =
    let rest = find_listener ls port in if l.active && l.port == port then some l.handler else rest

-- The checks of udp_handle_packet on the length and the checksum.
pub well_formed : Packet → Bool
well_formed ip =
    let udp_len = get16 ip.payload 4 in
    leb 8 (length ip.payload)
    && leb 8 udp_len
    && leb udp_len (length ip.payload)
    && (get16 ip.payload 6 == 0
        || checksum_finish (
            checksum_add (checksum_add 0 (pseudo_udp ip.src_ip ip.dst_ip udp_len))
              (take udp_len ip.payload))
          == 0)

-- udp_handle_packet
pub udp_handle_packet : List Listener → Packet → Option Delivery
udp_handle_packet ls ip =
    if not (well_formed ip) then none else elim (find_listener ls (get16 ip.payload 2)) [
      | none ↦ none
      | some handler ↦ some (record {
        handler = handler;
        src_ip = ip.src_ip;
        src_port = get16 ip.payload 0;
        bytes = take (get16 ip.payload 4 - 8) (drop 8 ip.payload);
      })
    ]
