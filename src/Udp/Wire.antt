-- ===== src/Udp/Wire.antt =====
-- kernel/udp.h: a datagram as it is built and as it is delivered.
use mini_win.Base.{◌⊎◌, none, take_all, sym, ◌-◌, true, Option, ◌*◌, ◌/◌, ◌^◌, ◌<◌, refl, inl}
use mini_win.Base.{inr, some, ◌++◌, arith, subst, ◌==◌, if◌then◌else◌, Bool-cases, take, ℕ, ◌+◌}
use mini_win.Base.{◌≤◌, ◌≡◌, List, length}
use mini_win.Net.{put16, get16, checksum_add, checksum_finish}
use mini_win.Net.Checksum.{AreBytes, words, words-bound, checksum_add-words, short_enough}
use mini_win.Net.Checksum.{checksum_finish-filled, checksum_add-field, checksum_finish-ones}
use mini_win.Ip.{Packet}
use mini_win.Udp.Listeners.{NobodyOn, IsFirstOn, find_listener_cases}
use mini_win.Udp.{Listener, Delivery, pseudo_udp, udp_datagram, udp_sum, udp_checksum}
use mini_win.Udp.{find_listener, well_formed, udp_handle_packet}

-- The packet that carries a datagram.
abbrev pub carrying : ℕ → ℕ → ℕ → ℕ → List ℕ → Packet
carrying src_ip src_port dst_ip dst_port payload =
    let bytes =
      udp_datagram src_port dst_port payload
        (udp_checksum src_ip src_port dst_ip dst_port payload) in
    record {
      proto = 17;
      total_len = 20 + length bytes;
      src_ip = src_ip;
      dst_ip = dst_ip;
      payload = bytes;
    }

pseudo_udp-small : (a b len : ℕ) → checksum_add 0 (pseudo_udp a b len) < 2 ^ 20
pseudo_udp-small a b len =
    let small : words (pseudo_udp a b len) ≤ 65535 * ((12 + 1) / 2) =
      words-bound (pseudo_udp a b len) (ground arith) in
    omega (arith, small, checksum_add-words 0 (pseudo_udp a b len) (omega (arith, small)))

-- A checksum of 0 is written as all ones, and passes all the same.
never_zero :
    (start n : ℕ) (front back : List ℕ)
    → length front ≡ 2 * n
    → AreBytes front
    → AreBytes back
    → start + 65535 * (length front + length back + 5) < 2 ^ 32
    → let sum = checksum_finish (checksum_add start (front ++ (put16 0 ++ back))) in
      checksum_finish
        (checksum_add start (front ++ (put16 (if sum == 0 then 65535 else sum) ++ back)))
      ≡ 0
never_zero start n front back even f b fits =
    let within : start + (words front + words back) + 65535 < 2 ^ 32 =
      short_enough start front back f b (omega (arith, fits)) in
    let sum = checksum_finish (checksum_add start (front ++ (put16 0 ++ back))) in
    let field : (v : ℕ)
        → v < 2 ^ 16
        → checksum_add start (front ++ (put16 v ++ back))
          ≡ start + (words front + (v + words back)) =
      λ v lt. checksum_add-field start n v front back even within lt in
    elim (Bool-cases (sum == 0)) [
      | inr e ↦ rw e (checksum_finish-filled start n front back even within)
      | inl e ↦ rw e (
          rw (field 65535 (omega arith)) (
            subst (λ k. checksum_finish k ≡ 0)
              {x = start + (words front + (0 + words back)) + 65535} (omega arith)
              (checksum_finish-ones (start + (words front + (0 + words back)))
                (omega (arith, fits, words-bound front f, words-bound back b))
                (subst (λ k. checksum_finish k ≡ 0) (field 0 (omega arith)) (ground (arith, e))))))
    ]

-- The sum over the datagram that is sent.
filled :
    (src_ip src_port dst_ip dst_port : ℕ) (payload : List ℕ)
    → AreBytes payload
    → length payload ≤ 1472
    → udp_sum src_ip dst_ip (
        udp_datagram src_port dst_port payload
          (udp_checksum src_ip src_port dst_ip dst_port payload))
      ≡ 0
unfolding udp_sum udp_checksum udp_datagram
filled src_ip src_port dst_ip dst_port payload bytes short =
    never_zero
      (checksum_add 0
        (pseudo_udp src_ip dst_ip (length (udp_datagram src_port dst_port payload 0))))
      3 (put16 src_port ++ (put16 dst_port ++ put16 (8 + length payload))) payload refl
      (ground arith) bytes
      (omega (
        arith,
        short,
        pseudo_udp-small src_ip dst_ip (length (udp_datagram src_port dst_port payload 0)),
      ))

abbrev delivered : ℕ → ℕ → ℕ → List ℕ → Option Delivery
delivered handler src_ip p b =
    some (record { handler = handler; src_ip = src_ip; src_port = p; bytes = b })

delivery_eq :
    (handler src_ip : ℕ) {p p' : ℕ} {b b' : List ℕ}
    → p ≡ p'
    → b ≡ b'
    → delivered handler src_ip p b ≡ delivered handler src_ip p' b'
delivery_eq handler src_ip ep eb = cc

-- The datagram passes the checks of the receiver.
fine :
    (src_ip src_port dst_ip dst_port : ℕ) (payload : List ℕ)
    → AreBytes payload
    → length payload ≤ 1472
    → well_formed (carrying src_ip src_port dst_ip dst_port payload) ≡ true
unfolding well_formed udp_datagram udp_sum
fine src_ip src_port dst_ip dst_port payload bytes short =
    let ip = carrying src_ip src_port dst_ip dst_port payload in
    let u : get16 ip.payload 4 ≡ length ip.payload = omega (arith, short) in
    let whole : checksum_finish (
          checksum_add (checksum_add 0 (pseudo_udp ip.src_ip ip.dst_ip (get16 ip.payload 4)))
            (take (get16 ip.payload 4) ip.payload))
        ≡ 0 =
      subst
        (λ n.
          checksum_finish
            (checksum_add (checksum_add 0 (pseudo_udp ip.src_ip ip.dst_ip n)) (take n ip.payload))
          ≡ 0)
        (sym u)
        (subst
          (λ bs.
            checksum_finish (
              checksum_add (checksum_add 0 (pseudo_udp ip.src_ip ip.dst_ip (length ip.payload))) bs)
            ≡ 0)
          (sym (take_all ip.payload (length ip.payload) refl))
          (filled src_ip src_port dst_ip dst_port payload bytes short)) in
    ground (arith, u, whole)

-- What is found decides about the datagram.
module _ (ls : List Listener) (src_ip src_port dst_ip dst_port : ℕ) (payload : List ℕ)
    (bytes : AreBytes payload) (short : length payload ≤ 1472) (sp : src_port < 2 ^ 16)
    (dp : dst_port < 2 ^ 16) where
  to_found :
      (handler : ℕ)
      → find_listener ls dst_port ≡ some handler
      → udp_handle_packet ls (carrying src_ip src_port dst_ip dst_port payload)
        ≡ delivered handler src_ip src_port payload
  unfolding udp_handle_packet well_formed udp_datagram udp_sum
  to_found handler found =
      let ip = carrying src_ip src_port dst_ip dst_port payload in
      let port : get16 ip.payload 2 ≡ dst_port = omega (arith, dp) in
      rw (fine src_ip src_port dst_ip dst_port payload bytes short, port, found)
        (delivery_eq handler src_ip (omega (arith, sp))
          (take_all payload (get16 ip.payload 4 - 8) (omega (arith, short))))

  to_nobody :
      find_listener ls dst_port ≡ none
      → udp_handle_packet ls (carrying src_ip src_port dst_ip dst_port payload) ≡ none
  unfolding udp_handle_packet well_formed udp_datagram udp_sum
  to_nobody found =
      let ip = carrying src_ip src_port dst_ip dst_port payload in
      let port : get16 ip.payload 2 ≡ dst_port = omega (arith, dp) in
      rw (fine src_ip src_port dst_ip dst_port payload bytes short, port, found) refl

-- A datagram of at most 1472 bytes as udp_send builds it, a checksum of 0 written as all ones
-- included, passes the checks of udp_handle_packet: it goes to the first listener that is active
-- and on its port, with the address and port of the sender and the bytes that were sent, and
-- nowhere if no active listener is on its port.
pub udp_handle_packet-carrying :
    (ls : List Listener) (src_ip src_port dst_ip dst_port : ℕ) (payload : List ℕ)
    → AreBytes payload
    → length payload ≤ 1472
    → src_port < 2 ^ 16
    → dst_port < 2 ^ 16
    → ((before : List Listener) × (l : Listener) × (after : List Listener) × IsFirstOn dst_port ls
          before l after
        × (udp_handle_packet ls (carrying src_ip src_port dst_ip dst_port payload)
            ≡ some (record {
              handler = l.handler;
              src_ip = src_ip;
              src_port = src_port;
              bytes = payload;
            })))
      ⊎ (NobodyOn dst_port ls
          × (udp_handle_packet ls (carrying src_ip src_port dst_ip dst_port payload) ≡ none))
udp_handle_packet-carrying ls src_ip src_port dst_ip dst_port payload bytes short sp dp =
    elim (find_listener_cases dst_port ls) [
      | inl (before, l, after, first, found) ↦ inl (
        before,
        l,
        after,
        first,
        to_found ls src_ip src_port dst_ip dst_port payload bytes short sp dp l.handler found,
      )
      | inr (nobody, found) ↦
          inr (nobody, to_nobody ls src_ip src_port dst_ip dst_port payload bytes short sp dp found)
    ]
