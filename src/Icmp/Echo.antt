-- ===== src/Icmp/Echo.antt =====
-- kernel/icmp.h: what an echo reply carries.
use native.Mathlib.Decide.{dec_le}
use mini_win.Base.{ap, length-drop, ◌<◌, ◌⊎◌, inl, inr, if_cases, ℕ, zero, suc, ◌≤◌, ◌≡◌, refl}
use mini_win.Base.{true, false, List, [], ◌∷◌, arith, ltb, ◌==◌, length, drop}
use mini_win.Net.{Net, at, checksum}
use mini_win.Net.Checksum.{AreBytes, checksum_finish-filled, short_enough}
use mini_win.Ip.{Packet, send}
use mini_win.Ip.Send.{send-too_long}
use mini_win.Icmp.{echo_reply, send_echo_reply, icmp_handle_packet}

-- What makes a message the right reply to a request.
pub record Answers (req reply : List ℕ) : Type 0 where
  pub kind : at reply 0 ≡ 0
  pub code : at reply 1 ≡ at req 1
  pub rest : drop 4 reply ≡ drop 4 req
  pub size : length reply ≡ length req
  pub intact : checksum reply ≡ 0

drop-AreBytes : (n : ℕ) (xs : List ℕ) → AreBytes xs → AreBytes (drop n xs)
drop-AreBytes zero xs h = h
drop-AreBytes (suc n) [] h = h
drop-AreBytes (suc n) (x ∷ xs) h = drop-AreBytes n xs h.1

length-echo_reply : (req : List ℕ) → 4 ≤ length req → length (echo_reply req) ≡ length req
unfolding echo_reply
length-echo_reply req long = omega (arith, length-drop 4 req)

echo_reply-Answers :
    (req : List ℕ)
    → AreBytes req
    → 8 ≤ length req
    → length req ≤ 1580
    → Answers req (echo_reply req)
unfolding echo_reply checksum
echo_reply-Answers (a ∷ b ∷ c ∷ d ∷ rest) bytes long short = record {
  kind = refl;
  code = refl;
  rest = refl;
  size = refl;
  intact = checksum_finish-filled 0 1 (0 ∷ b ∷ []) rest refl (
      short_enough 0 (0 ∷ b ∷ []) rest (ground (arith, bytes))
        (drop-AreBytes 4 (a ∷ b ∷ c ∷ d ∷ rest) bytes) (omega (arith, short)));
}
echo_reply-Answers [] bytes long short = absurd (omega (arith, long))
echo_reply-Answers (a ∷ []) bytes long short = absurd (omega (arith, long))
echo_reply-Answers (a ∷ b ∷ []) bytes long short = absurd (omega (arith, long))
echo_reply-Answers (a ∷ b ∷ c ∷ []) bytes long short = absurd (omega (arith, long))

-- A reply that ip_send does not take changes nothing.
reply-too_long :
    (n : Net) (dst_ip : ℕ) (req : List ℕ)
    → 1480 < length (echo_reply req)
    → send_echo_reply n dst_ip req ≡ n
unfolding send_echo_reply
reply-too_long n dst_ip req long =
    if_cases (λ m. m ≡ n) (ltb 1580 (length req)) (λ e. refl)
      (λ e. ap (λ r. r.1) (send-too_long n dst_ip 1 (echo_reply req) long))

-- An echo request of 8 to 1480 bytes is answered by handing to ip_send, for its source, the reply
-- of icmp_send_echo_reply, a message of type 0 with the same code and, after the checksum, the same
-- bytes, whose checksum verifies; a longer one changes nothing.
pub icmp_handle_packet-Answers :
    (n : Net) (ip : Packet)
    → AreBytes ip.payload
    → 8 ≤ length ip.payload
    → at ip.payload 0 ≡ 8
    → ((length ip.payload ≤ 1480)
        × Answers ip.payload (echo_reply ip.payload)
        × (icmp_handle_packet n ip ≡ (send n ip.src_ip 1 (echo_reply ip.payload)).1))
      ⊎ ((1480 < length ip.payload) × (icmp_handle_packet n ip ≡ n))
unfolding icmp_handle_packet send_echo_reply
icmp_handle_packet-Answers n ip bytes long kind =
    let fits : ltb (length ip.payload) 8 ≡ false = ground (arith, long) in
    let request : (at ip.payload 0 == 8) ≡ true = ground (arith, kind) in
    elim (dec_le (length ip.payload) 1480) [
      | yes short ↦
          let small : ltb 1580 (length ip.payload) ≡ false = ground (arith, short) in
          inl (
            short,
            echo_reply-Answers ip.payload bytes long (omega (arith, short)),
            rw (fits, request, small) refl,
          )
      | no over ↦ inr (
        omega (arith, over),
        rw (fits, request)
            (reply-too_long n ip.src_ip ip.payload
              (omega (arith, over, length-echo_reply ip.payload (omega (arith, long))))),
      )
    ]
