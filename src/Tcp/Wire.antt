-- ===== src/Tcp/Wire.antt =====
-- kernel/tcp.h: a segment as it is built and as it is read.

use mini_win.Base.{if_cases, ◌%◌, refl, ap, inl, inr, Bool, false, [], ◌∷◌, ◌++◌, ◌==◌}
use mini_win.Base.{if◌then◌else◌, Bool-cases, ℕ, ◌+◌, ◌*◌, ◌/◌, ◌^◌, ◌≤◌, ◌<◌, ◌≡◌, true, List}
use mini_win.Base.{arith, length}
use mini_win.Net.{at, put16, put32, get16, get32, checksum_add}
use mini_win.Net.Checksum.{AreBytes, words, words-bound, checksum_add-words}
use mini_win.Net.Checksum.{checksum_finish-filled, short_enough}
use mini_win.Ip.{Packet}
use mini_win.Tcp.{Conn, segment, segment_checksum, pseudo, recv_window, has, ack_flag, syn_flag}
use mini_win.Tcp.Receive.{parse_options, checksum_ok, read_segment}

-- An IP packet that carries a segment of ours.
abbrev pub carried : ℕ → Conn → ℕ → List ℕ → Packet
carried my_ip c flags payload = record {
  proto = 6;
  total_len = 20 + length (segment c flags payload (segment_checksum my_ip c flags payload));
  src_ip = my_ip;
  dst_ip = c.remote_ip;
  payload = segment c flags payload (segment_checksum my_ip c flags payload);
}

pseudo-small : (a b len : ℕ) → checksum_add 0 (pseudo a b len) < 2 ^ 20
pseudo-small a b len =
    let small : words (pseudo a b len) ≤ 65535 * ((12 + 1) / 2) =
      words-bound (pseudo a b len) (ground arith) in
    omega (arith, small, checksum_add-words 0 (pseudo a b len) (omega (arith, small)))

-- A segment passes the receiver's checksum.
segment-checksum_ok :
    (my_ip : ℕ) (c : Conn) (flags : ℕ) (payload : List ℕ)
    → flags < 256
    → AreBytes payload
    → length payload ≤ 1200
    → checksum_ok (carried my_ip c flags payload) ≡ true
unfolding checksum_ok segment_checksum segment
segment-checksum_ok my_ip c flags payload small bytes short =
    let start = checksum_add 0 (pseudo my_ip c.remote_ip (length (segment c flags payload 0))) in
    ap (λ k. k == 0)
      (checksum_finish-filled start 8 (front (has flags syn_flag)) (back (has flags syn_flag)) refl
        (short_enough start (front (has flags syn_flag)) (back (has flags syn_flag))
          (front-AreBytes (has flags syn_flag)) (back-AreBytes (has flags syn_flag))
          (omega (
            arith,
            pseudo-small my_ip c.remote_ip (length (segment c flags payload 0)),
            back-length (has flags syn_flag),
          ))))
  where
    front : Bool → List ℕ
    front syn =
        put16 c.local_port
        ++ (put16 c.remote_port
            ++ (put32 c.snd_nxt
                ++ (put32 (if has flags ack_flag then c.rcv_nxt else 0)
                    ++ ((if syn then 96 else 80) ∷ flags ∷ put16 (recv_window c)))))

    back : Bool → List ℕ
    back syn = put16 0 ++ ((if syn then 2 ∷ 4 ∷ put16 1400 else []) ++ payload)

    front-AreBytes : (syn : Bool) → AreBytes (front syn)
    front-AreBytes true = ground (arith, small)
    front-AreBytes false = ground (arith, small)

    back-AreBytes : (syn : Bool) → AreBytes (back syn)
    back-AreBytes true = ground (arith, bytes)
    back-AreBytes false = ground (arith, bytes)

    back-length : (syn : Bool) → length (back syn) ≤ 1206
    back-length true = omega (arith, short)
    back-length false = omega (arith, short)

abbrev pub told : Bool → ℕ → ℕ
told syn mss = if syn then 1400 else mss

-- A segment is read as it was meant.
read_segment-segment :
    (my_ip : ℕ) (c : Conn) (flags : ℕ) (payload : List ℕ)
    → flags < 256
    → c.snd_nxt < 2 ^ 32
    → c.rcv_nxt < 2 ^ 32
    → let seg = segment c flags payload (segment_checksum my_ip c flags payload) in
      let s = read_segment seg (at seg 12 / 16 * 4) in
      (get16 seg 0 ≡ c.local_port % 2 ^ 16)
      × (get16 seg 2 ≡ c.remote_port % 2 ^ 16)
      × (s.seq ≡ c.snd_nxt)
      × (s.ack ≡ (if has flags ack_flag then c.rcv_nxt else 0))
      × (s.flags ≡ flags)
      × (s.window ≡ recv_window c)
      × (s.bytes ≡ payload)
      × ((mss : ℕ) → s.told_mss mss ≡ told (has flags syn_flag) mss)
unfolding read_segment segment parse_options recv_window
read_segment-segment my_ip c flags payload small nxt rcv = elim (Bool-cases (has flags syn_flag)) [
  | inl e ↦ rw e (
    omega arith,
    omega arith,
    word32 c.snd_nxt nxt,
    ack_field,
    refl,
    omega (arith, window_small),
    refl,
    λ mss. refl,
  )
  | inr e ↦ rw e (
    omega arith,
    omega arith,
    word32 c.snd_nxt nxt,
    ack_field,
    refl,
    omega (arith, window_small),
    refl,
    λ mss. refl,
  )
]
  where
    word32 : (v : ℕ) → v < 2 ^ 32 → get32 (put32 v) 0 ≡ v
    word32 v lt = omega (arith, lt)

    ack_field :
        get32 (put32 (if has flags ack_flag then c.rcv_nxt else 0)) 0
        ≡ (if has flags ack_flag then c.rcv_nxt else 0)
    ack_field =
        word32 (if has flags ack_flag then c.rcv_nxt else 0)
          (if_cases (λ v. v < 2 ^ 32) (has flags ack_flag) (λ q. rcv) (λ q. omega arith))

    window_small : recv_window c < 2 ^ 16
    window_small = omega arith

-- What the receiver makes of a segment of the other host.
pub record IsRead (c : Conn) (flags : ℕ) (payload : List ℕ) (ip : Packet) : Type 0 where
  pub intact : checksum_ok ip ≡ true
  pub ports :
      (get16 ip.payload 0 ≡ c.local_port % 2 ^ 16) × (get16 ip.payload 2 ≡ c.remote_port % 2 ^ 16)
  pub seq : (read_segment ip.payload (at ip.payload 12 / 16 * 4)).seq ≡ c.snd_nxt
  pub ack :
      (read_segment ip.payload (at ip.payload 12 / 16 * 4)).ack
      ≡ (if has flags ack_flag then c.rcv_nxt else 0)
  pub marks : (read_segment ip.payload (at ip.payload 12 / 16 * 4)).flags ≡ flags
  pub window : (read_segment ip.payload (at ip.payload 12 / 16 * 4)).window ≡ recv_window c
  pub bytes : (read_segment ip.payload (at ip.payload 12 / 16 * 4)).bytes ≡ payload
  pub mss :
      (mss : ℕ)
      → (read_segment ip.payload (at ip.payload 12 / 16 * 4)).told_mss mss
        ≡ told (has flags syn_flag) mss

-- A segment of at most 1200 bytes that tcp_send_segment builds passes the checksum of the receiver,
-- which reads back the ports, the sequence number, the acknowledgement, the flags, the window and
-- the bytes; a SYN tells the MSS 1400.
pub segment-IsRead :
    (my_ip : ℕ) (c : Conn) (flags : ℕ) (payload : List ℕ)
    → flags < 256
    → c.snd_nxt < 2 ^ 32
    → c.rcv_nxt < 2 ^ 32
    → AreBytes payload
    → length payload ≤ 1200
    → IsRead c flags payload (carried my_ip c flags payload)
segment-IsRead my_ip c flags payload small nxt rcv bytes short =
    let (from, to, seq, ack, marks, window, same, mss) =
      read_segment-segment my_ip c flags payload small nxt rcv in
    record {
      intact = segment-checksum_ok my_ip c flags payload small bytes short;
      ports = (from, to);
      seq = seq;
      ack = ack;
      marks = marks;
      window = window;
      bytes = same;
      mss = mss;
    }
