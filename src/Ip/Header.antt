-- ===== src/Ip/Header.antt =====
-- kernel/ip.h: ip_build_header and ip_parse.
use mini_win.Base.{take_all, Option, ◌-◌, true, false, ◌||◌, ltb, ◌==◌, ℕ, ◌+◌, ◌%◌, ◌^◌, ◌≤◌}
use mini_win.Base.{◌<◌, ◌≡◌, refl, some, List, [], ◌∷◌, ◌++◌, arith, length}
use mini_win.Net.{checksum, put16, put32, get16}
use mini_win.Net.Checksum.{checksum_finish-filled, short_enough}
use mini_win.Ip.{Packet, header_with, build_header, parse}

build_header-checked :
    (src dst proto len : ℕ) → proto < 256 → checksum (build_header src dst proto len) ≡ 0
unfolding checksum build_header
build_header-checked src dst proto len p =
    let front : List ℕ =
      0x45 ∷ 0x00 ∷ put16 ((20 + len) % 2 ^ 16)
      ++ (put16 0 ++ (put16 0x4000 ++ (64 ∷ proto ∷ []))) in
    let back : List ℕ = put32 src ++ put32 dst in
    checksum_finish-filled 0 5 front back refl
      (short_enough 0 front back (ground arith) (ground arith) (omega arith))

abbrev read_as : ℕ → ℕ → ℕ → ℕ → List ℕ → Option Packet
read_as p t s d b = some (record { proto = p; total_len = t; src_ip = s; dst_ip = d; payload = b })

packet_eq :
    (p : ℕ) {t t' s s' d d' : ℕ} {b b' : List ℕ}
    → t ≡ t'
    → s ≡ s'
    → d ≡ d'
    → b ≡ b'
    → read_as p t s d b ≡ read_as p t' s' d' b'
packet_eq p et es ed eb = cc

parse-header_with :
    (c src dst proto : ℕ) (payload : List ℕ)
    → src < 2 ^ 32
    → dst < 2 ^ 32
    → length payload ≤ 1480
    → checksum (header_with c src dst proto (length payload)) ≡ 0
    → parse (header_with c src dst proto (length payload) ++ payload)
      ≡ some (record {
        proto = proto;
        total_len = 20 + length payload;
        src_ip = src;
        dst_ip = dst;
        payload = payload;
      })
unfolding parse
parse-header_with c src dst proto payload s d small ok =
    rw (long, zero_sum, fits)
      (packet_eq proto (omega arith) (omega arith) (omega arith)
        (take_all payload (get16 bytes 2 - 20) (omega arith)))
  where
    long : ltb (length (header_with c src dst proto (length payload) ++ payload)) 20 ≡ false
    long = ground arith

    zero_sum : (checksum (header_with c src dst proto (length payload)) == 0) ≡ true
    zero_sum = ground (arith, ok)

    bytes : List ℕ
    bytes = header_with c src dst proto (length payload) ++ payload

    fits : (ltb (get16 bytes 2) 20 || ltb (length bytes) (get16 bytes 2)) ≡ false
    fits = ground arith

-- A header of ip_build_header, followed by its payload of at most 1480 bytes, is read by ip_parse
-- as the addresses, the protocol and the payload that it was built for.
pub parse-build_header :
    (src dst proto : ℕ) (payload : List ℕ)
    → src < 2 ^ 32
    → dst < 2 ^ 32
    → proto < 256
    → length payload ≤ 1480
    → parse (build_header src dst proto (length payload) ++ payload)
      ≡ some (record {
        proto = proto;
        total_len = 20 + length payload;
        src_ip = src;
        dst_ip = dst;
        payload = payload;
      })
unfolding parse build_header
parse-build_header src dst proto payload s d p small =
    parse-header_with (checksum (header_with 0 src dst proto (length payload))) src dst proto
      payload s d small (build_header-checked src dst proto (length payload) p)
