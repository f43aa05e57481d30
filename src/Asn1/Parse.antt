-- ===== src/Asn1/Parse.antt =====
-- kernel/asn1.h: asn1_parse_tlv reads what a DER writer writes, and stays in its buffer.
use mini_win.Base.{length-append, ◌*◌, bit_and, bit_or, ap, ◌∙◌, true, false, ◌||◌, ◌==◌, ℕ, ◌+◌}
use mini_win.Base.{◌/◌, ◌%◌, ◌^◌, ◌≤◌, ◌<◌, ◌≡◌, refl, inl, inr, Option, none, some, List, []}
use mini_win.Base.{◌∷◌, ◌++◌, arith, subst, ltb, if◌then◌else◌, Bool-cases, length}
use mini_win.Base.Bits.{bit_or_join, zero-bit_or}
use mini_win.Asn1.{Tlv, byte, long_len, finish, parse_tlv}

-- A DER writer for the length of a value: short, or long with one, two or three bytes.
abbrev pub der_length : ℕ → List ℕ
der_length n =
    if ltb n 128
    then n ∷ []
    else if ltb n 256
    then 129 ∷ n ∷ []
    else if ltb n 65536
    then 130 ∷ n / 256 ∷ n % 256 ∷ []
    else 131 ∷ n / 65536 ∷ n / 256 % 256 ∷ n % 256 ∷ []

-- A tag, the length, the value, and what follows.
abbrev pub der : ℕ → List ℕ → List ℕ → List ℕ
der tag value rest = tag ∷ der_length (length value) ++ (value ++ rest)

finish-some :
    (tag pos len max_len : ℕ)
    → pos + len ≤ max_len
    → max_len < 2 ^ 32
    → finish tag pos len max_len
      ≡ some (record { tag = tag; len = len; value = pos; next = pos + len })
unfolding finish
finish-some tag pos len max_len h w = ground arith

-- What an accepted length can be.
InBuffer : ℕ → Option Tlv → Type 0
InBuffer max_len none = Unit
InBuffer max_len (some t) =
    (t.value + t.len ≡ t.next)
    × (2 ≤ t.value)
    × (t.value ≤ max_len)
    × (t.next < 2 ^ 32 → t.next ≤ max_len)

finish-InBuffer :
    (tag pos len max_len : ℕ)
    → 2 ≤ pos
    → pos ≤ max_len
    → InBuffer max_len (finish tag pos len max_len)
unfolding finish InBuffer
finish-InBuffer tag pos len max_len lo hi = elim (Bool-cases (ltb max_len ((pos + len) % 2 ^ 32))) [
  | inl over ↦ rw over tt
  | inr fits ↦ rw fits (refl, lo, hi, λ small. ground (arith, fits, small))
]

parse-InBuffer : (bytes : List ℕ) (max_len : ℕ) → InBuffer max_len (parse_tlv bytes max_len)
unfolding parse_tlv InBuffer
parse-InBuffer bytes max_len = elim (Bool-cases (ltb max_len 2)) [
  | inl tiny ↦ rw tiny tt
  | inr two ↦ elim (Bool-cases (ltb (byte bytes 1) 0x80)) [
    | inl short ↦
        rw (two, short)
          (finish-InBuffer (byte bytes 0) 2 (byte bytes 1) max_len (omega arith)
            (ground (arith, two)))
    | inr long ↦ elim (Bool-cases (n == 0 || ltb 4 n)) [
      | inl bad ↦ rw (two, long, bad) tt
      | inr good ↦ elim (Bool-cases (ltb max_len (2 + n))) [
        | inl cut ↦ rw (two, long, good, cut) tt
        | inr whole ↦
            rw (two, long, good, whole)
              (finish-InBuffer (byte bytes 0) (2 + n) (long_len bytes 2 n 0) max_len (omega arith)
                (ground (arith, whole)))
      ]
    ]
  ]
]
  where
    n : ℕ
    n = bit_and (byte bytes 1) 0x7f

-- A value that asn1_parse_tlv accepts lies within the buffer behind its header, if the end that its
-- length gives is below 2^32; the next value starts where it ends.
pub parse_tlv-bounds :
    (bytes : List ℕ) (max_len : ℕ) {t : Tlv}
    → parse_tlv bytes max_len ≡ some t
    → t.next < 2 ^ 32
    → (t.value + t.len ≡ t.next) × (2 ≤ t.value) × (t.next ≤ max_len)
unfolding InBuffer
parse_tlv-bounds bytes max_len e small =
    let (a, b, c, d) = subst (InBuffer max_len) e (parse-InBuffer bytes max_len) in (a, b, d small)

next_len : (len b : ℕ) → len < 2 ^ 24 → b < 256 → bit_or (len * 2 ^ 8 % 2 ^ 32) b ≡ len * 256 + b
next_len len b h lt =
    ap (λ k. bit_or k b) {x = len * 2 ^ 8 % 2 ^ 32} {y = 2 ^ 8 * len} (omega arith)
    ∙ bit_or_join 8 len b lt
    ∙ omega arith

-- The four forms of the length, read.
read_short :
    (tag n : ℕ) (xs : List ℕ) (max_len : ℕ)
    → n < 128
    → 2 ≤ max_len
    → parse_tlv (tag ∷ n ∷ xs) max_len ≡ finish tag 2 n max_len
unfolding parse_tlv
read_short tag n xs max_len lt le = rw (two, short) refl
  where
    two : ltb max_len 2 ≡ false
    two = ground arith

    short : ltb n 128 ≡ true
    short = ground arith

read_one :
    (tag a : ℕ) (xs : List ℕ) (max_len : ℕ)
    → a < 256
    → 3 ≤ max_len
    → parse_tlv (tag ∷ 129 ∷ a ∷ xs) max_len ≡ finish tag 3 a max_len
unfolding parse_tlv long_len
read_one tag a xs max_len lt le = rw (two, three) (ap (λ l. finish tag 3 l max_len) (zero-bit_or a))
  where
    two : ltb max_len 2 ≡ false
    two = ground arith

    three : ltb max_len 3 ≡ false
    three = ground arith

read_two :
    (tag a b : ℕ) (xs : List ℕ) (max_len : ℕ)
    → a < 256
    → b < 256
    → 4 ≤ max_len
    → parse_tlv (tag ∷ 130 ∷ a ∷ b ∷ xs) max_len ≡ finish tag 4 (a * 256 + b) max_len
unfolding parse_tlv long_len
read_two tag a b xs max_len la lb le =
    rw (two, four)
      (ap (λ l. finish tag 4 l max_len)
        (ap (λ l. bit_or (l * 2 ^ 8 % 2 ^ 32) b) (zero-bit_or a) ∙ next_len a b (omega arith) lb))
  where
    two : ltb max_len 2 ≡ false
    two = ground arith

    four : ltb max_len 4 ≡ false
    four = ground arith

read_three :
    (tag a b c : ℕ) (xs : List ℕ) (max_len : ℕ)
    → a < 256
    → b < 256
    → c < 256
    → 5 ≤ max_len
    → parse_tlv (tag ∷ 131 ∷ a ∷ b ∷ c ∷ xs) max_len
      ≡ finish tag 5 ((a * 256 + b) * 256 + c) max_len
unfolding parse_tlv long_len
read_three tag a b c xs max_len la lb lc le =
    rw (two, five)
      (ap (λ l. finish tag 5 l max_len)
        (ap (λ l. bit_or (bit_or (l * 2 ^ 8 % 2 ^ 32) b * 2 ^ 8 % 2 ^ 32) c) (zero-bit_or a)
          ∙ ap (λ l. bit_or (l * 2 ^ 8 % 2 ^ 32) c) (next_len a b (omega arith) lb)
          ∙ next_len (a * 256 + b) c (omega arith) lc))
  where
    two : ltb max_len 2 ≡ false
    two = ground arith

    five : ltb max_len 5 ≡ false
    five = ground arith

-- The header, by the form of the length.
read_der :
    (tag n : ℕ) (xs : List ℕ) (max_len : ℕ)
    → n < 2 ^ 24
    → 1 + length (der_length n) + n ≤ max_len
    → max_len < 2 ^ 32
    → parse_tlv (tag ∷ der_length n ++ xs) max_len
      ≡ some (record {
        tag = tag;
        len = n;
        value = 1 + length (der_length n);
        next = 1 + length (der_length n) + n;
      })
read_der tag n xs max_len small fits w = elim (Bool-cases (ltb n 128)) [
  | inl short ↦
      let room : 2 + n ≤ max_len = rw short at fits in
      rw short (
        read_short tag n xs max_len (ground (arith, short)) (omega arith)
        ∙ finish-some tag 2 n max_len room w)
  | inr long ↦ elim (Bool-cases (ltb n 256)) [
    | inl one ↦
        let room : 3 + n ≤ max_len = rw (long, one) at fits in
        rw (long, one)
          (read_one tag n xs max_len (ground (arith, one)) (omega arith)
            ∙ finish-some tag 3 n max_len room w)
    | inr more ↦ elim (Bool-cases (ltb n 65536)) [
      | inl two ↦
          let room : 4 + n ≤ max_len = rw (long, more, two) at fits in
          rw (long, more, two)
            (read_two tag (n / 256) (n % 256) xs max_len (ground (arith, two)) (omega arith)
                (omega arith)
              ∙ ap (λ l. finish tag 4 l max_len) {x = n / 256 * 256 + n % 256} {y = n} (omega arith)
              ∙ finish-some tag 4 n max_len room w)
      | inr three ↦
          let room : 5 + n ≤ max_len = rw (long, more, three) at fits in
          rw (long, more, three)
            (read_three tag (n / 65536) (n / 256 % 256) (n % 256) xs max_len (omega arith)
                (omega arith) (omega arith) (omega arith)
              ∙ ap (λ l. finish tag 5 l max_len)
                  {x = (n / 65536 * 256 + n / 256 % 256) * 256 + n % 256} {y = n} (omega arith)
              ∙ finish-some tag 5 n max_len room w)
    ]
  ]
]

-- asn1_parse_tlv, on what a DER writer gives for a tag and a value of fewer than 2^24 bytes, with
-- anything after it and fewer than 2^32 bytes in all, gives the tag, the length of the value, and
-- where it starts and ends.
pub parse_tlv-der :
    (tag : ℕ) (value rest : List ℕ)
    → length value < 2 ^ 24
    → length (der tag value rest) < 2 ^ 32
    → let header = 1 + length (der_length (length value)) in
      parse_tlv (der tag value rest) (length (der tag value rest))
      ≡ some
          (record { tag = tag; len = length value; value = header; next = header + length value })
parse_tlv-der tag value rest small w =
    read_der tag (length value) (value ++ rest) (length (der tag value rest)) small
      (omega (
        arith,
        length-append (der_length (length value)) (value ++ rest),
        length-append value rest,
      ))
      w
