-- ===== src/Asn1.antt =====
-- kernel/asn1.h: the reader of DER. A buffer is the list of its bytes, the pointers of an asn1_tlv_t
-- are offsets into it; `max_len` is passed along as in the source.
pub mod Parse
mod Tests
use mini_win.Base.{zero, suc, ◌+◌, ◌*◌, ◌%◌, ◌^◌, bit_and, bit_or, ◌||◌, Option, none, some, List}
use mini_win.Base.{ltb, ◌==◌, if◌then◌else◌, get_or, ℕ}

-- asn1_tlv_t
pub record Tlv : Type 0 where
  pub tag : ℕ
  pub len : ℕ
  pub value : ℕ
  pub next : ℕ

-- `data[i]`
abbrev pub byte : List ℕ → ℕ → ℕ
byte bytes i = get_or bytes i 0

-- The loop over the bytes of a long length, `n` rounds before its end: `(len << 8) | data[pos++]`.
pub long_len : List ℕ → ℕ → ℕ → ℕ → ℕ
long_len bytes pos zero len = len
long_len bytes pos (suc n) len =
    long_len bytes (pos + 1) n (bit_or (len * 2 ^ 8 % 2 ^ 32) (byte bytes pos))

-- The last check and the result; `pos + len` is a `u32` sum, `data + pos + len` is not.
pub finish : ℕ → ℕ → ℕ → ℕ → Option Tlv
finish tag pos len max_len =
    if ltb max_len ((pos + len) % 2 ^ 32)
    then none
    else some (record { tag = tag; len = len; value = pos; next = pos + len })

-- asn1_parse_tlv
pub parse_tlv : List ℕ → ℕ → Option Tlv
parse_tlv bytes max_len =
    if ltb max_len 2
    then none
    else if ltb (byte bytes 1) 0x80
    then finish (byte bytes 0) 2 (byte bytes 1) max_len
    else (let n = bit_and (byte bytes 1) 0x7f in
        if n == 0 || ltb 4 n
        then none
        else if ltb max_len (2 + n)
        then none
        else finish (byte bytes 0) (2 + n) (long_len bytes 2 n 0) max_len)

-- asn1_expect
pub expect : List ℕ → ℕ → ℕ → Option Tlv
expect bytes max_len tag = elim (parse_tlv bytes max_len) [
  | none ↦ none
  | some t ↦ if t.tag == tag then some t else none
]
