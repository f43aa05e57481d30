-- ===== src/Asn1/Tests.antt =====
-- kernel/asn1.h: the theorems at an INTEGER of one byte.
use mini_win.Base.{ℕ, ◌+◌, ◌≤◌, ◌≡◌, refl, some, List, [], ◌∷◌, arith, length}
use mini_win.Asn1.{Tlv, finish, parse_tlv}
use mini_win.Asn1.Parse.{der, der_length, parse_tlv-bounds, parse_tlv-der}

-- INTEGER 5, and a byte after it.
abbrev five : List ℕ
five = 2 ∷ 1 ∷ 5 ∷ 7 ∷ []

abbrev five_tlv : Tlv
five_tlv = record { tag = 2; len = 1; value = 2; next = 3 }

five-parsed : parse_tlv five 4 ≡ some five_tlv
unfolding parse_tlv finish
five-parsed = refl

parse_tlv-bounds_example :
    (five_tlv.value + five_tlv.len ≡ five_tlv.next) × (2 ≤ five_tlv.value) × (five_tlv.next ≤ 4)
parse_tlv-bounds_example = parse_tlv-bounds five 4 {t = five_tlv} five-parsed (omega arith)

parse_tlv-der_example :
    parse_tlv (der 2 (5 ∷ []) (7 ∷ [])) 4
    ≡ some (record {
      tag = 2;
      len = 1;
      value = 1 + length (der_length 1);
      next = 1 + length (der_length 1) + 1;
    })
parse_tlv-der_example = parse_tlv-der 2 (5 ∷ []) (7 ∷ []) (omega arith) (omega arith)
