-- ===== src/Ime/Jamo.antt =====
-- kernel/hangul_ime.h, the key and jamo tables, and ko_compose_codepoint of kernel/font_ko.h.
-- A key is its character code. An `int` that is an index or -1 is an option, `none` for -1.
pub mod Tables
pub mod Codepoints
use mini_win.Base.{ℕ, ◌+◌, ◌*◌, ◌&&◌, Option, none, some, List, [], ◌∷◌, ltb, ◌==◌, if◌then◌else◌}
use mini_win.Base.{get_elem?, get_or}

-- The order of the keys in the rows is that of the `case` lines.
unfoldable pub consonant_index_for_letter : ℕ → Option ℕ
consonant_index_for_letter c =
    if c == b'r'
    then some 0
    else if c == b'R'
    then some 1
    else if c == b's'
    then some 2
    else if c == b'e'
    then some 3
    else if c == b'E'
    then some 4
    else if c == b'f'
    then some 5
    else if c == b'a'
    then some 6
    else if c == b'q'
    then some 7
    else if c == b'Q'
    then some 8
    else if c == b't'
    then some 9
    else if c == b'T'
    then some 10
    else if c == b'd'
    then some 11
    else if c == b'w'
    then some 12
    else if c == b'W'
    then some 13
    else if c == b'c'
    then some 14
    else if c == b'z'
    then some 15
    else if c == b'x'
    then some 16
    else if c == b'v'
    then some 17
    else if c == b'g'
    then some 18
    else none

unfoldable pub vowel_index_for_letter : ℕ → Option ℕ
vowel_index_for_letter c =
    if c == b'k'
    then some 0
    else if c == b'o'
    then some 1
    else if c == b'i'
    then some 2
    else if c == b'O'
    then some 3
    else if c == b'j'
    then some 4
    else if c == b'p'
    then some 5
    else if c == b'u'
    then some 6
    else if c == b'P'
    then some 7
    else if c == b'h'
    then some 8
    else if c == b'y'
    then some 12
    else if c == b'n'
    then some 13
    else if c == b'b'
    then some 17
    else if c == b'm'
    then some 18
    else if c == b'l'
    then some 20
    else none

pub combine_medial : ℕ → ℕ → Option ℕ
combine_medial base add =
    if base == 8 && add == 0
    then some 9
    else if base == 8 && add == 1
    then some 10
    else if base == 8 && add == 20
    then some 11
    else if base == 13 && add == 4
    then some 14
    else if base == 13 && add == 5
    then some 15
    else if base == 13 && add == 20
    then some 16
    else if base == 18 && add == 20
    then some 19
    else none

-- The table ko_initial_to_simple_final; its -1 entries are those of the consonants that cannot
-- close a syllable.
abbrev simple_finals : List (Option ℕ)
simple_finals =
    some 1
    ∷ some 2
    ∷ some 4
    ∷ some 7
    ∷ none
    ∷ some 8
    ∷ some 16
    ∷ some 17
    ∷ none
    ∷ some 19
    ∷ some 20
    ∷ some 21
    ∷ some 22
    ∷ none
    ∷ some 23
    ∷ some 24
    ∷ some 25
    ∷ some 26
    ∷ some 27
    ∷ []

pub initial_to_simple_final : ℕ → Option ℕ
initial_to_simple_final i = get_or simple_finals i none

pub combine_final : ℕ → ℕ → Option ℕ
combine_final base add =
    if base == 1 && add == 9
    then some 3
    else if base == 4 && add == 12
    then some 5
    else if base == 4 && add == 18
    then some 6
    else if base == 8 && add == 0
    then some 9
    else if base == 8 && add == 6
    then some 10
    else if base == 8 && add == 7
    then some 11
    else if base == 8 && add == 9
    then some 12
    else if base == 8 && add == 16
    then some 13
    else if base == 8 && add == 17
    then some 14
    else if base == 8 && add == 18
    then some 15
    else if base == 17 && add == 9
    then some 18
    else none

-- What stays on the syllable (0 for nothing), and the new initial.
pub split_final_for_handback : ℕ → ℕ × Option ℕ
split_final_for_handback f =
    if f == 1
    then (0, some 0)
    else if f == 2
    then (0, some 1)
    else if f == 3
    then (1, some 9)
    else if f == 4
    then (0, some 2)
    else if f == 5
    then (4, some 12)
    else if f == 6
    then (4, some 18)
    else if f == 7
    then (0, some 3)
    else if f == 8
    then (0, some 5)
    else if f == 9
    then (8, some 0)
    else if f == 10
    then (8, some 6)
    else if f == 11
    then (8, some 7)
    else if f == 12
    then (8, some 9)
    else if f == 13
    then (8, some 16)
    else if f == 14
    then (8, some 17)
    else if f == 15
    then (8, some 18)
    else if f == 16
    then (0, some 6)
    else if f == 17
    then (0, some 7)
    else if f == 18
    then (17, some 9)
    else if f == 19
    then (0, some 9)
    else if f == 20
    then (0, some 10)
    else if f == 21
    then (0, some 11)
    else if f == 22
    then (0, some 12)
    else if f == 23
    then (0, some 14)
    else if f == 24
    then (0, some 15)
    else if f == 25
    then (0, some 16)
    else if f == 26
    then (0, some 17)
    else if f == 27
    then (0, some 18)
    else (0, none)

-- KO_INITIAL_IEUNG
abbrev pub ieung : ℕ
ieung = 11

-- ko_compose_codepoint; the checks below 0 cannot fail on a number.
unfoldable pub compose_codepoint : ℕ → ℕ → ℕ → Option ℕ
compose_codepoint initial medial final =
    if ltb 18 initial
    then none
    else if ltb 20 medial
    then none
    else if ltb 27 final
    then none
    else some (0xac00 + (initial * 21 + medial) * 28 + final)

-- ko_jamo_cp_for_initial
abbrev jamo_codepoints : List ℕ
jamo_codepoints =
    0x3131 ∷ 0x3132 ∷ 0x3134 ∷ 0x3137 ∷ 0x3138 ∷ 0x3139 ∷ 0x3141 ∷ 0x3142 ∷ 0x3143 ∷ 0x3145 ∷ 0x3146
    ∷ 0x3147 ∷ 0x3148 ∷ 0x3149 ∷ 0x314a ∷ 0x314b ∷ 0x314c ∷ 0x314d ∷ 0x314e ∷ []

pub jamo_codepoint_for_initial : ℕ → Option ℕ
jamo_codepoint_for_initial i = get_elem? jamo_codepoints i
