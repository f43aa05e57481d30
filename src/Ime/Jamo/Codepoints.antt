-- ===== src/Ime/Jamo/Codepoints.antt =====
-- kernel/hangul_ime.h and kernel/font_ko.h: the code points that a syllable is shown and written as.
use mini_win.Base.{ℕ, ◌+◌, ◌*◌, ◌≤◌, ◌<◌, ◌≡◌, refl, ◌⊎◌, inl, inr, Bool, true, false, ◌&&◌}
use mini_win.Base.{Option, none, some, arith, leb, every_below, every_below_sound}
use mini_win.Ime.Jamo.{compose_codepoint, jamo_codepoint_for_initial}

-- The two blocks of code points that the input method can produce.
abbrev pub IsHangul : ℕ → Type 0
IsHangul cp = ((0x3131 ≤ cp) × (cp ≤ 0x314e)) ⊎ ((0xac00 ≤ cp) × (cp ≤ 0xd7a3))

abbrev is_jamo : Option ℕ → Bool
is_jamo none = false
is_jamo (some cp) = leb 0x3131 cp && leb cp 0x314e

jamo_table : every_below 19 (λ i. is_jamo (jamo_codepoint_for_initial i)) ≡ true
unfolding every_below jamo_codepoint_for_initial
jamo_table = refl

is_jamo-IsHangul : (o : Option ℕ) → is_jamo o ≡ true → (cp : ℕ) × (o ≡ some cp) × IsHangul cp
is_jamo-IsHangul none h = cc
is_jamo-IsHangul (some cp) h = (cp, refl, inl (ground arith))

pub jamo-IsHangul :
    (i : ℕ) → i < 19 → (cp : ℕ) × (jamo_codepoint_for_initial i ≡ some cp) × IsHangul cp
jamo-IsHangul i h = is_jamo-IsHangul _ (every_below_sound 19 _ i jamo_table h)

pub compose-IsHangul :
    (i m f : ℕ)
    → i < 19
    → m < 21
    → f < 28
    → (compose_codepoint i m f ≡ some (0xac00 + (i * 21 + m) * 28 + f))
      × IsHangul (0xac00 + (i * 21 + m) * 28 + f)
unfolding compose_codepoint
compose-IsHangul i m f hi hm hf = (ground arith, inr (omega arith))
