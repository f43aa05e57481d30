-- ===== src/Ime/Tests.antt =====
-- kernel/hangul_ime.h: runs of the automaton, and the theorems at concrete states.

use mini_win.Base.{ℕ, ◌≡◌, refl, true, false, some, [], ◌∷◌, ◌++◌, arith}
use mini_win.Ime.{Document, Ime, idle, is_composing, preview_codepoint, utf8, commit, feed_key}
use mini_win.Ime.{feed_keys}
use mini_win.Ime.Jamo.{consonant_index_for_letter, vowel_index_for_letter, compose_codepoint}
use mini_win.Ime.Jamo.Codepoints.{IsHangul}
use mini_win.Ime.Invariant.{IsWellFormed, feed_key-IsWellFormed}
use mini_win.Ime.Text.{InCapacity, commit-preview, feed_key-InCapacity}
use mini_win.Ime.Spelling.{Spells, end, next, one, open_syllable, encode}
use mini_win.Ime.Typing.{feed_keys-encode}

abbrev empty_page : Document
empty_page = record { bytes = []; maxlen = 12 }

-- The syllable gan, from the keys r, k and s.
abbrev gan : Ime
gan = record {
  syllable = record { initial = some 0; medial = some 0; final = some 4 };
  document = empty_page;
}

-- The keys r k s k: gana, whose n is first taken for a final.
gana-Spells : Spells (114 ∷ 107 ∷ 115 ∷ 107 ∷ []) (0xac00 ∷ 0xb098 ∷ [])
unfolding consonant_index_for_letter vowel_index_for_letter compose_codepoint
gana-Spells =
    next {k = 114} {i = 0} {m = 0} {f = 0} {vs = 107 ∷ []} {cs = []} {rest = 115 ∷ 107 ∷ []} refl
      (one {k = 107} {v = 0} refl) open_syllable refl
      (next {k = 115} {i = 2} {m = 0} {f = 0} {vs = 107 ∷ []} {cs = []} {rest = []} refl
        (one {k = 107} {v = 0} refl) open_syllable refl end refl)
      refl

feed_keys-encode_example :
    let after = commit (
      feed_keys (114 ∷ 107 ∷ 115 ∷ 107 ∷ []) (record { syllable = idle; document = empty_page })) in
    (after.document ≡ record empty_page { bytes = [] ++ encode (0xac00 ∷ 0xb098 ∷ []) })
    × (is_composing after.syllable ≡ false)
feed_keys-encode_example = feed_keys-encode empty_page gana-Spells (omega arith, omega arith)

feed_key-IsWellFormed_example : IsWellFormed (feed_key 107 gan).1.syllable
feed_key-IsWellFormed_example =
    feed_key-IsWellFormed 107 gan (omega arith, omega arith, omega arith, omega arith)

gan-is_composing : is_composing gan.syllable ≡ true
unfolding is_composing
gan-is_composing = refl

commit-preview_example :
    (cp : ℕ) × (preview_codepoint gan.syllable ≡ some cp)
    × IsHangul cp
    × (commit gan
        ≡ record { syllable = idle; document = record empty_page { bytes = [] ++ utf8 cp } })
commit-preview_example =
    commit-preview gan (omega arith, omega arith, omega arith, omega arith) gan-is_composing
      (omega arith) (omega arith)

feed_key-InCapacity_example : InCapacity (feed_key 46 gan).1.document
feed_key-InCapacity_example =
    feed_key-InCapacity 46 gan (record { held = omega arith; no_wrap = omega arith })
