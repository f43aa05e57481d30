-- ===== src/Ime/Handback.antt =====
-- kernel/hangul_ime.h: an initial that was taken for a final, or combined into one, is handed back
-- when its vowel comes.

use mini_win.Base.{zero, suc, inl, inr, Option-cases, ◌<◌, arith, ℕ, ◌≡◌, ◌∙◌, some, List, ◌∷◌}
use mini_win.Ime.{emit_utf8, commit_of, commit, is_composing, Ime, Document, feed_consonant}
use mini_win.Ime.{feed_vowel, feed_keys}
use mini_win.Ime.Jamo.{consonant_index_for_letter, combine_final, initial_to_simple_final}
use mini_win.Ime.Jamo.{compose_codepoint}
use mini_win.Ime.Jamo.Tables.{simple_final_range, combine-split, consonant-lt}
use mini_win.Ime.Spelling.{Vowels, one, two, whole, feed_keys_one, feed_keys_none}
use mini_win.Ime.Spelling.{key_of_consonant, key_of_vowel, combined, final_of_pos}

-- The text once the syllable in progress is written out.
abbrev pub flushed : ℕ → ℕ → ℕ → Document → Document
flushed i m f d = (emit_utf8 d (compose_codepoint i m f)).1

-- One key of either kind, as `feed_key` dispatches it.
abbrev consonant_step : ℕ → Ime → Ime
consonant_step c ime =
    feed_consonant c ime.syllable.initial ime.syllable.medial ime.syllable.final ime

abbrev vowel_step : ℕ → Ime → Ime
vowel_step v ime = feed_vowel v ime.syllable.initial ime.syllable.medial ime.syllable.final ime

-- The next initial and its vowel, after an open syllable: the initial may have been taken for a
-- final, and is handed back.
lead_open :
    (i m c v : ℕ) (d : Document)
    → c < 19
    → vowel_step v (consonant_step c (whole i m 0 d)) ≡ whole c v 0 (flushed i m 0 d)
unfolding feed_consonant feed_vowel commit commit_of is_composing
lead_open i m c v d h = elim (Option-cases (initial_to_simple_final c)) [
  | inl e ↦ rw (e, feed_consonant)
  | inr (f, e) ↦ rw (e, feed_consonant) (rw ((simple_final_range c h e).2))
]

-- The same after a closed one: the initial may have been combined into its final.
lead_closed :
    (i m f c v : ℕ) (d : Document)
    → 0 < f
    → vowel_step v (consonant_step c (whole i m f d)) ≡ whole c v 0 (flushed i m f d)
unfolding feed_consonant feed_vowel commit commit_of is_composing
lead_closed i m f c v d pos = rw (final_of_pos f pos) (elim (Option-cases (combine_final f c)) [
  | inl e ↦ rw (e, feed_consonant)
  | inr (g, e) ↦ rw (e, feed_consonant) (rw (combine-split f c e, final_of_pos f pos))
])

lead_lem :
    (i m f c v : ℕ) (d : Document)
    → c < 19
    → vowel_step v (consonant_step c (whole i m f d)) ≡ whole c v 0 (flushed i m f d)
lead_lem i m zero c v d h = lead_open i m c v d h
lead_lem i m (suc f) c v d h = lead_closed i m (suc f) c v d (omega arith)

-- The next syllable's initial and medial write the syllable before them.
pub lead-Vowels :
    {vs : List ℕ} {n : ℕ} (i m f k : ℕ) {c : ℕ} (d : Document)
    → consonant_index_for_letter k ≡ some c
    → Vowels vs n
    → feed_keys (k ∷ vs) (whole i m f d) ≡ whole c n 0 (flushed i m f d)
lead-Vowels i m f k {c} d e (one {k = l} {v = v} el) =
    rw (feed_keys_one, key_of_consonant k _ e, feed_keys_one, key_of_vowel l _ el, feed_keys_none)
      (lead_lem i m f c v d (consonant-lt k e))
lead-Vowels i m f k {c} d e (two {k = l} {l = l'} {a = a} {b = b} el el' g) =
    rw
      (
        feed_keys_one,
        key_of_consonant k _ e,
        feed_keys_one,
        key_of_vowel l _ el,
        lead_lem i m f c a d (consonant-lt k e),
        feed_keys_one,
        feed_keys_none,
      )
      (key_of_vowel l' (whole c a 0 (flushed i m f d)) el' ∙ combined c a b (flushed i m f d) g)
