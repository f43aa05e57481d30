-- ===== src/Ime/Invariant.antt =====
-- kernel/hangul_ime.h: the three indices of the syllable in progress always make sense together.
use mini_win.Base.{◌≡◌, ◌-◌, ℕ, ◌<◌, Option, none, some, arith, Option-cases, inl, inr}
use mini_win.Ime.{backspace_of, backspace, Ime, Syllable, Document, commit, feed_consonant}
use mini_win.Ime.{feed_vowel, feed_key, is_composing}
use mini_win.Ime.Jamo.{consonant_index_for_letter, vowel_index_for_letter}
use mini_win.Ime.Jamo.{initial_to_simple_final, combine_final, combine_medial}
use mini_win.Ime.Jamo.{split_final_for_handback}
use mini_win.Ime.Jamo.Tables.{consonant-lt, vowel-lt, combine_medial-lt, combine_final_range}
use mini_win.Ime.Jamo.Tables.{split-IsInitial, IsInitial, simple_final_range}

-- A medial stands on an initial and a final on a medial; each index is in its table's range, and a
-- final is never the 0 that means "none".
abbrev pub Fits : Option ℕ → Option ℕ → Option ℕ → Type 0
Fits none none none = Unit
Fits none none (some f) = ⊥
Fits none (some m) f = ⊥
Fits (some i) none none = i < 19
Fits (some i) none (some f) = ⊥
Fits (some i) (some m) none = (i < 19) × (m < 21)
Fits (some i) (some m) (some f) = (i < 19) × (m < 21) × (0 < f) × (f < 28)

abbrev pub IsWellFormed : Syllable → Type 0
IsWellFormed s = Fits s.initial s.medial s.final

consonant-Fits :
    (cons : ℕ) (i m f : Option ℕ) (d : Document)
    → cons < 19
    → Fits i m f
    → IsWellFormed
        (feed_consonant cons i m f (record {
          syllable = record { initial = i; medial = m; final = f };
          document = d;
        })).syllable
unfolding feed_consonant commit is_composing
consonant-Fits cons none none none d h w = h
consonant-Fits cons none none (some f) d h w = absurd w
consonant-Fits cons none (some m) f d h w = absurd w
consonant-Fits cons (some i) none none d h w = h
consonant-Fits cons (some i) none (some f) d h w = absurd w
consonant-Fits cons (some i) (some m) none d h w =
    elim (Option-cases (initial_to_simple_final cons)) [
      | inl e ↦ rw (e, feed_consonant) h
      | inr (simple, e) ↦ rw (e, feed_consonant) (ground (arith, simple_final_range cons h e))
    ]
consonant-Fits cons (some i) (some m) (some f) d h w = elim (Option-cases (combine_final f cons)) [
  | inl e ↦ rw (e, feed_consonant) h
  | inr (g, e) ↦ rw (e, feed_consonant) (ground (arith, combine_final_range f cons e))
]

handed-Fits : (o : Option ℕ) {v : ℕ} → IsInitial o → v < 21 → Fits o (some v) none
handed-Fits none w h = absurd w
handed-Fits (some i) w h = (w, h)

vowel-Fits :
    (vow : ℕ) (i m f : Option ℕ) (d : Document)
    → vow < 21
    → Fits i m f
    → IsWellFormed
        (feed_vowel vow i m f (record {
          syllable = record { initial = i; medial = m; final = f };
          document = d;
        })).syllable
unfolding feed_vowel commit is_composing
vowel-Fits vow none none none d h w = ground arith
vowel-Fits vow none none (some f) d h w = absurd w
vowel-Fits vow none (some m) f d h w = absurd w
vowel-Fits vow (some i) none none d h w = (w, h)
vowel-Fits vow (some i) none (some f) d h w = absurd w
vowel-Fits vow (some i) (some m) none d h w = elim (Option-cases (combine_medial m vow)) [
  | inl e ↦ rw (e, feed_vowel) (ground arith)
  | inr (n, e) ↦ rw (e, feed_vowel) (w.0, combine_medial-lt m vow e)
]
vowel-Fits vow (some i) (some m) (some f) d h w =
    handed-Fits (split_final_for_handback f).1 (split-IsInitial f w.2 w.3) h

commit-Fits :
    (i m f : Option ℕ) (d : Document)
    → Fits i m f
    → IsWellFormed
        (commit (record {
          syllable = record { initial = i; medial = m; final = f };
          document = d;
        })).syllable
unfolding commit is_composing
commit-Fits none m f d w = w
commit-Fits (some i) m f d w = tt

-- Whatever key is pressed, a well-formed syllable in progress stays well formed.
pub feed_key-IsWellFormed :
    (c : ℕ) (ime : Ime) → IsWellFormed ime.syllable → IsWellFormed (feed_key c ime).1.syllable
unfolding feed_key
feed_key-IsWellFormed c ime w = elim (Option-cases (consonant_index_for_letter c)) [
  | inr (cons, e) ↦ rw (e, feed_key) (consonant-Fits cons _ _ _ ime.document (consonant-lt c e) w)
  | inl e ↦ elim (Option-cases (vowel_index_for_letter c)) [
    | inr (vow, e') ↦ rw (e, e', feed_key) (vowel-Fits vow _ _ _ ime.document (vowel-lt c e') w)
    | inl e' ↦ rw (e, e', feed_key) (commit-Fits _ _ _ ime.document w)
  ]
]

-- How many of the three indices are set.
abbrev size_of : Option ℕ → Option ℕ → Option ℕ → ℕ
size_of none m f = 0
size_of (some i) none f = 1
size_of (some i) (some m) none = 2
size_of (some i) (some m) (some f) = 3

abbrev pub size : Syllable → ℕ
size s = size_of s.initial s.medial s.final

backspace-Fits :
    (i m f : Option ℕ)
    → Fits i m f
    → let (eaten, s) = backspace_of i m f in
      IsWellFormed s
      × (size s ≡ size_of i m f - 1)
      × (eaten ≡ is_composing (record { initial = i; medial = m; final = f }))
unfolding backspace_of is_composing
backspace-Fits none none none w = ground arith
backspace-Fits none none (some f) w = absurd w
backspace-Fits none (some m) f w = absurd w
backspace-Fits (some i) none none w = ground arith
backspace-Fits (some i) none (some f) w = absurd w
backspace-Fits (some i) (some m) none w = ground arith
backspace-Fits (some i) (some m) (some f) w = ground arith

-- Backspace keeps a well-formed syllable well formed, takes exactly one index off it if it has one,
-- and is eaten just when something was being composed.
pub backspace-IsWellFormed :
    (s : Syllable)
    → IsWellFormed s
    → let (eaten, s') = backspace s in
      IsWellFormed s' × (size s' ≡ size s - 1) × (eaten ≡ is_composing s)
unfolding backspace
backspace-IsWellFormed s w = backspace-Fits s.initial s.medial s.final w
