-- ===== src/Ime/Spelling.antt =====
-- kernel/hangul_ime.h: the keys that spell a text, and how a syllable is built up by them.

use mini_win.Base.{◌<◌, arith, ℕ, ◌≡◌, refl, ◌∙◌, Option, none, some, List, [], ◌∷◌, ◌++◌, ◌==◌}
use mini_win.Base.{if◌then◌else◌}
use mini_win.Ime.{final_or_zero, Ime, Document, utf8, feed_consonant, feed_vowel, feed_key}
use mini_win.Ime.{feed_keys}
use mini_win.Ime.Jamo.{consonant_index_for_letter, vowel_index_for_letter, combine_medial}
use mini_win.Ime.Jamo.{combine_final, initial_to_simple_final, compose_codepoint}
use mini_win.Ime.Jamo.Tables.{simple_final_range, combine_final_range, consonant-lt}
use mini_win.Ime.Jamo.Tables.{vowel-not_consonant}

-- The keys of a medial: one vowel key, or two that combine.
pub data Vowels : List ℕ → ℕ → Type 0 where
  one : {k v : ℕ} → vowel_index_for_letter k ≡ some v → Vowels (k ∷ []) v
  two :
      {k l a b v : ℕ}
      → vowel_index_for_letter k ≡ some a
      → vowel_index_for_letter l ≡ some b
      → combine_medial a b ≡ some v
      → Vowels (k ∷ l ∷ []) v

-- The keys of a final: none, one consonant key, or two that combine.
pub data Coda : List ℕ → ℕ → Type 0 where
  open_syllable : Coda [] 0
  simple :
      {k c f : ℕ}
      → consonant_index_for_letter k ≡ some c
      → initial_to_simple_final c ≡ some f
      → Coda (k ∷ []) f
  double :
      {k l c e f g : ℕ}
      → consonant_index_for_letter k ≡ some c
      → initial_to_simple_final c ≡ some f
      → consonant_index_for_letter l ≡ some e
      → combine_final f e ≡ some g
      → Coda (k ∷ l ∷ []) g

-- The keys that spell a text of whole syllables, with its code points.
pub data Spells : List ℕ → List ℕ → Type 0 where
  end : Spells [] []
  next :
      {k i m f cp : ℕ} {vs cs rest keys cps : List ℕ}
      → consonant_index_for_letter k ≡ some i
      → Vowels vs m
      → Coda cs f
      → compose_codepoint i m f ≡ some cp
      → Spells rest cps
      → keys ≡ k ∷ vs ++ (cs ++ rest)
      → Spells keys (cp ∷ cps)

abbrev pub encode : List ℕ → List ℕ
encode [] = []
encode (cp ∷ cps) = utf8 cp ++ encode cps

abbrev pub final_of : ℕ → Option ℕ
final_of f = if f == 0 then none else some f

-- The state in which a whole syllable is in progress.
abbrev pub whole : ℕ → ℕ → ℕ → Document → Ime
whole i m f d = record {
  syllable = record { initial = some i; medial = some m; final = final_of f };
  document = d;
}

pub feed_keys-append :
    (ks ls : List ℕ) (ime : Ime) → feed_keys (ks ++ ls) ime ≡ feed_keys ls (feed_keys ks ime)
unfolding feed_keys
feed_keys-append [] ls ime = refl
feed_keys-append (k ∷ ks) ls ime = feed_keys-append ks ls (feed_key k ime).1

pub key_of_consonant :
    (k : ℕ) {c : ℕ} (ime : Ime)
    → consonant_index_for_letter k ≡ some c
    → (feed_key k ime).1
      ≡ feed_consonant c ime.syllable.initial ime.syllable.medial ime.syllable.final ime
unfolding feed_key
key_of_consonant k ime e = rw (e, feed_key)

pub key_of_vowel :
    (k : ℕ) {v : ℕ} (ime : Ime)
    → vowel_index_for_letter k ≡ some v
    → (feed_key k ime).1
      ≡ feed_vowel v ime.syllable.initial ime.syllable.medial ime.syllable.final ime
unfolding feed_key
key_of_vowel k ime e = rw (vowel-not_consonant k e, e, feed_key)

pub feed_keys_one :
    (k : ℕ) (ks : List ℕ) (ime : Ime) → feed_keys (k ∷ ks) ime ≡ feed_keys ks (feed_key k ime).1
unfolding feed_keys
feed_keys_one k ks ime = refl

pub feed_keys_none : (ime : Ime) → feed_keys [] ime ≡ ime
unfolding feed_keys
feed_keys_none ime = refl

pub combined :
    (i a b : ℕ) {v : ℕ} (d : Document)
    → combine_medial a b ≡ some v
    → feed_vowel b (some i) (some a) none (whole i a 0 d) ≡ whole i v 0 d
unfolding feed_vowel
combined i a b d e = rw (e, feed_vowel)

-- From a lone initial, the medial is built up.
pub vowels_lem :
    {vs : List ℕ} {m : ℕ} (i : ℕ) (d : Document)
    → Vowels vs m
    → feed_keys vs (record {
      syllable = record { initial = some i; medial = none; final = none };
      document = d;
    })
      ≡ whole i m 0 d
unfolding feed_vowel
vowels_lem i d (one {k = k} e) = rw (feed_keys_one, feed_keys_none) (key_of_vowel k _ e)
vowels_lem i d (two {k = k} {l = l} {a = a} {b = b} e e' c) =
    rw (feed_keys_one, key_of_vowel k _ e, feed_keys_one, feed_keys_none)
      (key_of_vowel l (whole i a 0 d) e' ∙ combined i a b d c)

pub final_of_pos : (f : ℕ) → 0 < f → final_of f ≡ some f
final_of_pos f h = ground arith

pub final_or_zero_of : (f : ℕ) → final_or_zero (final_of f) ≡ f
final_or_zero_of f = ground arith

closed :
    (i m c : ℕ) {f : ℕ} (d : Document)
    → initial_to_simple_final c ≡ some f
    → 0 < f
    → feed_consonant c (some i) (some m) none (whole i m 0 d) ≡ whole i m f d
unfolding feed_consonant
closed i m c {f} d e pos = rw (e, feed_consonant, final_of_pos f pos)

doubled :
    (i m f c : ℕ) {g : ℕ} (d : Document)
    → combine_final f c ≡ some g
    → 0 < f
    → 0 < g
    → feed_consonant c (some i) (some m) (final_of f) (whole i m f d) ≡ whole i m g d
unfolding feed_consonant
doubled i m f c {g} d e pos pos' = rw (final_of_pos f pos, e, feed_consonant, final_of_pos g pos')

-- On an open syllable, the final is built up.
pub coda_lem :
    {cs : List ℕ} {f : ℕ} (i m : ℕ) (d : Document)
    → Coda cs f
    → feed_keys cs (whole i m 0 d) ≡ whole i m f d
coda_lem i m d open_syllable = feed_keys_none _
coda_lem i m d (simple {k = k} {c = c} e s) =
    rw (feed_keys_one, key_of_consonant k _ e, feed_keys_none)
      (closed i m c d s (simple_final_range c (consonant-lt k e) s).0)
coda_lem i m d (double {k = k} {l = l} {c = c} {e = e} {f = f} ek s el g) =
    let pos = (simple_final_range c (consonant-lt k ek) s).0 in
    rw (feed_keys_one, key_of_consonant k _ ek, closed i m c d s pos)
      (rw (feed_keys_one, feed_keys_none)
        (key_of_consonant l (whole i m f d) el
          ∙ doubled i m f e d g pos (combine_final_range f e g).0))
