-- ===== src/Ime/Text.antt =====
-- kernel/hangul_ime.h: what a commit writes. The bytes are well-formed UTF-8 of the code point that
-- the preview shows, and the buffer never grows past its capacity.
use mathlib.Core.Option
use mini_win.Base.{ℕ, ◌+◌, ◌*◌, ◌/◌, ◌%◌, ◌^◌, ◌≤◌, ◌<◌, ◌≡◌, refl, inl, inr, true, not, ◌&&◌}
use mini_win.Base.{Option, none, some, List, [], ◌∷◌, ◌++◌, arith, leb, ◌==◌, if◌then◌else◌}
use mini_win.Base.{Option-cases, length, length-append}
use mini_win.Base.Bits.{bit_and_low, bit_or_join}
use mini_win.Ime.{Ime, Document, idle, preview_of, preview_codepoint, utf8, emit_utf8, commit_of}
use mini_win.Ime.{commit, is_composing, feed_consonant, feed_vowel, feed_key}
use mini_win.Ime.Jamo.{initial_to_simple_final, combine_final, combine_medial}
use mini_win.Ime.Jamo.{consonant_index_for_letter, vowel_index_for_letter, compose_codepoint}
use mini_win.Ime.Invariant.{Fits, IsWellFormed}
use mini_win.Ime.Jamo.Codepoints.{IsHangul, jamo-IsHangul, compose-IsHangul}

-- A reader of three-byte UTF-8 sequences (RFC 3629), independent of the writer: the lead byte
-- 1110xxxx, two bytes 10xxxxxx, no overlong form and no surrogate; `none` on anything else.
abbrev pub decode : List ℕ → Option (List ℕ)
decode [] = some []
decode (a ∷ []) = none
decode (a ∷ b ∷ []) = none
decode (a ∷ b ∷ c ∷ rest) =
    let cp = a % 16 * 4096 + b % 64 * 64 + c % 64 in
    if a / 16 == 14
      && b / 64 == 2
      && c / 64 == 2
      && leb 0x800 cp
      && not (leb 0xd800 cp && leb cp 0xdfff)
    then Option.map (λ cps. cp ∷ cps) (decode rest)
    else none

utf8_as_sums :
    (cp : ℕ)
    → cp < 0x10000
    → utf8 cp ≡ (224 + cp / 4096) ∷ (128 + cp / 64 % 64) ∷ (128 + cp % 64) ∷ []
unfolding utf8
utf8_as_sums cp h = ground (
  arith,
  bit_or_join 4 14 (cp / 4096) (omega arith),
  bit_and_low 6 (cp / 64),
  bit_and_low 6 cp,
  bit_or_join 6 2 (cp / 64 % 64) (omega arith),
  bit_or_join 6 2 (cp % 64) (omega arith),
)

-- A reader of three-byte UTF-8 gives back a written Hangul code point, and then what it reads in
-- the bytes after it.
pub decode-utf8 :
    (cp : ℕ) (rest : List ℕ)
    → IsHangul cp
    → decode (utf8 cp ++ rest) ≡ Option.map (λ cps. cp ∷ cps) (decode rest)
decode-utf8 cp rest (inl h) = rw (utf8_as_sums cp (omega arith)) (ground arith)
decode-utf8 cp rest (inr h) = rw (utf8_as_sums cp (omega arith)) (ground arith)

pub length-utf8 : (cp : ℕ) → length (utf8 cp) ≡ 3
unfolding utf8
length-utf8 cp = refl

-- The buffer holds no more than its capacity, which leaves `*len + 3` below the wrap.
pub record InCapacity (d : Document) : Type 0 where
  pub held : length d.bytes ≤ d.maxlen
  pub no_wrap : d.maxlen + 3 < 2 ^ 32

pub emit-InCapacity : (d : Document) (cp : Option ℕ) → InCapacity d → InCapacity (emit_utf8 d cp).1
unfolding emit_utf8
emit-InCapacity d none c = c
emit-InCapacity d (some cp) c = ground (arith, length-append d.bytes (utf8 cp), length-utf8 cp)

pub emit_room :
    (d : Document) (cp : ℕ)
    → length d.bytes + 3 ≤ d.maxlen
    → d.maxlen < 2 ^ 32
    → emit_utf8 d (some cp) ≡ (true, record d { bytes = d.bytes ++ utf8 cp })
unfolding emit_utf8
emit_room d cp room w = ground arith

commit_of-emit :
    (i m f : Option ℕ) (d : Document) → commit_of i m f d ≡ (emit_utf8 d (preview_of i m f)).1
unfolding commit_of emit_utf8
commit_of-emit none m f d = refl
commit_of-emit (some i) none f d = refl
commit_of-emit (some i) (some m) f d = refl

composed :
    (i m f : ℕ)
    → i < 19
    → m < 21
    → f < 28
    → (cp : ℕ) × (compose_codepoint i m f ≡ some cp) × IsHangul cp
composed i m f hi hm hf = let (e, h) = compose-IsHangul i m f hi hm hf in (_, e, h)

preview-Fits :
    (i m f : Option ℕ)
    → Fits i m f
    → is_composing (record { initial = i; medial = m; final = f }) ≡ true
    → (cp : ℕ) × (preview_of i m f ≡ some cp) × IsHangul cp
unfolding is_composing
preview-Fits none m f w c = cc
preview-Fits (some i) none none w c = jamo-IsHangul i w
preview-Fits (some i) none (some f) w c = absurd w
preview-Fits (some i) (some m) none w c = composed i m 0 w.0 w.1 (omega arith)
preview-Fits (some i) (some m) (some f) w c = composed i m f w.0 w.1 w.3

-- While something is being composed and the buffer has room for three bytes, a commit appends
-- exactly the encoding of the code point that the preview shows, which is a Hangul one, and leaves
-- nothing in progress.
pub commit-preview :
    (ime : Ime)
    → IsWellFormed ime.syllable
    → is_composing ime.syllable ≡ true
    → length ime.document.bytes + 3 ≤ ime.document.maxlen
    → ime.document.maxlen < 2 ^ 32
    → (cp : ℕ) × (preview_codepoint ime.syllable ≡ some cp)
      × IsHangul cp
      × (commit ime ≡ record {
        syllable = idle;
        document = record (ime.document) { bytes = ime.document.bytes ++ utf8 cp };
      })
unfolding commit preview_codepoint
commit-preview ime w c room wrap =
    let (cp, e, h) = preview-Fits s.initial s.medial s.final w c in
    (cp, e, h, rw (c, commit_of-emit s.initial s.medial s.final d, e, emit_room d cp room wrap))
  where
    open ime use {syllable as s, document as d}

commit-InCapacity : (ime : Ime) → InCapacity ime.document → InCapacity (commit ime).document
unfolding commit
commit-InCapacity ime c =
    rw (commit_of-emit s.initial s.medial s.final ime.document) (emit-InCapacity ime.document _ c)
  where
    open ime use {syllable as s}

consonant-InCapacity :
    (cons : ℕ) (i m f : Option ℕ) (ime : Ime)
    → InCapacity ime.document
    → InCapacity (feed_consonant cons i m f ime).document
unfolding feed_consonant
consonant-InCapacity cons none m f ime c = c
consonant-InCapacity cons (some i) none f ime c = commit-InCapacity ime c
consonant-InCapacity cons (some i) (some m) none ime c =
    elim (Option-cases (initial_to_simple_final cons)) [
      | inl e ↦ rw (e, feed_consonant) (commit-InCapacity ime c)
      | inr (f, e) ↦ rw (e, feed_consonant) c
    ]
consonant-InCapacity cons (some i) (some m) (some f) ime c =
    elim (Option-cases (combine_final f cons)) [
      | inl e ↦ rw (e, feed_consonant) (commit-InCapacity ime c)
      | inr (g, e) ↦ rw (e, feed_consonant) c
    ]

vowel-InCapacity :
    (vow : ℕ) (i m f : Option ℕ) (ime : Ime)
    → InCapacity ime.document
    → InCapacity (feed_vowel vow i m f ime).document
unfolding feed_vowel
vowel-InCapacity vow none m f ime c = c
vowel-InCapacity vow (some i) none f ime c = c
vowel-InCapacity vow (some i) (some m) none ime c = elim (Option-cases (combine_medial m vow)) [
  | inl e ↦ rw (e, feed_vowel) (commit-InCapacity ime c)
  | inr (n, e) ↦ rw (e, feed_vowel) c
]
vowel-InCapacity vow (some i) (some m) (some f) ime c = commit-InCapacity _ c

-- No key makes the text outgrow a buffer whose capacity leaves the length sum below the wrap.
pub feed_key-InCapacity :
    (c : ℕ) (ime : Ime) → InCapacity ime.document → InCapacity (feed_key c ime).1.document
unfolding feed_key
feed_key-InCapacity c ime h = elim (Option-cases (consonant_index_for_letter c)) [
  | inr (cons, e) ↦ rw (e, feed_key) (consonant-InCapacity cons _ _ _ ime h)
  | inl e ↦ elim (Option-cases (vowel_index_for_letter c)) [
    | inr (vow, e') ↦ rw (e, e', feed_key) (vowel-InCapacity vow _ _ _ ime h)
    | inl e' ↦ rw (e, e', feed_key) (commit-InCapacity ime h)
  ]
]
