-- ===== src/Ime.antt =====
-- kernel/hangul_ime.h: the 2-beolsik composition automaton and the text that it writes to.
-- The three static variables are a record that is passed on, the document buffer is the list of
-- its first `len` bytes with its capacity.
pub mod Jamo
pub mod Invariant
pub mod Text
pub mod Spelling
pub mod Handback
pub mod Typing
mod Tests
use mini_win.Base.{ℕ, ◌+◌, ◌/◌, ◌%◌, ◌^◌, bit_or, bit_and, Bool, true, false, Option, none, some}
use mini_win.Base.{List, [], ◌∷◌, ◌++◌, ltb, ◌==◌, if◌then◌else◌, length}
use Jamo.{consonant_index_for_letter, vowel_index_for_letter, combine_medial, combine_final}
use Jamo.{initial_to_simple_final, split_final_for_handback, ieung, compose_codepoint}
use Jamo.{jamo_codepoint_for_initial}

-- ko_cur_initial, ko_cur_medial, ko_cur_final
pub record Syllable : Type 0 where
  pub initial : Option ℕ
  pub medial : Option ℕ
  pub final : Option ℕ

pub record Document : Type 0 where
  pub bytes : List ℕ
  pub maxlen : ℕ

pub record Ime : Type 0 where
  pub syllable : Syllable
  pub document : Document

abbrev pub idle : Syllable
idle = record { initial = none; medial = none; final = none }

pub is_composing : Syllable → Bool
is_composing s = elim (s.initial) [ none ↦ false | some _ ↦ true ]

-- `(ko_cur_final == -1) ? 0 : ko_cur_final`
abbrev pub final_or_zero : Option ℕ → ℕ
final_or_zero none = 0
final_or_zero (some f) = f

abbrev pub preview_of : Option ℕ → Option ℕ → Option ℕ → Option ℕ
preview_of none m f = none
preview_of (some i) none f = jamo_codepoint_for_initial i
preview_of (some i) (some m) f = compose_codepoint i m (final_or_zero f)

pub preview_codepoint : Syllable → Option ℕ
preview_codepoint s = preview_of s.initial s.medial s.final

-- The three bytes, each cut to a `char`.
pub utf8 : ℕ → List ℕ
utf8 cp =
    bit_or 0xe0 (cp / 2 ^ 12) % 256
    ∷ bit_or 0x80 (bit_and (cp / 2 ^ 6) 0x3f) % 256
    ∷ bit_or 0x80 (bit_and cp 0x3f) % 256
    ∷ []

-- ko_emit_utf8: `*len + 3` is a `u32` sum.
pub emit_utf8 : Document → Option ℕ → Bool × Document
emit_utf8 d none = (false, d)
emit_utf8 d (some cp) =
    if ltb d.maxlen ((length d.bytes + 3) % 2 ^ 32)
    then (false, d)
    else (true, record d { bytes = d.bytes ++ utf8 cp })

commit_of : Option ℕ → Option ℕ → Option ℕ → Document → Document
commit_of none m f d = d
commit_of (some i) none f d = (emit_utf8 d (jamo_codepoint_for_initial i)).1
commit_of (some i) (some m) f d = (emit_utf8 d (compose_codepoint i m (final_or_zero f))).1

-- ko_ime_commit: with no initial it returns before the reset.
pub commit : Ime → Ime
unfolding commit_of is_composing
commit ime = record {
  syllable = if is_composing s then idle else s;
  document = commit_of s.initial s.medial s.final ime.document;
}
  where
    open ime use {syllable as s}

-- An initial, or an initial and a medial, on a syllable that has nothing else.
abbrev pub started : ℕ → Syllable
started i = record { initial = some i; medial = none; final = none }

abbrev pub voiced : ℕ → ℕ → Syllable
voiced i m = record { initial = some i; medial = some m; final = none }

-- The branches of a consonant key, by what the syllable has. `commit` leaves medial and final at
-- -1 where there was an initial, so that the second branch need not reset them.
pub feed_consonant : ℕ → Option ℕ → Option ℕ → Option ℕ → Ime → Ime
feed_consonant cons none m f ime = record ime { syllable = started cons }
feed_consonant cons (some i) none f ime =
    let done = commit ime in
    record done { syllable = record (done.syllable) { initial = some cons } }
feed_consonant cons (some i) (some m) none ime = elim (initial_to_simple_final cons) [
  | none ↦ record (commit ime) { syllable = started cons }
  | some simple ↦ record ime { syllable = record (ime.syllable) { final = some simple } }
]
feed_consonant cons (some i) (some m) (some f) ime = elim (combine_final f cons) [
  | some combined ↦ record ime { syllable = record (ime.syllable) { final = some combined } }
  | none ↦ record (commit ime) { syllable = started cons }
]

-- The branches of a vowel key. In the last one the tentative final is handed back: the syllable is
-- committed with what it keeps, and the rest starts the next one.
pub feed_vowel : ℕ → Option ℕ → Option ℕ → Option ℕ → Ime → Ime
feed_vowel vow none m f ime = record ime { syllable = voiced ieung vow }
feed_vowel vow (some i) none f ime = record ime {
  syllable = record (ime.syllable) { medial = some vow };
}
feed_vowel vow (some i) (some m) none ime = elim (combine_medial m vow) [
  | some combined ↦ record ime { syllable = record (ime.syllable) { medial = some combined } }
  | none ↦ record (commit ime) { syllable = voiced ieung vow }
]
feed_vowel vow (some i) (some m) (some f) ime =
    let (kept, new_initial) = split_final_for_handback f in
    let kept_final : Option ℕ = if kept == 0 then none else some kept in
    let done = commit (record ime { syllable = record (ime.syllable) { final = kept_final } }) in
    record done { syllable = record { initial = new_initial; medial = some vow; final = none } }

-- ko_ime_feed_key: whether the key was consumed, and what it did.
pub feed_key : ℕ → Ime → Bool × Ime
unfolding feed_consonant feed_vowel
feed_key c ime = elim (consonant_index_for_letter c) [
  | some cons ↦ (true, feed_consonant cons s.initial s.medial s.final ime)
  | none ↦ elim (vowel_index_for_letter c) [
    | some vow ↦ (true, feed_vowel vow s.initial s.medial s.final ime)
    | none ↦ (false, commit ime)
  ]
]
  where
    open ime use {syllable as s}

-- A key pressed after another, as the editor feeds them; the results are not looked at.
pub feed_keys : List ℕ → Ime → Ime
feed_keys [] ime = ime
feed_keys (c ∷ cs) ime = feed_keys cs (feed_key c ime).1

backspace_of : Option ℕ → Option ℕ → Option ℕ → Bool × Syllable
backspace_of i m (some f) = (true, record { initial = i; medial = m; final = none })
backspace_of i (some m) none = (true, record { initial = i; medial = none; final = none })
backspace_of (some i) none none = (true, idle)
backspace_of none none none = (false, idle)

-- ko_ime_backspace
pub backspace : Syllable → Bool × Syllable
unfolding backspace_of
backspace s = backspace_of s.initial s.medial s.final
