-- ===== src/Ime/Typing.antt =====
-- kernel/hangul_ime.h: whole words. Typing the jamo of a text, syllable by syllable, writes that
-- text: what the automaton combines too early it hands back when the next vowel comes.
use mini_win.Base.{false, ◌+◌, ◌*◌, ◌^◌, ◌≤◌, ap, append_assoc, append-nil, length, length-append}
use mini_win.Base.{suc, ◌<◌, arith, ℕ, ◌≡◌, ◌∙◌, some, List, ◌∷◌, ◌++◌}
use mini_win.Ime.{emit_utf8, commit_of, commit, is_composing, idle, Ime, Document, utf8}
use mini_win.Ime.{feed_consonant, feed_keys}
use mini_win.Ime.Text.{emit_room, length-utf8}
use mini_win.Ime.Jamo.{consonant_index_for_letter, compose_codepoint}
use mini_win.Ime.Spelling.{Vowels, Spells, end, next, encode, whole, feed_keys-append}
use mini_win.Ime.Spelling.{feed_keys_one, feed_keys_none, key_of_consonant, vowels_lem, coda_lem}
use mini_win.Ime.Spelling.{final_or_zero_of}
use mini_win.Ime.Handback.{flushed, lead-Vowels}

-- Room for `n` more syllables, and no wrap of the length.
abbrev pub HasRoom : ℕ → Document → Type 0
HasRoom n d = (length d.bytes + 3 * n ≤ d.maxlen) × (d.maxlen < 2 ^ 32)

abbrev extend : Document → List ℕ → Document
extend d bs = record d { bytes = d.bytes ++ bs }

flushed_room :
    (i m f n : ℕ) {cp : ℕ} (d : Document)
    → compose_codepoint i m f ≡ some cp
    → HasRoom (suc n) d
    → flushed i m f d ≡ extend d (utf8 cp)
flushed_room i m f n {cp} d e room =
    ap (λ o. (emit_utf8 d o).1) e ∙ ap (λ p. p.1) (emit_room d cp (omega arith) room.1)

commit-whole : (i m f : ℕ) (d : Document) → (commit (whole i m f d)).document ≡ flushed i m f d
unfolding commit commit_of
commit-whole i m f d = rw (final_or_zero_of f)

HasRoom-extend : (n cp : ℕ) (d : Document) → HasRoom (suc n) d → HasRoom n (extend d (utf8 cp))
HasRoom-extend n cp d room = omega (arith, length-append d.bytes (utf8 cp), length-utf8 cp)

-- Typing on after a whole syllable.
Spells-after :
    {keys cps : List ℕ} (i m f : ℕ) {cp : ℕ} (d : Document)
    → compose_codepoint i m f ≡ some cp
    → Spells keys cps
    → HasRoom (suc (length cps)) d
    → (commit (feed_keys keys (whole i m f d))).document ≡ extend d (encode (cp ∷ cps))
Spells-after i m f {cp} d e end room =
    rw (feed_keys_none, commit-whole, flushed_room i m f 0 d e room, append-nil)
Spells-after {keys} i m f {cp} d e
      (next {k = k} {i = j} {m = n} {f = g} {cp = cq} {vs = vs} {cs = cs} {rest = rest} {cps = cps}
        ek v c eq s eks)
      room =
    rw
      (
        eks,
        feed_keys-append (k ∷ vs) (cs ++ rest),
        lead-Vowels i m f k d ek v,
        flushed_room i m f (suc (length cps)) d e room,
        feed_keys-append cs rest,
        coda_lem j n (extend d (utf8 cp)) c,
      )
      (Spells-after j n g (extend d (utf8 cp)) eq s (HasRoom-extend (suc (length cps)) cp d room)
        ∙ ap (λ bs. record d { bytes = bs }) (append_assoc d.bytes (utf8 cp) (encode (cq ∷ cps))))

first-Vowels :
    {vs : List ℕ} {n : ℕ} (k : ℕ) {c : ℕ} (d : Document)
    → consonant_index_for_letter k ≡ some c
    → Vowels vs n
    → feed_keys (k ∷ vs) (record { syllable = idle; document = d }) ≡ whole c n 0 d
unfolding feed_consonant
first-Vowels k {c} d e v = rw (feed_keys_one, key_of_consonant k _ e) (vowels_lem c d v)

commit-not_composing : (ime : Ime) → is_composing (commit ime).syllable ≡ false
unfolding commit is_composing
commit-not_composing ime = ground arith

document_typed :
    {keys cps : List ℕ} (d : Document)
    → Spells keys cps
    → HasRoom (length cps) d
    → (commit (feed_keys keys (record { syllable = idle; document = d }))).document
      ≡ extend d (encode cps)
unfolding commit commit_of
document_typed d end room = rw (feed_keys_none, append-nil)
document_typed d
      (next {k = k} {i = j} {m = n} {f = g} {cp = cq} {vs = vs} {cs = cs} {rest = rest} {cps = cps}
        ek v c eq s eks)
      room =
    rw
      (
        eks,
        feed_keys-append (k ∷ vs) (cs ++ rest),
        first-Vowels k d ek v,
        feed_keys-append cs rest,
        coda_lem j n d c,
      )
      (Spells-after j n g d eq s room)

-- Typing the keys that spell a text of whole syllables, from a state with nothing in progress, and
-- then committing writes exactly the encoding of that text and leaves nothing in progress, if the
-- buffer has room for it.
pub feed_keys-encode :
    {keys cps : List ℕ} (d : Document)
    → Spells keys cps
    → HasRoom (length cps) d
    → let after = commit (feed_keys keys (record { syllable = idle; document = d })) in
      (after.document ≡ record d { bytes = d.bytes ++ encode cps })
      × (is_composing after.syllable ≡ false)
feed_keys-encode d s room = (document_typed d s room, commit-not_composing _)
