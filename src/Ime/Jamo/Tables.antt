-- ===== src/Ime/Jamo/Tables.antt =====
-- kernel/hangul_ime.h: the ranges of the jamo tables, and how combining finals and handing them
-- back undo one another.
use mathlib.Core.Path.{subst}
use mini_win.Base.{ℕ, ◌<◌, ◌≡◌, refl, ◌≢◌, ◌↔◌, Option, none, some, arith, ltb, Bool, true, ◌&&◌}
use mini_win.Base.{◌==◌, if◌then◌else◌, every_below, every_below_sound, option_eqb, option_eqb-eq}
use mini_win.Ime.Jamo.{consonant_index_for_letter, vowel_index_for_letter, combine_medial}
use mini_win.Ime.Jamo.{combine_final, initial_to_simple_final, split_final_for_handback}

pub consonant-lt : (c : ℕ) {i : ℕ} → consonant_index_for_letter c ≡ some i → i < 19
unfolding consonant_index_for_letter
consonant-lt c e = ground arith

pub vowel-lt : (c : ℕ) {v : ℕ} → vowel_index_for_letter c ≡ some v → v < 21
unfolding vowel_index_for_letter
vowel-lt c e = ground arith

-- No letter is both.
pub vowel-not_consonant :
    (c : ℕ) {v : ℕ} → vowel_index_for_letter c ≡ some v → consonant_index_for_letter c ≡ none
unfolding consonant_index_for_letter vowel_index_for_letter
vowel-not_consonant c e = ground arith

pub combine_medial-lt : (b a : ℕ) {m : ℕ} → combine_medial b a ≡ some m → m < 21
unfolding combine_medial
combine_medial-lt b a e = ground arith

pub combine_final_range :
    (b a : ℕ) {f : ℕ} → combine_final b a ≡ some f → (0 < f) × (f < 28) × (b ≢ 0)
unfolding combine_final
combine_final_range b a e = ground arith

pub combine-split :
    (b a : ℕ) {f : ℕ} → combine_final b a ≡ some f → split_final_for_handback f ≡ (b, some a)
unfolding combine_final split_final_for_handback
combine-split b a e = ground arith

initial_table :
    every_below 19 (λ i. elim (initial_to_simple_final i) [
      | none ↦ true
      | some f ↦
          ltb 0 f
          && ltb f 28
          && option_eqb (split_final_for_handback f).1 (some i)
          && (split_final_for_handback f).0 == 0
    ])
    ≡ true
unfolding every_below initial_to_simple_final split_final_for_handback
initial_table = refl

pub simple_final_range :
    (i : ℕ) {f : ℕ}
    → i < 19
    → initial_to_simple_final i ≡ some f
    → (0 < f) × (f < 28) × (split_final_for_handback f ≡ (0, some i))
simple_final_range i {f} h e = ground (
  arith,
  every_below_sound 19 _ i initial_table h,
  option_eqb-eq (split_final_for_handback f).1 (some i),
)

-- How a final is put together: from the final that a syllable has, 0 for none, and a consonant.
abbrev pub join_final : ℕ → ℕ → Option ℕ
join_final kept c = if kept == 0 then initial_to_simple_final c else combine_final kept c

abbrev joins_to : ℕ × Option ℕ → ℕ → Bool
joins_to (kept, none) f = true
joins_to (kept, some i) f = option_eqb (join_final kept i) (some f)

final_table : every_below 28 (λ f. joins_to (split_final_for_handback f) f) ≡ true
unfolding every_below initial_to_simple_final split_final_for_handback combine_final
final_table = refl

split_beyond : (f : ℕ) {k i : ℕ} → split_final_for_handback f ≡ (k, some i) → f < 28
unfolding split_final_for_handback
split_beyond f e = ground arith

join-split :
    (kept c f : ℕ) → split_final_for_handback f ≡ (kept, some c) → join_final kept c ≡ some f
join-split kept c f e =
    option_eqb-eq (join_final kept c) (some f)
      (subst (λ p. joins_to p f ≡ true) e (every_below_sound 28 _ f final_table (split_beyond f e)))

-- Handing a final back undoes exactly the way it was put together: it leaves `kept` and gives the
-- consonant `c` just when `c` joined to `kept` makes that final.
pub split-join_iff :
    (kept c f : ℕ)
    → c < 19
    → (split_final_for_handback f ≡ (kept, some c)) ↔ (join_final kept c ≡ some f)
split-join_iff kept c f h = (
  join-split kept c f,
  λ e. ground (arith, simple_final_range c {f = f} h, combine-split kept c {f = f}),
)

abbrev pub IsInitial : Option ℕ → Type 0
IsInitial none = ⊥
IsInitial (some i) = i < 19

-- A final of a syllable always has a consonant to hand back.
pub split-IsInitial : (f : ℕ) → 0 < f → f < 28 → IsInitial (split_final_for_handback f).1
unfolding split_final_for_handback
split-IsInitial f h k = ground arith
