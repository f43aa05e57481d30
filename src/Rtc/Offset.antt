-- ===== src/Rtc/Offset.antt =====
-- kernel/rtc.h: rtc_apply_offset.
use native.Mathlib.Decide.{dec_le}
use mini_win.Base.{◌≤◌, ◌∙◌, ◌⊎◌, inl, inr, refl, arith, ℕ, ◌+◌, ◌%◌, ◌≡◌, some}
use mini_win.Base.Int.{sub-add, sub-add-neg, add-add-neg, add-sub, add-neg, ℤ, pos, negsuc, neg_ℤ}
use mini_win.Base.Int.{◌+ℤ◌, ◌-ℤ◌, ◌≤ℤ◌}
use mini_win.Rtc.{Time, apply_offset, compute_weekday, day_after, day_before, moved_date}
use mini_win.Rtc.{moved_hour}
use mini_win.Rtc.Calendar.{IsDate, day_after-weekday, day_before-weekday}

-- A reading with a date of the calendar, its own day of the week, and an hour of the day.
pub record IsReading (t : Time) : Type 0 where
  pub date : IsDate t.year t.month t.day
  pub weekday : compute_weekday t.year t.month t.day ≡ some t.weekday
  pub hour_lo : pos 0 ≤ℤ t.hour
  pub hour_hi : t.hour ≤ℤ pos 23

abbrev moved : Time → ℕ × ℕ × ℕ → ℤ → ℕ → Time
moved t (y, m, d) h w = record t { hour = h; day = d; month = m; year = y; weekday = w }

-- Where adding the offset leaves the hour: past the day, before it, or in it.
zones : (h : ℤ) → (pos 24 ≤ℤ h) ⊎ ((h ≤ℤ negsuc 0) ⊎ ((pos 0 ≤ℤ h) × (h ≤ℤ pos 23)))
zones (negsuc n) = inr (inl (omega arith))
zones (pos n) = elim (dec_le 24 n) [
  | yes h ↦ inl (omega arith)
  | no h ↦ inr (inr (omega arith, omega arith))
]

-- The result, from the date and the day of the week that it has.
apply_offset-moved :
    (t : Time) (o : ℤ) (h : ℤ) {y m d w : ℕ}
    → moved_date t (t.hour +ℤ o) ≡ some (y, m, d)
    → compute_weekday y m d ≡ some w
    → moved_hour (t.hour +ℤ o) ≡ h
    → apply_offset t o ≡ some (moved t (y, m, d) h w)
unfolding apply_offset
apply_offset-moved t o h e f g = rw (e, f, g) refl

date_past : (t : Time) (h : ℤ) → pos 24 ≤ℤ h → moved_date t h ≡ day_after t.year t.month t.day
unfolding moved_date
date_past t h past = ground arith

hour_past : (h : ℤ) → pos 24 ≤ℤ h → moved_hour h ≡ h -ℤ pos 24
unfolding moved_hour
hour_past h past = ground arith

date_before : (t : Time) (h : ℤ) → h ≤ℤ negsuc 0 → moved_date t h ≡ day_before t.year t.month t.day
unfolding moved_date
date_before t h before = ground arith

hour_before : (h : ℤ) → h ≤ℤ negsuc 0 → moved_hour h ≡ h +ℤ pos 24
unfolding moved_hour
hour_before h before = ground arith

date_within :
    (t : Time) (h : ℤ) → pos 0 ≤ℤ h → h ≤ℤ pos 23 → moved_date t h ≡ some (t.year, t.month, t.day)
unfolding moved_date
date_within t h lo hi = ground arith

hour_within : (h : ℤ) → pos 0 ≤ℤ h → h ≤ℤ pos 23 → moved_hour h ≡ h
unfolding moved_hour
hour_within h lo hi = ground arith

-- How a reading `t'` is `t` with an offset added: the hour is one of the day, and counts from the
-- midnight that begins the date of `t`, that date's next one, or the one before.
pub data Shifted (t : Time) (o : ℤ) : Time → Type 0 where
  next :
      {y m d : ℕ} {h : ℤ}
      → day_after t.year t.month t.day ≡ some (y, m, d)
      → h +ℤ pos 24 ≡ t.hour +ℤ o
      → Shifted t o (moved t (y, m, d) h ((t.weekday + 1) % 7))
  previous :
      {y m d : ℕ} {h : ℤ}
      → day_before t.year t.month t.day ≡ some (y, m, d)
      → h ≡ t.hour +ℤ o +ℤ pos 24
      → Shifted t o (moved t (y, m, d) h ((t.weekday + 6) % 7))
  same : {h : ℤ} → h ≡ t.hour +ℤ o → Shifted t o (record t { hour = h })

-- What a reading shifted by an offset has, with the way back.
abbrev Answer : Time → ℤ → Type 0
Answer t o =
    (t' : Time) × (apply_offset t o ≡ some t')
    × Shifted t o t'
    × (pos 0 ≤ℤ t'.hour)
    × (t'.hour ≤ℤ pos 23)
    × (apply_offset t' (neg_ℤ o) ≡ some t)

-- The bounds of the hour in each zone, over plain integers.
past_bounds :
    (h o : ℤ)
    → h ≤ℤ pos 23
    → o ≤ℤ pos 24
    → pos 24 ≤ℤ h +ℤ o
    → (pos 0 ≤ℤ h +ℤ o -ℤ pos 24) × (h +ℤ o -ℤ pos 24 ≤ℤ pos 23) × (h -ℤ pos 24 ≤ℤ negsuc 0)
past_bounds h o a b c = (ground arith, ground arith, ground arith)

before_bounds :
    (h o : ℤ)
    → pos 0 ≤ℤ h
    → negsuc 23 ≤ℤ o
    → h +ℤ o ≤ℤ negsuc 0
    → (pos 0 ≤ℤ h +ℤ o +ℤ pos 24) × (h +ℤ o +ℤ pos 24 ≤ℤ pos 23) × (pos 24 ≤ℤ h +ℤ pos 24)
before_bounds h o a b c = (ground arith, ground arith, ground arith)

Answer-past : (t : Time) (o : ℤ) → IsReading t → o ≤ℤ pos 24 → pos 24 ≤ℤ t.hour +ℤ o → Answer t o
Answer-past t o r hi past =
    let (y, m, d, e, f, g) = day_after-weekday r.date r.weekday in
    let h = t.hour +ℤ o -ℤ pos 24 in
    let (a, b, c) = past_bounds t.hour o r.hour_hi hi past in
    (
      moved t (y, m, d) h ((t.weekday + 1) % 7),
      apply_offset-moved t o h (date_past t (t.hour +ℤ o) past ∙ e) f
          (hour_past (t.hour +ℤ o) past),
      next e (sub-add (t.hour +ℤ o) 24),
      a,
      b,
      apply_offset-moved (moved t (y, m, d) h ((t.weekday + 1) % 7)) (neg_ℤ o) t.hour
          (rw (sub-add-neg t.hour o (pos 24))
            (date_before (moved t (y, m, d) h ((t.weekday + 1) % 7)) (t.hour -ℤ pos 24) c ∙ g))
          r.weekday
          (rw (sub-add-neg t.hour o (pos 24))
            (hour_before (t.hour -ℤ pos 24) c ∙ sub-add t.hour 24)),
    )

Answer-before :
    (t : Time) (o : ℤ)
    → IsReading t
    → 2 ≤ t.year
    → negsuc 23 ≤ℤ o
    → t.hour +ℤ o ≤ℤ negsuc 0
    → Answer t o
Answer-before t o r late lo before =
    let (y, m, d, e, f, g) = day_before-weekday r.date late r.weekday in
    let h = t.hour +ℤ o +ℤ pos 24 in
    let (a, b, c) = before_bounds t.hour o r.hour_lo lo before in
    (
      moved t (y, m, d) h ((t.weekday + 6) % 7),
      apply_offset-moved t o h (date_before t (t.hour +ℤ o) before ∙ e) f
          (hour_before (t.hour +ℤ o) before),
      previous e refl,
      a,
      b,
      apply_offset-moved (moved t (y, m, d) h ((t.weekday + 6) % 7)) (neg_ℤ o) t.hour
          (rw (add-add-neg t.hour o 24)
            (date_past (moved t (y, m, d) h ((t.weekday + 6) % 7)) (t.hour +ℤ pos 24) c ∙ g))
          r.weekday
          (rw (add-add-neg t.hour o 24) (hour_past (t.hour +ℤ pos 24) c ∙ add-sub t.hour 24)),
    )

Answer-within :
    (t : Time) (o : ℤ) → IsReading t → pos 0 ≤ℤ t.hour +ℤ o → t.hour +ℤ o ≤ℤ pos 23 → Answer t o
Answer-within t o r lo hi =
    let h = t.hour +ℤ o in
    (
      record t { hour = h },
      apply_offset-moved t o h (date_within t h lo hi) r.weekday (hour_within h lo hi),
      same refl,
      lo,
      hi,
      apply_offset-moved (record t { hour = h }) (neg_ℤ o) t.hour
          (rw (add-neg t.hour o) (date_within (record t { hour = h }) t.hour r.hour_lo r.hour_hi))
          r.weekday (rw (add-neg t.hour o) (hour_within t.hour r.hour_lo r.hour_hi)),
    )

-- Adding an offset of at most a day to a reading of the year 2 or later gives a reading shifted by
-- that offset, whose hour is one of the day, and subtracting the offset gives the reading back.
pub apply_offset_lem :
    (t : Time) (o : ℤ)
    → IsReading t
    → 2 ≤ t.year
    → negsuc 23 ≤ℤ o
    → o ≤ℤ pos 24
    → (t' : Time) × (apply_offset t o ≡ some t')
      × Shifted t o t'
      × (pos 0 ≤ℤ t'.hour)
      × (t'.hour ≤ℤ pos 23)
      × (apply_offset t' (neg_ℤ o) ≡ some t)
apply_offset_lem t o r late lo hi = elim (zones (t.hour +ℤ o)) [
  | inl past ↦ Answer-past t o r hi past
  | inr (inl before) ↦ Answer-before t o r late lo before
  | inr (inr (a, b)) ↦ Answer-within t o r a b
]
