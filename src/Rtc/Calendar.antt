-- ===== src/Rtc/Calendar.antt =====
-- kernel/rtc.h: the day of the week follows the calendar, and the two date steps undo one another.
use native.Mathlib.Decide.{dec_le}
use mini_win.Base.{◌≢◌, ◌⊎◌, subst, sym, ap, ◌∙◌, inl, inr, Option-cases, ℕ, zero, suc, ◌+◌, ◌%◌}
use mini_win.Base.{◌≤◌, ◌≡◌, Option, none, some, arith}
use mini_win.Rtc.{compute_weekday, days_in_month, is_leap_year, day_after, day_before, ◌>>=◌}

-- A property of the months is one of each month.
by_month {ℓ} :
    (P : ℕ → Type ℓ)
    → P 1
    → P 2
    → P 3
    → P 4
    → P 5
    → P 6
    → P 7
    → P 8
    → P 9
    → P 10
    → P 11
    → P 12
    → (m : ℕ) → 1 ≤ m
    → m ≤ 12
    → P m
by_month P a b c d e f g h i j k l zero lo hi = absurd (omega arith)
by_month P a b c d e f g h i j k l (suc zero) lo hi = a
by_month P a b c d e f g h i j k l (suc (suc zero)) lo hi = b
by_month P a b c d e f g h i j k l (suc (suc (suc zero))) lo hi = c
by_month P a b c d e f g h i j k l (suc (suc (suc (suc zero)))) lo hi = d
by_month P a b c d e f g h i j k l (suc (suc (suc (suc (suc zero))))) lo hi = e
by_month P a b c d e f g h i j k l (suc (suc (suc (suc (suc (suc zero)))))) lo hi = f
by_month P a b c d e f g h i j k l (suc (suc (suc (suc (suc (suc (suc zero))))))) lo hi = g
by_month P a b c d e f g h i j k l (suc (suc (suc (suc (suc (suc (suc (suc zero)))))))) lo hi = h
by_month P a b c d e f g h i j k l (suc (suc (suc (suc (suc (suc (suc (suc (suc zero))))))))) lo
      hi =
    i
by_month P a b c d e f g h i j k l (suc (suc (suc (suc (suc (suc (suc (suc (suc (suc zero))))))))))
      lo hi =
    j
by_month P a b c d e f g h i j k l
      (suc (suc (suc (suc (suc (suc (suc (suc (suc (suc (suc zero))))))))))) lo hi =
    k
by_month P a b c d e f g h i j k l
      (suc (suc (suc (suc (suc (suc (suc (suc (suc (suc (suc (suc zero)))))))))))) lo hi =
    l
by_month P a b c d e f g h i j k l
      (suc (suc (suc (suc (suc (suc (suc (suc (suc (suc (suc (suc (suc n))))))))))))) lo hi =
    absurd (omega arith)

-- A day of the proleptic Gregorian calendar from the year 1 on.
pub record IsDate (y m d : ℕ) : Type 0 where
  pub year : 1 ≤ y
  pub month_lo : 1 ≤ m
  pub month_hi : m ≤ 12
  pub day_lo : 1 ≤ d
  pub last : ℕ
  pub length : days_in_month y m ≡ some last
  pub day_hi : d ≤ last

abbrev pub weekday_of : Option (ℕ × ℕ × ℕ) → Option ℕ
weekday_of none = none
weekday_of (some (y, m, d)) = compute_weekday y m d

abbrev Follows : ℕ → Type 0
Follows m =
    (y d last : ℕ)
    → 1 ≤ y
    → days_in_month y m ≡ some last
    → d ≤ last
    → weekday_of (day_after y m d) ≡ (compute_weekday y m d >>= λ w. some ((w + 1) % 7))

follows : (m : ℕ) → 1 ≤ m → m ≤ 12 → Follows m
unfolding compute_weekday days_in_month is_leap_year day_after
follows =
    by_month Follows (λ y d last h e le. ground arith) (λ y d last h e le. ground arith)
      (λ y d last h e le. ground arith) (λ y d last h e le. ground arith)
      (λ y d last h e le. ground arith) (λ y d last h e le. ground arith)
      (λ y d last h e le. ground arith) (λ y d last h e le. ground arith)
      (λ y d last h e le. ground arith) (λ y d last h e le. ground arith)
      (λ y d last h e le. ground arith) (λ y d last h e le. ground arith)

-- From a date to the next, by the calendar's lengths of months and leap years, the day of the week
-- goes on by one.
pub compute_weekday-day_after :
    (y m d : ℕ)
    → IsDate y m d
    → weekday_of (day_after y m d) ≡ (compute_weekday y m d >>= λ w. some ((w + 1) % 7))
compute_weekday-day_after y m d v =
    follows m v.month_lo v.month_hi y d v.last v.year v.length v.day_hi

abbrev Returns : ℕ → Type 0
Returns m =
    (y d last : ℕ)
    → 1 ≤ y
    → 1 ≤ d
    → days_in_month y m ≡ some last
    → d ≤ last
    → (day_after y m d >>= λ (y', m', d'). day_before y' m' d') ≡ some (y, m, d)

returns : (m : ℕ) → 1 ≤ m → m ≤ 12 → Returns m
unfolding days_in_month is_leap_year day_after day_before
returns =
    by_month Returns (λ y d last h k e le. ground arith) (λ y d last h k e le. ground arith)
      (λ y d last h k e le. ground arith) (λ y d last h k e le. ground arith)
      (λ y d last h k e le. ground arith) (λ y d last h k e le. ground arith)
      (λ y d last h k e le. ground arith) (λ y d last h k e le. ground arith)
      (λ y d last h k e le. ground arith) (λ y d last h k e le. ground arith)
      (λ y d last h k e le. ground arith) (λ y d last h k e le. ground arith)

-- Going back a day undoes going on a day.
pub day_before-day_after :
    (y m d : ℕ)
    → IsDate y m d
    → (day_after y m d >>= λ (y', m', d'). day_before y' m' d') ≡ some (y, m, d)
day_before-day_after y m d v =
    returns m v.month_lo v.month_hi y d v.last v.year v.day_lo v.length v.day_hi

abbrev Resumes : ℕ → Type 0
Resumes m =
    (y d last : ℕ)
    → 2 ≤ y
    → 1 ≤ d
    → days_in_month y m ≡ some last
    → d ≤ last
    → (day_before y m d >>= λ (y', m', d'). day_after y' m' d') ≡ some (y, m, d)

resumes : (m : ℕ) → 1 ≤ m → m ≤ 12 → Resumes m
unfolding days_in_month is_leap_year day_after day_before
resumes =
    by_month Resumes (λ y d last h k e le. ground arith) (λ y d last h k e le. ground arith)
      (λ y d last h k e le. ground arith) (λ y d last h k e le. ground arith)
      (λ y d last h k e le. ground arith) (λ y d last h k e le. ground arith)
      (λ y d last h k e le. ground arith) (λ y d last h k e le. ground arith)
      (λ y d last h k e le. ground arith) (λ y d last h k e le. ground arith)
      (λ y d last h k e le. ground arith) (λ y d last h k e le. ground arith)

abbrev Precedes : ℕ → Type 0
Precedes m =
    (y d last : ℕ)
    → 2 ≤ y
    → 1 ≤ d
    → days_in_month y m ≡ some last
    → d ≤ last
    → weekday_of (day_before y m d) ≡ (compute_weekday y m d >>= λ w. some ((w + 6) % 7))

february_length :
    (y : ℕ)
    → ((days_in_month y 2 ≡ some 29) × (y % 4 ≡ 0) × ((y % 100 ≡ 0) → y % 400 ≡ 0))
      ⊎ ((days_in_month y 2 ≡ some 28) × ((y % 4 ≢ 0) ⊎ ((y % 100 ≡ 0) × (y % 400 ≢ 0))))
unfolding days_in_month is_leap_year
february_length y = ground arith

march_first :
    (y : ℕ)
    → 2 ≤ y
    → weekday_of (day_before y 3 1) ≡ (compute_weekday y 3 1 >>= λ w. some ((w + 6) % 7))
unfolding day_before compute_weekday
march_first y h = elim (february_length y) [
  | inl (e, f, g) ↦ rw e (ground arith)
  | inr (e, f) ↦ rw e (ground arith)
]

march-Precedes : Precedes 3
unfolding compute_weekday day_before
march-Precedes y d last h k e le = elim (dec_le 2 d) [
  | yes l ↦ ground arith
  | no l ↦
      subst
        (λ n. weekday_of (day_before y 3 n) ≡ (compute_weekday y 3 n >>= λ w. some ((w + 6) % 7)))
        (omega arith) (march_first y h)
]

precedes : (m : ℕ) → 1 ≤ m → m ≤ 12 → Precedes m
unfolding compute_weekday days_in_month is_leap_year day_before
precedes =
    by_month Precedes (λ y d last h k e le. ground arith) (λ y d last h k e le. ground arith)
      march-Precedes (λ y d last h k e le. ground arith) (λ y d last h k e le. ground arith)
      (λ y d last h k e le. ground arith) (λ y d last h k e le. ground arith)
      (λ y d last h k e le. ground arith) (λ y d last h k e le. ground arith)
      (λ y d last h k e le. ground arith) (λ y d last h k e le. ground arith)
      (λ y d last h k e le. ground arith)

-- The date after a date is there, with the next day of the week; the day before it is the date.
pub day_after-weekday :
    {y m d w : ℕ}
    → IsDate y m d
    → compute_weekday y m d ≡ some w
    → (y' m' d' : ℕ) × (day_after y m d ≡ some (y', m', d'))
      × (compute_weekday y' m' d' ≡ some ((w + 1) % 7))
      × (day_before y' m' d' ≡ some (y, m, d))
day_after-weekday {y} {m} {d} {w} v e = elim (Option-cases (day_after y m d)) [
  | inl e' ↦ cc (ap weekday_of e', follow)
  | inr ((y', m', d'), e') ↦ (
    y',
    m',
    d',
    e',
    sym (ap weekday_of e') ∙ follow,
    sym (ap (λ o. o >>= λ (a, b, c). day_before a b c) e') ∙ day_before-day_after y m d v,
  )
]
  where
    follow : weekday_of (day_after y m d) ≡ some ((w + 1) % 7)
    follow = compute_weekday-day_after y m d v ∙ rw e

-- The date before a date of the year 2 or later is there, with the day of the week before; the day
-- after it is the date.
pub day_before-weekday :
    {y m d w : ℕ}
    → IsDate y m d
    → 2 ≤ y
    → compute_weekday y m d ≡ some w
    → (y' m' d' : ℕ) × (day_before y m d ≡ some (y', m', d'))
      × (compute_weekday y' m' d' ≡ some ((w + 6) % 7))
      × (day_after y' m' d' ≡ some (y, m, d))
day_before-weekday {y} {m} {d} {w} v h e = elim (Option-cases (day_before y m d)) [
  | inl e' ↦ cc (ap weekday_of e', receding)
  | inr ((y', m', d'), e') ↦ (
    y',
    m',
    d',
    e',
    sym (ap weekday_of e') ∙ receding,
    sym (ap (λ o. o >>= λ (a, b, c). day_after a b c) e') ∙ returning,
  )
]
  where
    returning : (day_before y m d >>= λ (y', m', d'). day_after y' m' d') ≡ some (y, m, d)
    returning = resumes m v.month_lo v.month_hi y d v.last h v.day_lo v.length v.day_hi

    receding : weekday_of (day_before y m d) ≡ some ((w + 6) % 7)
    receding = precedes m v.month_lo v.month_hi y d v.last h v.day_lo v.length v.day_hi ∙ rw e
