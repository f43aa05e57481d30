-- ===== src/Rtc/Stamp.antt =====
-- kernel/rtc.h: rtc_dos_stamp, the packed time stamp of a file.
use mini_win.Base.{false, ◌||◌, ltb, ℕ, ◌+◌, ◌-◌, ◌*◌, ◌/◌, ◌%◌, ◌^◌, ◌≤◌, ◌<◌, bit_or, ◌≡◌, refl}
use mini_win.Base.{ap, ◌∙◌, arith}
use mini_win.Base.Int.{pos_part}
use mini_win.Base.Bits.{bit_or_join}
use mini_win.Rtc.{Time, dos_stamp}

-- A reading whose date the stamp can hold, with an hour, a minute and a second of a clock.
pub record IsStampable (t : Time) : Type 0 where
  pub year_lo : 2000 ≤ t.year
  pub year_hi : t.year ≤ 2107
  pub month_lo : 1 ≤ t.month
  pub month_hi : t.month ≤ 12
  pub day_lo : 1 ≤ t.day
  pub day_hi : t.day ≤ 31
  pub hour_hi : pos_part t.hour < 24
  pub minute_hi : t.minute < 60
  pub second_hi : t.second < 60

-- The stamp as a sum of its fields.
abbrev packed : ℕ → ℕ → ℕ → ℕ → ℕ → ℕ → ℕ
packed y m d h mi s = y * 2 ^ 25 + m * 2 ^ 21 + d * 2 ^ 16 + h * 2 ^ 11 + mi * 2 ^ 5 + s

or_packed :
    (y m d h mi s : ℕ)
    → m < 2 ^ 4
    → d < 2 ^ 5
    → h < 2 ^ 5
    → mi < 2 ^ 6
    → s < 2 ^ 5
    → bit_or
        (bit_or
          (bit_or (bit_or (bit_or (y * 2 ^ 25) (m * 2 ^ 21)) (d * 2 ^ 16)) (h * 2 ^ 11))
          (mi * 2 ^ 5))
        s
      ≡ packed y m d h mi s
or_packed y m d h mi s a b c e f = rw (one, two, three, four, five) refl
  where
    one : bit_or (y * 2 ^ 25) (m * 2 ^ 21) ≡ 2 ^ 21 * (y * 2 ^ 4 + m)
    one =
        ap (λ x. bit_or x (m * 2 ^ 21)) (omega arith)
        ∙ bit_or_join 25 y (m * 2 ^ 21) (omega arith)
        ∙ omega arith

    two : bit_or (2 ^ 21 * (y * 2 ^ 4 + m)) (d * 2 ^ 16) ≡ 2 ^ 16 * ((y * 2 ^ 4 + m) * 2 ^ 5 + d)
    two = bit_or_join 21 (y * 2 ^ 4 + m) (d * 2 ^ 16) (omega arith) ∙ omega arith

    three :
        bit_or (2 ^ 16 * ((y * 2 ^ 4 + m) * 2 ^ 5 + d)) (h * 2 ^ 11)
        ≡ 2 ^ 11 * (((y * 2 ^ 4 + m) * 2 ^ 5 + d) * 2 ^ 5 + h)
    three = bit_or_join 16 ((y * 2 ^ 4 + m) * 2 ^ 5 + d) (h * 2 ^ 11) (omega arith) ∙ omega arith

    four :
        bit_or (2 ^ 11 * (((y * 2 ^ 4 + m) * 2 ^ 5 + d) * 2 ^ 5 + h)) (mi * 2 ^ 5)
        ≡ 2 ^ 5 * ((((y * 2 ^ 4 + m) * 2 ^ 5 + d) * 2 ^ 5 + h) * 2 ^ 6 + mi)
    four =
        bit_or_join 11 (((y * 2 ^ 4 + m) * 2 ^ 5 + d) * 2 ^ 5 + h) (mi * 2 ^ 5) (omega arith)
        ∙ omega arith

    five :
        bit_or (2 ^ 5 * ((((y * 2 ^ 4 + m) * 2 ^ 5 + d) * 2 ^ 5 + h) * 2 ^ 6 + mi)) s
        ≡ packed y m d h mi s
    five =
        bit_or_join 5 ((((y * 2 ^ 4 + m) * 2 ^ 5 + d) * 2 ^ 5 + h) * 2 ^ 6 + mi) s (omega arith)
        ∙ omega arith

dos_stamp-packed :
    (t : Time)
    → IsStampable t
    → dos_stamp t ≡ packed (t.year - 1980) t.month t.day (pos_part t.hour) t.minute (t.second / 2)
unfolding dos_stamp
dos_stamp-packed t v =
    rw
      (
        in_range,
        small ((t.year - 1980) * 2 ^ 25) year_small,
        small (t.month * 2 ^ 21) month_small,
        small (t.day * 2 ^ 16) day_small,
        small (pos_part t.hour * 2 ^ 11) hour_small,
        small (t.minute * 2 ^ 5) minute_small,
      )
      (or_packed (t.year - 1980) t.month t.day (pos_part t.hour) t.minute (t.second / 2)
        (omega arith) (omega arith) (omega arith) (omega arith) (omega arith))
  where
    in_range :
        (ltb t.year 2000
          || ltb 2107 t.year
          || ltb t.month 1
          || ltb 12 t.month
          || ltb t.day 1
          || ltb 31 t.day)
        ≡ false
    in_range = ground arith

    small : (x : ℕ) → x < 2 ^ 32 → x % 2 ^ 32 ≡ x
    small x h = omega arith

    year_small : (t.year - 1980) * 2 ^ 25 < 2 ^ 32
    year_small = omega arith

    month_small : t.month * 2 ^ 21 < 2 ^ 32
    month_small = omega arith

    day_small : t.day * 2 ^ 16 < 2 ^ 32
    day_small = omega arith

    hour_small : pos_part t.hour * 2 ^ 11 < 2 ^ 32
    hour_small = omega arith

    minute_small : t.minute * 2 ^ 5 < 2 ^ 32
    minute_small = omega arith

-- Unpacking the stamp of a stampable reading by the places of its fields gives the reading's date,
-- hour and minute, and its second halved; the stamp fits a `u32` and is not the 0 of an unusable
-- clock.
pub dos_stamp-fields :
    (t : Time)
    → IsStampable t
    → (dos_stamp t / 2 ^ 25 + 1980 ≡ t.year)
      × (dos_stamp t / 2 ^ 21 % 2 ^ 4 ≡ t.month)
      × (dos_stamp t / 2 ^ 16 % 2 ^ 5 ≡ t.day)
      × (dos_stamp t / 2 ^ 11 % 2 ^ 5 ≡ pos_part t.hour)
      × (dos_stamp t / 2 ^ 5 % 2 ^ 6 ≡ t.minute)
      × (dos_stamp t % 2 ^ 5 ≡ t.second / 2)
      × (0 < dos_stamp t)
      × (dos_stamp t < 2 ^ 32)
dos_stamp-fields t v = rw (dos_stamp-packed t v) (
  omega arith,
  omega arith,
  omega arith,
  omega arith,
  omega arith,
  omega arith,
  omega arith,
  omega arith,
)
