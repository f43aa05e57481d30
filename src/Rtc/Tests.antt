-- ===== src/Rtc/Tests.antt =====
-- kernel/rtc.h: the theorems at concrete times.
use mini_win.Base.{ℕ, ◌+◌, ◌/◌, ◌%◌, ◌^◌, ◌<◌, ◌≡◌, refl, false, some, arith, ◌==◌, if◌then◌else◌}
use mini_win.Base.Int.{pos, negsuc, ◌≤ℤ◌}
use mini_win.Rtc.{Time, rtc_read, dos_stamp, apply_offset, compute_weekday, days_in_month}
use mini_win.Rtc.{is_leap_year, day_after, ◌>>=◌}
use mini_win.Rtc.Calendar.{IsDate, weekday_of, compute_weekday-day_after}
use mini_win.Rtc.Registers.{Holds, rtc_read_lem}
use mini_win.Rtc.Stamp.{dos_stamp-fields}
use mini_win.Rtc.Offset.{IsReading, Shifted, apply_offset_lem}

-- Thursday 29 February 2024, 23:40:15.
abbrev leap_night : Time
leap_night = record {
  second = 15;
  minute = 40;
  hour = pos 23;
  day = 29;
  month = 2;
  year = 2024;
  weekday = 4;
}

leap_day-IsDate : IsDate 2024 2 29
unfolding days_in_month is_leap_year
leap_day-IsDate = record {
  year = omega arith;
  month_lo = omega arith;
  month_hi = omega arith;
  day_lo = omega arith;
  last = 29;
  length = refl;
  day_hi = omega arith;
}

leap_day-weekday : compute_weekday 2024 2 29 ≡ some 4
unfolding compute_weekday
leap_day-weekday = refl

compute_weekday-day_after_example :
    weekday_of (day_after 2024 2 29) ≡ (compute_weekday 2024 2 29 >>= λ w. some ((w + 1) % 7))
compute_weekday-day_after_example = compute_weekday-day_after 2024 2 29 leap_day-IsDate

leap_night-IsReading : IsReading leap_night
leap_night-IsReading = record {
  date = leap_day-IsDate;
  weekday = leap_day-weekday;
  hour_lo = omega arith;
  hour_hi = omega arith;
}

apply_offset_lem_example :
    (t' : Time) × (apply_offset leap_night (pos 9) ≡ some t')
    × Shifted leap_night (pos 9) t'
    × (pos 0 ≤ℤ t'.hour)
    × (t'.hour ≤ℤ pos 23)
    × (apply_offset t' (negsuc 8) ≡ some leap_night)
apply_offset_lem_example =
    apply_offset_lem leap_night (pos 9) leap_night-IsReading (omega arith) (omega arith)
      (omega arith)

-- The same time in BCD on a 12-hour clock: 11 at night is 11 with the top bit set.
abbrev chip : ℕ → ℕ
chip r =
    if r == 0
    then 0x15
    else if r == 2
    then 0x40
    else if r == 4
    then 0x91
    else if r == 7
    then 0x29
    else if r == 8
    then 0x02
    else if r == 9
    then 0x24
    else 0

chip-Holds : Holds chip leap_night 23
chip-Holds = record {
  is_binary = false;
  is_24hr = false;
  binary = refl;
  full_day = refl;
  second = refl;
  minute = refl;
  hour = refl;
  day = refl;
  month = refl;
  year = omega arith;
  short_year = refl;
}

rtc_read_lem_example : rtc_read chip ≡ some leap_night
rtc_read_lem_example =
    rtc_read_lem chip leap_night 23 chip-Holds (omega arith) refl (omega arith) (omega arith)
      (omega arith) (omega arith) (omega arith) leap_day-weekday

dos_stamp-fields_example :
    (dos_stamp leap_night / 2 ^ 25 + 1980 ≡ 2024)
    × (dos_stamp leap_night / 2 ^ 21 % 2 ^ 4 ≡ 2)
    × (dos_stamp leap_night / 2 ^ 16 % 2 ^ 5 ≡ 29)
    × (dos_stamp leap_night / 2 ^ 11 % 2 ^ 5 ≡ 23)
    × (dos_stamp leap_night / 2 ^ 5 % 2 ^ 6 ≡ 40)
    × (dos_stamp leap_night % 2 ^ 5 ≡ 7)
    × (0 < dos_stamp leap_night)
    × (dos_stamp leap_night < 2 ^ 32)
dos_stamp-fields_example = dos_stamp-fields leap_night (record {
  year_lo = omega arith;
  year_hi = omega arith;
  month_lo = omega arith;
  month_hi = omega arith;
  day_lo = omega arith;
  day_hi = omega arith;
  hour_hi = omega arith;
  minute_hi = omega arith;
  second_hi = omega arith;
})
