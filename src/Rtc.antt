-- ===== src/Rtc.antt =====
-- kernel/rtc.h: the CMOS clock. Its registers are a function from register numbers to bytes, as
-- they stand once no update is in progress; the two `int` tables are read with their bounds, so
-- that a month outside 1 to 12 gives `none` where the source reads outside the table. The hour is
-- an integer, since adding an offset can leave 0 to 23; the other fields cannot become negative.
pub mod Calendar
pub mod Offset
pub mod Registers
pub mod Stamp
mod Tests
use mini_win.Base.{ℕ, ◌+◌, ◌-◌, ◌*◌, ◌/◌, ◌%◌, ◌^◌, bit_and, bit_or, Bool, not, ◌&&◌, ◌||◌}
use mini_win.Base.{Option, none, some, List, [], ◌∷◌, ltb, ◌==◌, if◌then◌else◌, get_elem?}
use mini_win.Base.Int.{ℤ, pos, negsuc, pos_part, ◌+ℤ◌, ◌-ℤ◌, ltb_ℤ}

-- rtc_time_t
pub record Time : Type 0 where
  pub second : ℕ
  pub minute : ℕ
  pub hour : ℤ
  pub day : ℕ
  pub month : ℕ
  pub year : ℕ
  pub weekday : ℕ

infixl 5 ◌>>=◌
abbrev pub ◌>>=◌ {ℓ κ} : {A : Type ℓ} {B : Type κ} → Option A → (A → Option B) → Option B
none >>= f = none
some a >>= f = f a

pub bcd_to_bin : ℕ → ℕ
bcd_to_bin v = (bit_and v 0x0f + v / 2 ^ 4 * 10) % 256

abbrev month_shifts : List ℕ
month_shifts = 0 ∷ 3 ∷ 2 ∷ 5 ∷ 0 ∷ 3 ∷ 5 ∷ 1 ∷ 4 ∷ 6 ∷ 2 ∷ 4 ∷ []

-- The table entry for a month, `none` outside the table.
abbrev entry : List ℕ → ℕ → Option ℕ
entry table m = if m == 0 then none else get_elem? table (m - 1)

pub compute_weekday : ℕ → ℕ → ℕ → Option ℕ
compute_weekday y m d = do
  shift ← entry month_shifts m
  let y' = if ltb m 3 then y - 1 else y
  some ((y' + y' / 4 - y' / 100 + y' / 400 + shift + d) % 7)

-- One register as rtc_read decodes it: BCD unless the clock runs in binary mode.
abbrev decoded : Bool → ℕ → ℕ
decoded is_binary v = if is_binary then v else bcd_to_bin v

-- Whether a masked bit of a register is set.
abbrev is_set : ℕ → ℕ → Bool
is_set v mask = not (bit_and v mask == 0)

-- rtc_read, after its wait.
pub rtc_read : (ℕ → ℕ) → Option Time
rtc_read cmos = do
  let is_binary = is_set (cmos 0x0b) 0x04
  let is_24hr = is_set (cmos 0x0b) 0x02
  let pm = is_set (cmos 0x04) 0x80
  let hour = decoded is_binary (bit_and (cmos 0x04) 0x7f)
  let hour' = if is_24hr then hour else (hour % 12 + (if pm then 12 else 0)) % 256
  let day = decoded is_binary (cmos 0x07)
  let month = decoded is_binary (cmos 0x08)
  let year = 2000 + decoded is_binary (cmos 0x09)
  w ← compute_weekday year month day
  some (record {
    second = decoded is_binary (cmos 0x00);
    minute = decoded is_binary (cmos 0x02);
    hour = pos hour';
    day = day;
    month = month;
    year = year;
    weekday = w;
  })

-- rtc_dos_stamp of what rtc_read gave; each field is cut to a `u32` after its shift.
pub dos_stamp : Time → ℕ
dos_stamp t =
    if ltb t.year 2000
      || ltb 2107 t.year
      || ltb t.month 1
      || ltb 12 t.month
      || ltb t.day 1
      || ltb 31 t.day
    then 0
    else bit_or
        (bit_or
          (bit_or
            (bit_or (bit_or ((t.year - 1980) * 2 ^ 25 % 2 ^ 32) (t.month * 2 ^ 21 % 2 ^ 32))
              (t.day * 2 ^ 16 % 2 ^ 32))
            (pos_part t.hour * 2 ^ 11 % 2 ^ 32))
          (t.minute * 2 ^ 5 % 2 ^ 32))
        (t.second / 2)

pub is_leap_year : ℕ → Bool
is_leap_year y = (y % 4 == 0 && not (y % 100 == 0)) || y % 400 == 0

abbrev month_lengths : List ℕ
month_lengths = 31 ∷ 28 ∷ 31 ∷ 30 ∷ 31 ∷ 30 ∷ 31 ∷ 31 ∷ 30 ∷ 31 ∷ 30 ∷ 31 ∷ []

pub days_in_month : ℕ → ℕ → Option ℕ
days_in_month y m = if m == 2 && is_leap_year y then some 29 else entry month_lengths m

-- The date part of rtc_apply_offset: one day on, with the month and the year rolled over.
pub day_after : ℕ → ℕ → ℕ → Option (ℕ × ℕ × ℕ)
day_after y m d = do
  last ← days_in_month y m
  some (
      if ltb last (d + 1)
      then (if ltb 12 (m + 1) then (y + 1, 1, 1) else (y, m + 1, 1))
      else (y, m, d + 1))

-- And one day back.
pub day_before : ℕ → ℕ → ℕ → Option (ℕ × ℕ × ℕ)
day_before y m d =
    if ltb (d - 1) 1
    then (if ltb (m - 1) 1
        then days_in_month (y - 1) 12 >>= (λ last. some (y - 1, 12, last))
        else days_in_month y (m - 1) >>= (λ last. some (y, m - 1, last)))
    else some (y, m, d - 1)

-- The hour and the date of rtc_apply_offset once the offset is added, by where that leaves the hour.
pub moved_hour : ℤ → ℤ
moved_hour h =
    if not (ltb_ℤ h (pos 24)) then h -ℤ pos 24 else if ltb_ℤ h (pos 0) then h +ℤ pos 24 else h

pub moved_date : Time → ℤ → Option (ℕ × ℕ × ℕ)
moved_date t h =
    if not (ltb_ℤ h (pos 24))
    then day_after t.year t.month t.day
    else if ltb_ℤ h (pos 0)
    then day_before t.year t.month t.day
    else some (t.year, t.month, t.day)

-- rtc_apply_offset
pub apply_offset : Time → ℤ → Option Time
apply_offset t offset_hours = do
  (y, m, d) ← moved_date t (t.hour +ℤ offset_hours)
  w ← compute_weekday y m d
  some (record t {
    hour = moved_hour (t.hour +ℤ offset_hours);
    day = d;
    month = m;
    year = y;
    weekday = w;
  })
