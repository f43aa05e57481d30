-- ===== src/Rtc/Registers.antt =====
-- kernel/rtc.h: rtc_read, against a clock chip that holds a time in each of its four formats.
use mini_win.Base.{sym, ◌∙◌, Option, arith, ==_iff, every_below_sound, ℕ, ◌+◌, ◌-◌, ◌*◌, ◌/◌, ◌%◌}
use mini_win.Base.{◌≤◌, ◌<◌, bit_and, ◌≡◌, refl, Bool, true, false, some, ltb, ◌==◌}
use mini_win.Base.{if◌then◌else◌, every_below}
use mini_win.Base.Int.{pos}
use mini_win.Base.Bits.{bit_and_low}
use mini_win.Rtc.{Time, rtc_read, decoded, is_set, bcd_to_bin, compute_weekday, ◌>>=◌}

-- A number below 100 in the chip's format.
abbrev encoded : Bool → ℕ → ℕ
encoded is_binary n = if is_binary then n else n / 10 * 16 + n % 10

-- The hour register: the hour itself, or the hour of a 12-hour clock, 12 for noon and midnight,
-- with the top bit set after noon.
abbrev encoded_hour : Bool → Bool → ℕ → ℕ
encoded_hour is_binary is_24hr h =
    if is_24hr
    then encoded is_binary h
    else encoded is_binary (if h % 12 == 0 then 12 else h % 12) + (if ltb h 12 then 0 else 128)

-- A chip that holds a time in the format that its register B names.
pub record Holds (cmos : ℕ → ℕ) (t : Time) (h : ℕ) : Type 0 where
  pub is_binary : Bool
  pub is_24hr : Bool
  pub binary : is_set (cmos 0x0b) 0x04 ≡ is_binary
  pub full_day : is_set (cmos 0x0b) 0x02 ≡ is_24hr
  pub second : cmos 0x00 ≡ encoded is_binary t.second
  pub minute : cmos 0x02 ≡ encoded is_binary t.minute
  pub hour : cmos 0x04 ≡ encoded_hour is_binary is_24hr h
  pub day : cmos 0x07 ≡ encoded is_binary t.day
  pub month : cmos 0x08 ≡ encoded is_binary t.month
  pub year : 2000 ≤ t.year
  pub short_year : cmos 0x09 ≡ encoded is_binary (t.year - 2000)

decoded-encoded : (b : Bool) (n : ℕ) → n < 100 → decoded b (encoded b n) ≡ n
unfolding bcd_to_bin
decoded-encoded true n h = refl
decoded-encoded false n h = rw (bit_and_low 4 (n / 10 * 16 + n % 10)) (omega arith)

-- The hour as rtc_read computes it from the register.
abbrev hour_of : Bool → Bool → ℕ → ℕ
hour_of is_binary is_24hr v =
    let hour = decoded is_binary (bit_and v 0x7f) in
    if is_24hr then hour else (hour % 12 + (if is_set v 0x80 then 12 else 0)) % 256

hour_table : (b c : Bool) → every_below 24 (λ h. hour_of b c (encoded_hour b c h) == h) ≡ true
unfolding bcd_to_bin every_below
hour_table true true = refl
hour_table true false = refl
hour_table false true = refl
hour_table false false = refl

decoded_hour : (b c : Bool) (h : ℕ) → h < 24 → hour_of b c (encoded_hour b c h) ≡ h
decoded_hour b c h lt =
    (==_iff (hour_of b c (encoded_hour b c h)) h).0
      (every_below_sound 24 (λ k. hour_of b c (encoded_hour b c k) == k) h (hour_table b c) lt)

abbrev read_as : (ℕ → ℕ) → Bool → Bool → Option Time
read_as cmos b c =
    compute_weekday (2000 + decoded b (cmos 0x09)) (decoded b (cmos 0x08)) (decoded b (cmos 0x07))
    >>= λ w. some (record {
      second = decoded b (cmos 0x00);
      minute = decoded b (cmos 0x02);
      hour = pos (hour_of b c (cmos 0x04));
      day = decoded b (cmos 0x07);
      month = decoded b (cmos 0x08);
      year = 2000 + decoded b (cmos 0x09);
      weekday = w;
    })

-- rtc_read by the format that register B names.
rtc_read-formats :
    (cmos : ℕ → ℕ)
    → rtc_read cmos ≡ read_as cmos (is_set (cmos 0x0b) 0x04) (is_set (cmos 0x0b) 0x02)
unfolding rtc_read
rtc_read-formats cmos = refl

-- Reading a chip that holds a time, in BCD or in binary, on a 12-hour or a 24-hour clock, gives
-- that time, with the day of the week that its date has.
pub rtc_read_lem :
    (cmos : ℕ → ℕ) (t : Time) (h : ℕ)
    → Holds cmos t h
    → h < 24
    → t.hour ≡ pos h
    → t.second < 60
    → t.minute < 60
    → t.day ≤ 31
    → t.month ≤ 12
    → t.year < 2100
    → compute_weekday t.year t.month t.day ≡ some t.weekday
    → rtc_read cmos ≡ some t
rtc_read_lem cmos t h c hb hour s m d mo y w =
    rtc_read-formats cmos
    ∙ rw (c.binary, c.full_day)
        (rw (second, minute, hour', day, month, year, split_year) (rw w (rw (sym hour) refl)))
  where
    second : decoded c.is_binary (cmos 0x00) ≡ t.second
    second = rw c.second (decoded-encoded c.is_binary t.second (omega arith))

    minute : decoded c.is_binary (cmos 0x02) ≡ t.minute
    minute = rw c.minute (decoded-encoded c.is_binary t.minute (omega arith))

    hour' : hour_of c.is_binary c.is_24hr (cmos 0x04) ≡ h
    hour' = rw c.hour (decoded_hour c.is_binary c.is_24hr h hb)

    day : decoded c.is_binary (cmos 0x07) ≡ t.day
    day = rw c.day (decoded-encoded c.is_binary t.day (omega arith))

    month : decoded c.is_binary (cmos 0x08) ≡ t.month
    month = rw c.month (decoded-encoded c.is_binary t.month (omega arith))

    year : decoded c.is_binary (cmos 0x09) ≡ t.year - 2000
    year = rw c.short_year (decoded-encoded c.is_binary (t.year - 2000) (omega arith))

    split_year : 2000 + (t.year - 2000) ≡ t.year
    split_year = omega arith
