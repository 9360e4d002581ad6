-- ===== src/Rtc/Calendar.antt =====
-- kernel/rtc.c: add_seconds against a count of seconds from the first year on.
use vampire_os.Prelude.{ℕ, zero, suc, ◌+◌, ◌*◌, ◌^◌, ◌<◌, ◌≤◌, ◌≡◌}
use vampire_os.Rtc.{Stamp, month_days}

-- The days of the year in front of a month.
unfoldable pub days_before : ℕ → ℕ → ℕ
days_before y zero = 0
days_before y (suc zero) = 0
days_before y (suc (suc m)) = days_before y (suc m) + month_days y (suc m)

unfoldable pub days_to_year : ℕ → ℕ
days_to_year zero = 0
days_to_year (suc y) = days_to_year y + days_before y 13

pub day_number : Stamp → ℕ
day_number s = days_to_year s.year + days_before s.year s.mon + s.day

abbrev pub second_number : Stamp → ℕ
second_number s = day_number s * 86400 + s.hour * 3600 + s.minute * 60 + s.second

pub record IsMonth (s : Stamp) : Type 0 where
  pub month_from : 1 ≤ s.mon
  pub month_to : s.mon ≤ 12
  pub day_from : 1 ≤ s.day

-- Fields of 30 bits, with a sum of seconds of 32, so that no sum wraps.
pub record NoWrap (s : Stamp) (add : ℕ) : Type 0 where
  pub years : s.year < 2 ^ 30
  pub days : s.day < 2 ^ 30
  pub hours : s.hour < 2 ^ 30
  pub minutes : s.minute < 2 ^ 30
  pub seconds : s.second + add < 2 ^ 32

-- A date and a time of the day.
pub record IsStamp (s : Stamp) : Type 0 where
  pub month : IsMonth s
  pub day_to : s.day ≤ month_days s.year s.mon
  pub hour_to : s.hour < 24
  pub minute_to : s.minute < 60
  pub second_to : s.second < 60

-- What a change of the date keeps.
record Same (s s' : Stamp) : Type 0 where
  number : day_number s' ≡ day_number s
  month : IsMonth s'
  hour : s'.hour ≡ s.hour
  minute : s'.minute ≡ s.minute
  second : s'.second ≡ s.second

-- Days more, at another time of the day.
abbrev at_time : Stamp → ℕ → ℕ → ℕ → ℕ → Stamp
at_time s days h m sec = record s { second = sec; minute = m; hour = h; day = s.day + days }
