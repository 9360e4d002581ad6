-- ===== src/Rtc.antt =====
-- kernel/rtc.c: the clock's registers as a date, and the date some seconds later.
pub mod Calendar
mod Tests
use vampire_os.Prelude.{
  ℕ, zero, suc, ◌+◌, ◌-◌, ◌*◌, ◌/◌, ◌%◌, ◌^◌, List, [], ◌∷◌, ◌++◌, Bool, true, false, ◌&&◌, ◌||◌,
  not, bit_and, ltb, leb, ◌==◌, if◌then◌else◌,
}
use vampire_os.Prelude.Bytes.{u8}

abbrev pub pit_hz : ℕ
pit_hz = 100

-- `snap_y` to `snap_sec`.
pub record Stamp : Type 0 where
  pub year : ℕ
  pub mon : ℕ
  pub day : ℕ
  pub hour : ℕ
  pub minute : ℕ
  pub second : ℕ

unfoldable pub from_bcd : ℕ → ℕ
from_bcd v = v % 0x10 + 10 * (v / 2 ^ 4 % 0x10)

abbrev pub is_leap : ℕ → Bool
is_leap y = (y % 4 == 0) && (not (y % 100 == 0) || (y % 400 == 0))

abbrev pub is_short : ℕ → Bool
is_short mon = (mon == 4) || (mon == 6) || (mon == 9) || (mon == 11)

unfoldable pub month_days : ℕ → ℕ → ℕ
month_days y m =
    let feb = if is_leap y then 29 else 28 in if m == 2 then feb else if is_short m then 30 else 31

-- The month behind `mon`.
abbrev pub next_month : Stamp → Stamp
next_month s =
    let mon = (s.mon + 1) % 2 ^ 32 in
    if ltb 12 mon
    then record s { mon = 1; year = (s.year + 1) % 2 ^ 32 }
    else record s { mon = mon }

-- The loop of `add_seconds`; each round takes a day at least, so as many rounds as days are enough.
unfoldable pub carry_days : ℕ → Stamp → Stamp
carry_days zero s = s
carry_days (suc fuel) s =
    let dim = month_days s.year s.mon in
    let rest = carry_days fuel (next_month (record s { day = s.day - dim })) in
    if leb s.day dim then s else rest

unfoldable pub add_seconds : Stamp → ℕ → Stamp
add_seconds s add =
    let t = (s.second + add) % 2 ^ 32 in
    let t' = (s.minute + t / 60) % 2 ^ 32 in
    let t'' = (s.hour + t' / 60) % 2 ^ 32 in
    let day = (s.day + t'' / 24) % 2 ^ 32 in
    carry_days day (record s { second = t % 60; minute = t' % 60; hour = t'' % 24; day = day })

-- The registers that `latch_cmos` reads.
pub record Cmos : Type 0 where
  pub sec : ℕ
  pub min : ℕ
  pub hour : ℕ
  pub day : ℕ
  pub mon : ℕ
  pub year : ℕ
  pub cent : ℕ
  pub stb : ℕ

abbrev pub is_24h : Cmos → Bool
is_24h r = not (bit_and r.stb 2 == 0)

abbrev pub is_pm : Cmos → Bool
is_pm r = not (is_24h r) && not (bit_and r.hour 0x80 == 0)

-- A register's number, in binary or in decimal digits.
abbrev pub field : Cmos → ℕ → ℕ
field r v = if bit_and r.stb 4 == 0 then u8 (from_bcd v) else v

abbrev pub hour_of : Cmos → ℕ → ℕ
hour_of r h =
    if is_24h r
    then h
    else if h == 12
    then (if is_pm r then 12 else 0)
    else if is_pm r
    then h + 12
    else h

abbrev pub century : ℕ → ℕ
century c = if ltb c 19 || ltb 99 c then 20 else c

-- What `latch_cmos` makes of the registers.
unfoldable pub decode : Cmos → Stamp
decode r =
    let raw = if is_24h r then r.hour else r.hour % 0x80 in
    record {
      year = field r r.year + century (field r r.cent) * 100;
      mon = field r r.mon;
      day = field r r.day;
      hour = hour_of r (field r raw);
      minute = field r r.min;
      second = field r r.sec;
    }

abbrev pub digit : ℕ → ℕ
digit v = 48 + v % 10

abbrev pub put2 : ℕ → List ℕ
put2 v = digit (v / 10) ∷ digit v ∷ []

-- The text of `rtc_format`, by the snapshot and the ticks since.
unfoldable pub rtc_format : Stamp → ℕ → ℕ → List ℕ
rtc_format snap snap_ticks ticks =
    let s = add_seconds snap ((ticks + 2 ^ 32 - snap_ticks) % 2 ^ 32 / pit_hz) in
    (digit (s.year / 1000) ∷ digit (s.year / 100) ∷ digit (s.year / 10) ∷ digit s.year ∷ 45 ∷ [])
    ++ put2 s.mon
    ++ (45 ∷ [])
    ++ put2 s.day
    ++ (32 ∷ [])
    ++ put2 s.hour
    ++ (58 ∷ [])
    ++ put2 s.minute
    ++ (58 ∷ [])
    ++ put2 s.second
