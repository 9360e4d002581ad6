-- ===== src/Rtc/Tests.antt =====
-- Tests of the model of kernel/rtc.c at one date.
use vampire_os.Rtc.{Stamp}

-- Ten seconds before the end of February 2024.
abbrev leap_eve : Stamp
leap_eve = record { year = 2024; mon = 2; day = 29; hour = 23; minute = 59; second = 50 }
