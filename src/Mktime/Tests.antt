-- ===== src/Mktime/Tests.antt =====
-- Runs of `kernel_mktime` and `time_init`, and their theorems at concrete dates.
use linux_0_12_study.Base.{arith, if◌then◌else◌, ltb, refl, some, ℕ, ◌==◌, ◌≡◌}
use linux_0_12_study.Mktime.{Tm, kernel_mktime}
use linux_0_12_study.Mktime.Calendar.{seconds_since_1970, kernel_mktime-seconds_since_1970}

-- 2000-03-01 00:00:10
abbrev leap_march : Tm
leap_march = record { tm_sec = 10; tm_min = 0; tm_hour = 0; tm_mday = 1; tm_mon = 2; tm_year = 100 }

-- 1992-01-01 12:30:59
abbrev new_year : Tm
new_year = record { tm_sec = 59; tm_min = 30; tm_hour = 12; tm_mday = 1; tm_mon = 0; tm_year = 92 }

kernel_mktime_runs : kernel_mktime leap_march ≡ some 951868810
unfolding kernel_mktime
kernel_mktime_runs = refl

kernel_mktime_calendar : kernel_mktime leap_march ≡ some (seconds_since_1970 leap_march)
kernel_mktime_calendar = kernel_mktime-seconds_since_1970 leap_march (omega arith)

-- A clock whose seconds change during the first round of reads.
abbrev ticking : ℕ → ℕ → ℕ
ticking k r =
    if r == 0
    then (if ltb k 6 then 0x58 else 0x59)
    else if r == 2
    then 0x30
    else if r == 4
    then 0x12
    else if r == 9
    then 0x92
    else 1
