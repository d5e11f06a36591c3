-- ===== src/Ktime/Tests.antt =====
-- Dates through `get_startup_time`.
use lychee_os.Base.{◌≡◌, refl, some, none, arith}
use lychee_os.Ktime.{Time, get_startup_time}
use lychee_os.Ktime.Calendar.{IsDate, epoch_seconds, get_startup_time-eq-epoch_seconds}

-- 29 February 2008, 12:30:15
abbrev leap_day : Time
leap_day = record { second = 15; minute = 30; hour = 12; day = 29; month = 1; year = 108 }

leap_day-IsDate : IsDate leap_day
leap_day-IsDate = omega arith

get_startup_time-eq-epoch_seconds_example : get_startup_time leap_day ≡ some 1204288215
unfolding epoch_seconds
get_startup_time-eq-epoch_seconds_example =
    get_startup_time-eq-epoch_seconds leap_day leap_day-IsDate

-- The years in which `year - 3` wraps.
startup_1971 :
    get_startup_time (record { second = 0; minute = 0; hour = 0; day = 1; month = 0; year = 71 })
    ≡ some 31536000
unfolding get_startup_time
startup_1971 = refl

month_past_end :
    get_startup_time (record { second = 0; minute = 0; hour = 0; day = 1; month = 12; year = 71 })
    ≡ none
unfolding get_startup_time
month_past_end = refl
