-- ===== src/Ktime/Calendar.antt =====
-- The Gregorian calendar, counted day by day, and `get_startup_time` against it.
use lychee_os.Base.{
  ℕ, zero, suc, ◌+◌, ◌-◌, ◌*◌, ◌/◌, ◌%◌, ◌≤◌, ◌<◌, ◌≡◌, refl, Bool, true, false, some, List, [],
  ◌∷◌, ◌&&◌, ◌||◌, not, ltb, leb, ◌==◌, if◌then◌else◌, get_or, get_elem?-eq-get_or, add32, sub32,
  mul32, every_below, every_below_entry, arith,
}
use lychee_os.Ktime.{Time, day, hour, minute, year_seconds, days_of_month, sum_up, get_startup_time}

-- The Gregorian rule.
unfoldable pub leap : ℕ → Bool
leap y = (y % 4 == 0) && (not (y % 100 == 0) || y % 400 == 0)

abbrev days_in_year : ℕ → ℕ
days_in_year y = if leap y then 366 else 365

-- The days from 1 January 1970 to 1 January of 1970 + n.
unfoldable pub days_before_year : ℕ → ℕ
days_before_year zero = 0
days_before_year (suc n) = days_before_year n + days_in_year (1970 + n)

abbrev month_days : Bool → List ℕ
month_days is_leap =
    31 ∷ (if is_leap then 29 else 28) ∷ 31 ∷ 30 ∷ 31 ∷ 30 ∷ 31 ∷ 31 ∷ 30 ∷ 31 ∷ 30 ∷ 31 ∷ []

-- The days of the year before its month m, counted from 0.
unfoldable pub days_before_month : Bool → ℕ → ℕ
days_before_month is_leap zero = 0
days_before_month is_leap (suc m) = days_before_month is_leap m + get_or (month_days is_leap) m 0

-- The seconds from the start of 1970 to a date whose year is counted from 1900.
unfoldable pub epoch_seconds : Time → ℕ
unfolding days_before_year days_before_month leap
epoch_seconds tm =
    day
      * (days_before_year (tm.year - 70)
          + days_before_month (leap (1900 + tm.year)) tm.month
          + (tm.day - 1))
    + hour * tm.hour
    + minute * tm.minute
    + tm.second

pub record IsDate (tm : Time) : Type 0 where
  pub from_1970 : 70 ≤ tm.year
  pub to_2099 : tm.year < 200
  pub month : tm.month < 12
  pub first : 1 ≤ tm.day
  pub last : tm.day ≤ 31
  pub hour : tm.hour < 24
  pub minute : tm.minute < 60
  pub second : tm.second < 60

leap_table :
    every_below (λ n. if leap (1970 + n) then (n + 2) % 4 == 0 else not ((n + 2) % 4 == 0)) 130
    ≡ true
unfolding every_below leap
leap_table = refl

leap_every_fourth : (n : ℕ) → n < 130 → leap (1970 + n) ≡ ((n + 2) % 4 == 0)
leap_every_fourth n h = ground (arith, every_below_entry _ 130 n h leap_table)

days_before_year-closed : (n : ℕ) → n < 130 → days_before_year n ≡ 365 * n + (n + 1) / 4
unfolding days_before_year
days_before_year-closed zero h = refl
days_before_year-closed (suc n) h = ground (arith, leap_every_fourth n, days_before_year-closed n)

month_table :
    every_below
      (λ m.
        (get_or days_of_month m 0 == day * days_before_month true m)
        && (days_before_month true m == days_before_month false m + (if leb 2 m then 1 else 0))
        && ltb (days_before_month true m) 336)
      12
    ≡ true
unfolding every_below days_before_month
month_table = refl

month_facts :
    (m : ℕ)
    → m < 12
    → (get_or days_of_month m 0 ≡ day * days_before_month true m)
      × (days_before_month true m ≡ days_before_month false m + (if leb 2 m then 1 else 0))
      × (days_before_month true m < 336)
month_facts m h = ground (arith, every_below_entry _ 12 m h month_table)

-- The wrap-around of `year - 3` in the first three years is harmless.
year_table :
    every_below
      (λ n.
        add32 (mul32 n year_seconds) (mul32 (add32 1 (sub32 n 3 / 4)) day)
        == day * (365 * n + (n + 1) / 4))
      130
    ≡ true
unfolding every_below
year_table = refl

year_part :
    (n : ℕ)
    → n < 130
    → add32 (mul32 n year_seconds) (mul32 (add32 1 (sub32 n 3 / 4)) day) ≡ day * days_before_year n
year_part n h = ground (arith, every_below_entry _ 130 n h year_table, days_before_year-closed n h)

sum_up-eq :
    (tm : Time) (n : ℕ)
    → IsDate tm
    → tm.year ≡ 70 + n
    → sum_up tm (day * days_before_month true tm.month) ≡ epoch_seconds tm
unfolding sum_up epoch_seconds
sum_up-eq tm n d e =
    let n_lt : n < 130 = omega arith in
    let year : sub32 tm.year 70 ≡ n = omega arith in
    rw (year, year_part n n_lt)
      (ground (
        arith,
        leap_every_fourth n n_lt,
        days_before_year-closed n n_lt,
        month_facts tm.month d.month,
      ))

-- For every date from 1970 to 2099 the function returns the seconds since 1970 that the Gregorian
-- calendar gives, without overflow.
pub get_startup_time-eq-epoch_seconds :
    (tm : Time) → IsDate tm → get_startup_time tm ≡ some (epoch_seconds tm)
unfolding get_startup_time
get_startup_time-eq-epoch_seconds tm d = ground (
  arith,
  get_elem?-eq-get_or days_of_month tm.month 0,
  month_facts tm.month d.month,
  sum_up-eq tm (tm.year - 70) d,
)
