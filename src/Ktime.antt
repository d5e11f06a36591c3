-- ===== src/Ktime.antt =====
-- kernel/ktime.c with the constants of include/time.h: the boot time in seconds since 1970.
pub mod Calendar
mod Tests
use lychee_os.Base.{
  ℕ, ◌+◌, ◌*◌, ◌/◌, ◌%◌, Bool, Option, none, some, List, [], ◌∷◌, ◌&&◌, not, ltb, leb, ◌==◌,
  if◌then◌else◌, get_elem?, add32, sub32, mul32,
}
use mathlib.Core.Option

abbrev pub minute : ℕ
minute = 60

abbrev pub hour : ℕ
hour = 60 * minute

abbrev pub day : ℕ
day = 24 * hour

abbrev pub year_seconds : ℕ
year_seconds = 365 * day

-- `struct_time`, less the two fields that no code reads.
pub record Time : Type 0 where
  pub second : ℕ
  pub minute : ℕ
  pub hour : ℕ
  pub day : ℕ
  pub month : ℕ
  pub year : ℕ

-- The seconds of a leap year before each month.
abbrev pub days_of_month : List ℕ
days_of_month =
    0
    ∷ day * 31
    ∷ day * (31 + 29)
    ∷ day * (31 + 29 + 31)
    ∷ day * (31 + 29 + 31 + 30)
    ∷ day * (31 + 29 + 31 + 30 + 31)
    ∷ day * (31 + 29 + 31 + 30 + 31 + 30)
    ∷ day * (31 + 29 + 31 + 30 + 31 + 30 + 31)
    ∷ day * (31 + 29 + 31 + 30 + 31 + 30 + 31 + 31)
    ∷ day * (31 + 29 + 31 + 30 + 31 + 30 + 31 + 31 + 30)
    ∷ day * (31 + 29 + 31 + 30 + 31 + 30 + 31 + 31 + 30 + 31)
    ∷ day * (31 + 29 + 31 + 30 + 31 + 30 + 31 + 31 + 30 + 31 + 30)
    ∷ []

-- All of the function that follows the read of `days_of_month`, whose entry is `before`.
unfoldable pub sum_up : Time → ℕ → ℕ
sum_up tm before =
    let year = sub32 tm.year 70 in
    let r₀ = add32 (mul32 year year_seconds) (mul32 (add32 1 (sub32 year 3 / 4)) day) in
    let r₁ = add32 r₀ before in
    let r₂ = if leb 2 tm.month && not (add32 year 2 % 4 == 0) then sub32 r₁ day else r₁ in
    let r₃ = add32 r₂ (mul32 (sub32 tm.day 1) day) in
    let r₄ = add32 r₃ (mul32 tm.hour hour) in
    let r₅ = add32 r₄ (mul32 tm.minute minute) in add32 r₅ tm.second

-- `none` is the read past the end of `days_of_month`.
unfoldable pub get_startup_time : Time → Option ℕ
unfolding sum_up
get_startup_time tm = Option.map (sum_up tm) (get_elem? days_of_month tm.month)
