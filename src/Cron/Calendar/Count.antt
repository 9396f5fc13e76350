-- ===== src/Cron/Calendar/Count.antt =====
-- The count of seconds since the start of year 1, and what the steps of the calendar do to it.
use gua.Base.{ℕ, zero, suc, ◌+◌, ◌-◌, ◌*◌, ◌/◌, ◌%◌, ◌≤◌, ◌≡◌, refl, ◌∙◌, if◌then◌else◌, arith}
use gua.Cron.Calendar.{
  Time, IsTime, is_leap, days_in_month, days_in_month_bounds, days_before_month, day_number,
  add_day, add_days, add_seconds,
}
use native.Mathlib.Numerals.{add-one}
use gua.Cron.Calendar.Order.{add_day-IsTime, fields-add_day}

abbrev pub second_count : Time → ℕ
second_count t = ((day_number t.year t.month t.day * 24 + t.hour) * 60 + t.minute) * 60 + t.second

december : (y : ℕ) → days_in_month y 12 ≡ 31
unfolding days_in_month
december y = refl

year-add_day : (t : Time) → t.year ≤ (add_day t).year
unfolding add_day
year-add_day t = ground arith

abbrev leap_days : ℕ → ℕ
leap_days y = y / 4 - y / 100 + y / 400

year_length : (y : ℕ) → days_before_month y 12 + 31 ≡ 365 + (if is_leap y then 1 else 0)
unfolding days_before_month days_in_month
year_length y = ground arith

leap_days-suc : (p : ℕ) → leap_days (suc p) ≡ leap_days p + (if is_leap (suc p) then 1 else 0)
unfolding is_leap
leap_days-suc p = ground arith

days_before_month-next :
    (y m : ℕ) → 1 ≤ m → days_before_month y (m + 1) ≡ days_before_month y m + days_in_month y m
unfolding days_before_month
days_before_month-next y zero h = absurd (omega arith)
days_before_month-next y (suc m) h = rw add-one refl

-- 31 December is followed by 1 January.
day_number-new_year : (y : ℕ) → 1 ≤ y → day_number (y + 1) 1 1 ≡ day_number y 12 31 + 1
unfolding day_number
day_number-new_year zero h = absurd (omega arith)
day_number-new_year (suc p) h =
    let january : days_before_month (suc p + 1) 1 ≡ 0 = unfold days_before_month in refl in
    omega (arith, january, year_length (suc p), leap_days-suc p)

day_number-month :
    (y m : ℕ) → 1 ≤ m → day_number y (m + 1) 1 ≡ day_number y m (days_in_month y m) + 1
unfolding day_number
day_number-month y m h = omega (arith, days_before_month-next y m h, days_in_month_bounds y m)

day_number-suc : (y m d : ℕ) → 1 ≤ d → day_number y m (d + 1) ≡ day_number y m d + 1
unfolding day_number
day_number-suc y m d h = omega arith

abbrev pub day_count : Time → ℕ
day_count t = day_number t.year t.month t.day

pub day_count-add_day : (t : Time) → IsTime t → 1 ≤ t.year → day_count (add_day t) ≡ day_count t + 1
unfolding add_day
day_count-add_day t h y = ground (
  arith,
  day_number-suc t.year t.month t.day,
  day_number-month t.year t.month,
  day_number-new_year t.year,
  december t.year,
)

pub day_count-add_days :
    (n : ℕ) (t : Time)
    → IsTime t
    → 1 ≤ t.year
    → (day_count (add_days n t) ≡ day_count t + n)
      × ((add_days n t).hour ≡ t.hour)
      × ((add_days n t).minute ≡ t.minute)
      × ((add_days n t).second ≡ t.second)
unfolding add_days
day_count-add_days zero t h y = (omega arith, refl, refl, refl)
day_count-add_days (suc n) t h y =
    let (a, b, c, d) =
      day_count-add_days n (add_day t) (add_day-IsTime t h) (omega (arith, year-add_day t)) in
    let (e, f, g, _) = fields-add_day t in
    (omega (arith, day_count-add_day t h y), b ∙ e, c ∙ f, d ∙ g)

-- Adding seconds adds them to the count.
pub second_count-add_seconds :
    (n : ℕ) (t : Time) → IsTime t → 1 ≤ t.year → second_count (add_seconds n t) ≡ second_count t + n
unfolding add_seconds
second_count-add_seconds n t h y =
    let total = (t.hour * 60 + t.minute) * 60 + t.second + n in
    let left = total % 86_400 in
    let start = record t { hour = left / 3600; minute = left / 60 % 60; second = left % 60 } in
    omega (arith, day_count-add_days (total / 86_400) start (omega arith) y)
