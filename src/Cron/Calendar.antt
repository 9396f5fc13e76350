-- ===== src/Cron/Calendar.antt =====
-- What delayquene/spec.go uses of Go's `time.Time`: the proleptic Gregorian calendar, in a zone of
-- fixed offset (the container image runs in UTC). A time is its civil fields.
pub mod Order
pub mod Count
use gua.Base.Int.{ℤ, pos, sub_ℕ}
use gua.Base.{
  ℕ, zero, suc, ◌+◌, ◌-◌, ◌*◌, ◌/◌, ◌%◌, ◌≤◌, ◌<◌, ◌≡◌, refl, Bool, true, false, ◌&&◌, ◌||◌, not,
  ltb, leb, ◌==◌, if◌then◌else◌, arith,
}

pub record Time : Type 0 where
  pub year : ℕ
  pub month : ℕ
  pub day : ℕ
  pub hour : ℕ
  pub minute : ℕ
  pub second : ℕ
  pub nano : ℕ

-- `time.Time{}`.
abbrev pub zero_time : Time
zero_time = record { year = 1; month = 1; day = 1; hour = 0; minute = 0; second = 0; nano = 0 }

unfoldable pub is_leap : ℕ → Bool
is_leap y = (y % 4 == 0 && not (y % 100 == 0)) || y % 400 == 0

unfoldable pub days_in_month : ℕ → ℕ → ℕ
unfolding is_leap
days_in_month y m =
    if m == 2
    then (if is_leap y then 29 else 28)
    else if m == 4 || m == 6 || m == 9 || m == 11
    then 30
    else 31

-- Days of the year before the first of the month.
unfoldable pub days_before_month : ℕ → ℕ → ℕ
days_before_month y zero = 0
days_before_month y (suc zero) = 0
days_before_month y (suc (suc m)) = days_before_month y (suc m) + days_in_month y (suc m)

-- Days since 1 January of year 1, a Monday.
unfoldable pub day_number : ℕ → ℕ → ℕ → ℕ
day_number y m d =
    let p = y - 1 in 365 * p + p / 4 - p / 100 + p / 400 + days_before_month y m + (d - 1)

-- `t.Weekday()`, Sunday being 0.
unfoldable pub weekday : ℕ → ℕ → ℕ → ℕ
weekday y m d = (day_number y m d + 1) % 7

-- `t.Add` of a second, a minute, an hour, and `t.AddDate(0, 0, 1)`.
unfoldable pub add_day : Time → Time
add_day t =
    if ltb t.day (days_in_month t.year t.month)
    then record t { day = t.day + 1 }
    else if ltb t.month 12
    then record t { month = t.month + 1; day = 1 }
    else record t { year = t.year + 1; month = 1; day = 1 }

unfoldable pub add_hour : Time → Time
add_hour t =
    if ltb t.hour 23 then record t { hour = t.hour + 1 } else add_day (record t { hour = 0 })

unfoldable pub add_minute : Time → Time
add_minute t =
    if ltb t.minute 59
    then record t { minute = t.minute + 1 }
    else add_hour (record t { minute = 0 })

unfoldable pub add_second : Time → Time
add_second t =
    if ltb t.second 59
    then record t { second = t.second + 1 }
    else add_minute (record t { second = 0 })

pub add_days : ℕ → Time → Time
add_days zero t = t
add_days (suc n) t = add_days n (add_day t)

-- `t.Add` of a number of whole seconds.
pub add_seconds : ℕ → Time → Time
add_seconds n t =
    let total = (t.hour * 60 + t.minute) * 60 + t.second + n in
    let left = total % 86_400 in
    add_days (total / 86_400)
      (record t { hour = left / 3600; minute = left / 60 % 60; second = left % 60 })

-- `t.Unix()`: seconds since the start of 1970, which is 62135596800 seconds after that of year 1.
pub unix : Time → ℤ
unix t =
    sub_ℕ (((day_number t.year t.month t.day * 24 + t.hour) * 60 + t.minute) * 60 + t.second)
      62_135_596_800

-- A day past the end of its month is a day of the next month. (The excess is below 28 days.)
unfoldable pub normal_day : Time → Time
normal_day t =
    let last = days_in_month t.year t.month in
    if leb t.day last
    then t
    else if ltb t.month 12
    then record t { month = t.month + 1; day = t.day - last }
    else record t { year = t.year + 1; month = 1; day = t.day - last }

-- `t.AddDate(0, 1, 0)`.
unfoldable pub add_month : Time → Time
add_month t = normal_day (
    if ltb t.month 12
    then record t { month = t.month + 1 }
    else record t { year = t.year + 1; month = 1 })

pub record IsTime (t : Time) : Type 0 where
  pub month_pos : 1 ≤ t.month
  pub month_le : t.month ≤ 12
  pub day_pos : 1 ≤ t.day
  pub day_le : t.day ≤ days_in_month t.year t.month
  pub hour_lt : t.hour < 24
  pub minute_lt : t.minute < 60
  pub second_lt : t.second < 60

pub days_in_month_bounds : (y m : ℕ) → (28 ≤ days_in_month y m) × (days_in_month y m ≤ 31)
unfolding days_in_month
days_in_month_bounds y m = ground arith

pub days_in_month-january : (y : ℕ) → days_in_month y 1 ≡ 31
unfolding days_in_month
days_in_month-january y = refl

-- A place in time, for order: mixed digits with room for 31 days in each month.
abbrev pub month_key : Time → ℕ
month_key t = t.year * 12 + t.month

abbrev pub day_key : Time → ℕ
day_key t = month_key t * 32 + t.day

abbrev pub hour_key : Time → ℕ
hour_key t = day_key t * 24 + t.hour

abbrev pub minute_key : Time → ℕ
minute_key t = hour_key t * 60 + t.minute

abbrev pub key : Time → ℕ
key t = minute_key t * 60 + t.second

-- Opens the code above, for a run on a concrete time.
unfoldable pub calendar_code : Unit {0}
unfolding is_leap days_in_month days_before_month day_number weekday add_day add_hour add_minute
    add_second normal_day add_month add_days add_seconds unix
calendar_code = tt

epoch_2026 :
    unix (record { year = 2026; month = 11; day = 26; hour = 0; minute = 17; second = 0; nano = 0 })
    ≡ pos 1_795_652_220
unfolding calendar_code
epoch_2026 = refl

-- 31 October 2026 was a Saturday, and the next month began on a Sunday.
saturday : weekday 2026 10 31 ≡ 6
unfolding calendar_code
saturday = refl
