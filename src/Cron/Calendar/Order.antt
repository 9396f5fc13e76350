-- ===== src/Cron/Calendar/Order.antt =====
-- The order of times: each step of the calendar is the least later time of its unit.
use gua.Base.{◌+◌, ◌≤◌, ◌<◌, ◌≡◌, ap₂, ◌⊎◌, arith}
use native.Mathlib.Decide.{dec_lt}
use gua.Cron.Calendar.{
  Time, IsTime, days_in_month, days_in_month_bounds, add_day, add_hour, add_minute, add_second,
  add_month, normal_day, month_key, day_key, hour_key, minute_key, key,
}

-- A month's key determines its year and its number.
pub month_key-injective :
    (t u : Time)
    → IsTime t
    → IsTime u
    → month_key t ≡ month_key u
    → (t.year ≡ u.year) × (t.month ≡ u.month)
month_key-injective t u ht hu h = omega arith

pub day_key-injective :
    (t u : Time)
    → IsTime t
    → IsTime u
    → day_key t ≡ day_key u
    → (month_key t ≡ month_key u) × (t.day ≡ u.day)
day_key-injective t u ht hu h =
    omega (arith, days_in_month_bounds t.year t.month, days_in_month_bounds u.year u.month)

same_month_length :
    (t u : Time)
    → IsTime t
    → IsTime u
    → month_key t ≡ month_key u
    → days_in_month t.year t.month ≡ days_in_month u.year u.month
same_month_length t u ht hu h =
    let (y, m) = month_key-injective t u ht hu h in ap₂ days_in_month y m

-- The first day of the next month.
pub add_month-first :
    (t : Time)
    → IsTime t
    → t.day ≡ 1
    → (month_key (add_month t) ≡ month_key t + 1) × ((add_month t).day ≡ 1)
unfolding add_month normal_day
add_month-first t h d =
    ground (arith, days_in_month_bounds t.year (t.month + 1), days_in_month_bounds (t.year + 1) 1)

pub add_day-IsTime : (t : Time) → IsTime t → IsTime (add_day t)
unfolding add_day
add_day-IsTime t h =
    ground (arith, days_in_month_bounds t.year (t.month + 1), days_in_month_bounds (t.year + 1) 1)

pub add_day-later : (t : Time) → IsTime t → day_key t < day_key (add_day t)
unfolding add_day
add_day-later t h = ground (arith, days_in_month_bounds t.year t.month)

pub add_day-least :
    (t u : Time) → IsTime t → IsTime u → day_key t < day_key u → day_key (add_day t) ≤ day_key u
unfolding add_day
add_day-least t u ht hu h =
    ground (arith, days_in_month_bounds u.year u.month, same_month_length t u ht hu)

-- What each step leaves alone below its unit.
pub fields-add_day :
    (t : Time)
    → ((add_day t).hour ≡ t.hour)
      × ((add_day t).minute ≡ t.minute)
      × ((add_day t).second ≡ t.second)
      × ((add_day t).nano ≡ t.nano)
unfolding add_day
fields-add_day t = ground arith

pub fields-add_hour :
    (t : Time)
    → ((add_hour t).minute ≡ t.minute)
      × ((add_hour t).second ≡ t.second)
      × ((add_hour t).nano ≡ t.nano)
unfolding add_hour
fields-add_hour t = ground (arith, fields-add_day (record t { hour = 0 }))

pub fields-add_minute :
    (t : Time) → ((add_minute t).second ≡ t.second) × ((add_minute t).nano ≡ t.nano)
unfolding add_minute
fields-add_minute t = ground (arith, fields-add_hour (record t { minute = 0 }))

pub fields-add_second : (t : Time) → (add_second t).nano ≡ t.nano
unfolding add_second
fields-add_second t = ground (arith, fields-add_minute (record t { second = 0 }))

pub add_hour-IsTime : (t : Time) → IsTime t → IsTime (add_hour t)
unfolding add_hour
add_hour-IsTime t h = ground (arith, add_day-IsTime (record t { hour = 0 }))

pub add_minute-IsTime : (t : Time) → IsTime t → IsTime (add_minute t)
unfolding add_minute
add_minute-IsTime t h = ground (arith, add_hour-IsTime (record t { minute = 0 }))

pub add_second-IsTime : (t : Time) → IsTime t → IsTime (add_second t)
unfolding add_second
add_second-IsTime t h = ground (arith, add_minute-IsTime (record t { second = 0 }))

pub add_hour-later : (t : Time) → IsTime t → hour_key t < hour_key (add_hour t)
unfolding add_hour
add_hour-later t h =
    let s = record t { hour = 0 } in ground (arith, add_day-later s, fields-add_day s)

pub add_minute-later : (t : Time) → IsTime t → minute_key t < minute_key (add_minute t)
unfolding add_minute
add_minute-later t h =
    let s = record t { minute = 0 } in ground (arith, add_hour-later s, fields-add_hour s)

pub add_second-later : (t : Time) → IsTime t → key t < key (add_second t)
unfolding add_second
add_second-later t h =
    let s = record t { second = 0 } in ground (arith, add_minute-later s, fields-add_minute s)

pub add_hour-least :
    (t u : Time)
    → IsTime t
    → IsTime u
    → hour_key t < hour_key u
    → hour_key (add_hour t) ≤ hour_key u
unfolding add_hour
add_hour-least t u ht hu h =
    let s = record t { hour = 0 } in ground (arith, add_day-least s u, fields-add_day s)

pub add_minute-least :
    (t u : Time)
    → IsTime t
    → IsTime u
    → minute_key t < minute_key u
    → minute_key (add_minute t) ≤ minute_key u
unfolding add_minute
add_minute-least t u ht hu h =
    let s = record t { minute = 0 } in ground (arith, add_hour-least s u, fields-add_hour s)

pub add_second-least :
    (t u : Time) → IsTime t → IsTime u → key t < key u → key (add_second t) ≤ key u
unfolding add_second
add_second-least t u ht hu h =
    let s = record t { second = 0 } in ground (arith, add_minute-least s u, fields-add_minute s)

-- A time from `t` on and before the step from `t` is in the unit of `t`.
pub same_second :
    (t u : Time)
    → IsTime t
    → IsTime u
    → key t ≤ key u
    → key u < key (add_second t)
    → u.second ≡ t.second
same_second t u ht hu from to = elim (dec_lt (key t) (key u)) [
  | yes after ↦ absurd (omega (arith, add_second-least t u ht hu after))
  | no same ↦ omega arith
]

pub same_minute :
    (t u : Time)
    → IsTime t
    → IsTime u
    → minute_key t ≤ minute_key u
    → minute_key u < minute_key (add_minute t)
    → u.minute ≡ t.minute
same_minute t u ht hu from to = elim (dec_lt (minute_key t) (minute_key u)) [
  | yes after ↦ absurd (omega (arith, add_minute-least t u ht hu after))
  | no same ↦ omega arith
]

pub same_hour :
    (t u : Time)
    → IsTime t
    → IsTime u
    → hour_key t ≤ hour_key u
    → hour_key u < hour_key (add_hour t)
    → u.hour ≡ t.hour
same_hour t u ht hu from to = elim (dec_lt (hour_key t) (hour_key u)) [
  | yes after ↦ absurd (omega (arith, add_hour-least t u ht hu after))
  | no same ↦ omega arith
]

pub same_day :
    (t u : Time)
    → IsTime t
    → IsTime u
    → day_key t ≤ day_key u
    → day_key u < day_key (add_day t)
    → day_key u ≡ day_key t
same_day t u ht hu from to = elim (dec_lt (day_key t) (day_key u)) [
  | yes after ↦ absurd (omega (arith, add_day-least t u ht hu after))
  | no same ↦ omega arith
]

-- A step that leaves its larger unit lands at the start of one.
pub add_day-carry : (t : Time) → ((add_day t).day ≡ 1) ⊎ (month_key (add_day t) ≡ month_key t)
unfolding add_day
add_day-carry t = ground arith

pub add_hour-carry :
    (t : Time)
    → (((add_hour t).hour ≡ 0) ⊎ (day_key (add_hour t) ≡ day_key t))
      × ((((add_hour t).day ≡ 1) × ((add_hour t).hour ≡ 0))
          ⊎ (month_key (add_hour t) ≡ month_key t))
unfolding add_hour
add_hour-carry t =
    let s = record t { hour = 0 } in ground (arith, add_day-carry s, fields-add_day s)

pub add_minute-carry :
    (t : Time)
    → (((add_minute t).minute ≡ 0) ⊎ (hour_key (add_minute t) ≡ hour_key t))
      × ((((add_minute t).hour ≡ 0) × ((add_minute t).minute ≡ 0))
          ⊎ (day_key (add_minute t) ≡ day_key t))
      × ((((add_minute t).day ≡ 1) × ((add_minute t).hour ≡ 0) × ((add_minute t).minute ≡ 0))
          ⊎ (month_key (add_minute t) ≡ month_key t))
unfolding add_minute
add_minute-carry t =
    let s = record t { minute = 0 } in ground (arith, add_hour-carry s, fields-add_hour s)

pub add_second-carry :
    (t : Time)
    → (((add_second t).second ≡ 0) ⊎ (minute_key (add_second t) ≡ minute_key t))
      × ((((add_second t).minute ≡ 0) × ((add_second t).second ≡ 0))
          ⊎ (hour_key (add_second t) ≡ hour_key t))
      × ((((add_second t).hour ≡ 0) × ((add_second t).minute ≡ 0) × ((add_second t).second ≡ 0))
          ⊎ (day_key (add_second t) ≡ day_key t))
      × ((((add_second t).day ≡ 1)
            × ((add_second t).hour ≡ 0)
            × ((add_second t).minute ≡ 0)
            × ((add_second t).second ≡ 0))
          ⊎ (month_key (add_second t) ≡ month_key t))
unfolding add_second
add_second-carry t =
    let s = record t { second = 0 } in ground (arith, add_minute-carry s, fields-add_minute s)
