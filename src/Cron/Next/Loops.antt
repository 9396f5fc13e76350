-- ===== src/Cron/Next/Loops.antt =====
-- The five loops of `Next` (delayquene/spec.go) have the laws of a loop.
use gua.Base.{suc, ◌+◌, ◌-◌, ◌≤◌, ◌<◌, ◌≡◌, ap, false, arith, ltb, ◌==◌, if◌then◌else◌}
use gua.Cron.Bits.{has_bit}
use gua.Cron.Calendar.{
  Time, IsTime, days_in_month_bounds, add_day, add_hour, add_minute, add_second, add_month,
  normal_day, month_key, day_key, hour_key, minute_key, key,
}
use gua.Cron.Calendar.Order.{
  month_key-injective, day_key-injective, add_day-IsTime, add_hour-IsTime, add_minute-IsTime,
  add_second-IsTime, add_day-later, add_hour-later, add_minute-later, add_second-later, same_second,
  same_minute, same_hour, same_day, fields-add_day, fields-add_hour, fields-add_minute,
  fields-add_second,
}
use gua.Cron.Next.{
  SpecSchedule, day_matches, month_loop, day_loop, hour_loop, minute_loop, second_loop,
}
use gua.Cron.Next.OneLoop.{IsLoop}

-- The first second of the month after that of `t`.
abbrev month_after : Time → Time
month_after t =
    if ltb t.month 12
    then record {
      year = t.year;
      month = t.month + 1;
      day = 1;
      hour = 0;
      minute = 0;
      second = 0;
      nano = 0;
    }
    else record {
      year = t.year + 1;
      month = 1;
      day = 1;
      hour = 0;
      minute = 0;
      second = 0;
      nano = 0;
    }

add_month-start :
    (t : Time)
    → IsTime t
    → add_month (record t { day = 1; hour = 0; minute = 0; second = 0; nano = 0 }) ≡ month_after t
unfolding add_month normal_day
add_month-start t h =
    ground (arith, days_in_month_bounds t.year (t.month + 1), days_in_month_bounds (t.year + 1) 1)

month_after-IsTime : (t : Time) → IsTime t → IsTime (month_after t)
month_after-IsTime t h =
    ground (arith, days_in_month_bounds t.year (t.month + 1), days_in_month_bounds (t.year + 1) 1)

month_after-bounds :
    (t u : Time)
    → IsTime t
    → IsTime u
    → (key t < key (month_after t))
      × (key t ≤ key u → key u < key (month_after t) → u.month ≡ t.month)
month_after-bounds t u h hu =
    ground (arith, days_in_month_bounds t.year t.month, days_in_month_bounds u.year u.month)

month_after-place :
    (t : Time)
    → IsTime t
    → ((month_after t).month == 1) ≡ false
    → ((month_after t).month - 1 ≡ suc (t.month - 1)) × ((month_after t).year ≡ t.year)
month_after-place t h e = ground arith

module _ (s : SpecSchedule) where
  pub second_loop-IsLoop : IsLoop (second_loop s) 60 (λ t. t.second) minute_key
  unfolding add_second
  second_loop-IsLoop = record {
    place_lt = λ t h. h.second_lt;
    next_time = λ t h. ground (arith, add_second-IsTime (record t { nano = 0 }));
    next_start = λ t h. ground (arith, fields-add_second (record t { nano = 0 }));
    next_later = λ t h. ground (arith, add_second-later (record t { nano = 0 }));
    next_same = λ t u h hu from to.
        ap (λ x. has_bit x s.second)
          (same_second (record t { nano = 0 }) u (omega arith) hu from to);
    next_place = λ t h e. ground (arith, fields-add_minute (record t { second = 0; nano = 0 }));
  }

  pub minute_loop-IsLoop : IsLoop (minute_loop s) 60 (λ t. t.minute) hour_key
  unfolding add_minute
  minute_loop-IsLoop = record {
    place_lt = λ t h. h.minute_lt;
    next_time = λ t h. add_minute-IsTime (record t { second = 0; nano = 0 }) (omega arith);
    next_start = λ t h. ground (arith, fields-add_minute (record t { second = 0; nano = 0 }));
    next_later = λ t h.
        let p = record t { second = 0; nano = 0 } in
        omega (arith, add_minute-later p (omega arith), fields-add_minute p);
    next_same = λ t u h hu from to.
        let p = record t { second = 0; nano = 0 } in
        ap (λ x. has_bit x s.minute)
          (same_minute p u (omega arith) hu (omega arith) (omega (arith, hu, fields-add_minute p)));
    next_place =
        λ t h e. ground (arith, fields-add_hour (record t { minute = 0; second = 0; nano = 0 }));
  }

  pub hour_loop-IsLoop : IsLoop (hour_loop s) 24 (λ t. t.hour) day_key
  unfolding add_hour
  hour_loop-IsLoop = record {
    place_lt = λ t h. h.hour_lt;
    next_time =
        λ t h. add_hour-IsTime (record t { minute = 0; second = 0; nano = 0 }) (omega arith);
    next_start =
        λ t h. ground (arith, fields-add_hour (record t { minute = 0; second = 0; nano = 0 }));
    next_later = λ t h.
        let p = record t { minute = 0; second = 0; nano = 0 } in
        omega (arith, add_hour-later p (omega arith), fields-add_hour p);
    next_same = λ t u h hu from to.
        let p = record t { minute = 0; second = 0; nano = 0 } in
        ap (λ x. has_bit x s.hour)
          (same_hour p u (omega arith) hu (omega arith) (omega (arith, hu, fields-add_hour p)));
    next_place = λ t h e.
        ground (arith, fields-add_day (record t { hour = 0; minute = 0; second = 0; nano = 0 }));
  }

  pub day_matches-same :
      (t u : Time) → IsTime t → IsTime u → day_key t ≡ day_key u → day_matches s t ≡ day_matches s u
  unfolding day_matches
  day_matches-same t u ht hu e =
      let (m, d) = day_key-injective t u ht hu e in
      let (y, n) = month_key-injective t u ht hu m in cc

  pub day_loop-IsLoop : IsLoop (day_loop s) 31 (λ t. t.day - 1) month_key
  unfolding add_day
  day_loop-IsLoop = record {
    place_lt = λ t h. omega (arith, days_in_month_bounds t.year t.month);
    next_time = λ t h.
        add_day-IsTime (record t { hour = 0; minute = 0; second = 0; nano = 0 }) (omega arith);
    next_start = λ t h.
        ground (arith, fields-add_day (record t { hour = 0; minute = 0; second = 0; nano = 0 }));
    next_later = λ t h.
        let p = record t { hour = 0; minute = 0; second = 0; nano = 0 } in
        omega (arith, add_day-later p (omega arith), fields-add_day p);
    next_same = λ t u h hu from to.
        let p = record t { hour = 0; minute = 0; second = 0; nano = 0 } in
        day_matches-same u t hu h (
          same_day p u (omega arith) hu (omega (arith, days_in_month_bounds u.year u.month))
            (omega (arith, fields-add_day p, days_in_month_bounds u.year u.month)));
    next_place = λ t h e. ground arith;
  }

  pub month_loop-IsLoop : IsLoop (month_loop s) 12 (λ t. t.month - 1) (λ t. t.year)
  month_loop-IsLoop = record {
    place_lt = λ t h. omega arith;
    next_time = λ t h. rw (add_month-start t h) (month_after-IsTime t h);
    next_start = λ t h. rw (add_month-start t h) (ground arith);
    next_later = λ t h. rw (add_month-start t h) (month_after-bounds t t h h).0;
    next_same = λ t u h hu from to.
        ap (λ x. has_bit x s.month)
          ((month_after-bounds t u h hu).1 from (rw (add_month-start t h) at to));
    next_place = λ t h. rw (add_month-start t h) (month_after-place t h);
  }
