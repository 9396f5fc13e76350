-- ===== src/Cron/Next/Wraps.antt =====
-- What each loop of `Next` (delayquene/spec.go) leaves for the code behind it, by a wrap-around and by
-- a match.
use gua.Base.{◌≡◌, sym, ap, ◌⊎◌, inl, inr, Bool, true, arith}
use gua.Cron.Calendar.{Time, IsTime, add_day, add_hour, add_minute, add_second}
use gua.Cron.Calendar.Order.{
  add_day-carry, add_hour-carry, add_minute-carry, add_second-carry, fields-add_day,
  fields-add_hour, fields-add_minute, fields-add_second,
}
use gua.Cron.Next.{SpecSchedule, month_loop, day_loop, hour_loop, minute_loop, second_loop}
use gua.Cron.Next.OneLoop.{next_unit}
use gua.Cron.Next.Loops.{
  month_loop-IsLoop, day_loop-IsLoop, hour_loop-IsLoop, minute_loop-IsLoop, second_loop-IsLoop,
}
use gua.Cron.Next.Ready.{
  IsReady, landed-IsReady, BeforeDay, BeforeHour, BeforeMinute, BeforeSecond, BeforeDay-same,
  BeforeHour-same, BeforeMinute-same, BeforeSecond-same,
}

module _ (s : SpecSchedule) where
  -- After a wrap-around a field matches as before, or the smaller fields are at their start.
  pub second_wrap-IsReady :
      (p : Time) → IsTime p → BeforeSecond s p → IsReady s (next_unit (second_loop s) p) true
  second_wrap-IsReady p h b =
      let q = record p { nano = 0 } in
      let (c₁, c₂, c₃, c₄) = add_second-carry q in
      let t' = add_second q in
      let v = (second_loop-IsLoop s).next_time p h in
      landed-IsReady s t' v (fields-add_second q)
        (elim c₄ [ inl z ↦ inl z | inr e ↦ inr (BeforeDay-same s p t' h v e b.0) ])
        (elim c₃ [ inl z ↦ inl z | inr e ↦ inr (BeforeHour-same s p t' h v e (b.0, b.1)).1 ])
        (elim c₂ [ inl z ↦ inl z | inr e ↦ inr (BeforeMinute-same s p t' h v e (b.0, b.1, b.2)).2 ])
        (elim c₁ [ inl z ↦ inl z | inr e ↦ inr (BeforeSecond-same s p t' h v e b).3 ])

  pub minute_wrap-IsReady :
      (p : Time) → IsTime p → BeforeMinute s p → IsReady s (next_unit (minute_loop s) p) true
  minute_wrap-IsReady p h b =
      let q = record p { second = 0; nano = 0 } in
      let (c₁, c₂, c₃) = add_minute-carry q in
      let (sec, nan) = fields-add_minute q in
      let t' = add_minute q in
      let v = (minute_loop-IsLoop s).next_time p h in
      landed-IsReady s t' v nan
        (elim c₃ [
          | inl z ↦ inl (z.0, z.1, z.2, sec)
          | inr e ↦ inr (BeforeDay-same s p t' h v e b.0)
        ])
        (elim c₂ [
          | inl z ↦ inl (z.0, z.1, sec)
          | inr e ↦ inr (BeforeHour-same s p t' h v e (b.0, b.1)).1
        ])
        (elim c₁ [ inl z ↦ inl (z, sec) | inr e ↦ inr (BeforeMinute-same s p t' h v e b).2 ])
        (inl sec)

  pub hour_wrap-IsReady :
      (p : Time) → IsTime p → BeforeHour s p → IsReady s (next_unit (hour_loop s) p) true
  hour_wrap-IsReady p h b =
      let q = record p { minute = 0; second = 0; nano = 0 } in
      let (c₁, c₂) = add_hour-carry q in
      let (min, sec, nan) = fields-add_hour q in
      let t' = add_hour q in
      let v = (hour_loop-IsLoop s).next_time p h in
      landed-IsReady s t' v nan
        (elim c₂ [
          | inl z ↦ inl (z.0, z.1, min, sec)
          | inr e ↦ inr (BeforeDay-same s p t' h v e b.0)
        ])
        (elim c₁ [ inl z ↦ inl (z, min, sec) | inr e ↦ inr (BeforeHour-same s p t' h v e b).1 ])
        (inl (min, sec)) (inl sec)

  pub day_wrap-IsReady :
      (p : Time) → IsTime p → BeforeDay s p → IsReady s (next_unit (day_loop s) p) true
  day_wrap-IsReady p h b =
      let q = record p { hour = 0; minute = 0; second = 0; nano = 0 } in
      let (hr, min, sec, nan) = fields-add_day q in
      let t' = add_day q in
      let v = (day_loop-IsLoop s).next_time p h in
      landed-IsReady s t' v nan
        (elim (add_day-carry q) [
          | inl z ↦ inl (z, hr, min, sec)
          | inr e ↦ inr (BeforeDay-same s p t' h v e b)
        ])
        (inl (hr, min, sec)) (inl (min, sec)) (inl sec)

  pub month_wrap-IsReady : (p : Time) → IsTime p → IsReady s (next_unit (month_loop s) p) true
  month_wrap-IsReady p h =
      let t' = next_unit (month_loop s) p in
      let laws = month_loop-IsLoop s in
      let start = laws.next_start p h in
      landed-IsReady s t' (laws.next_time p h) (sym (ap (λ (x : Time). x.nano) start))
        (inl (ground arith)) (inl (ground arith)) (inl (ground arith)) (inl (ground arith))

  -- At a match the loop has not moved, or stands at the start of a unit.
  pub month_match-IsReady :
      (t t' : Time) (a a' : Bool)
      → IsReady s t a
      → IsTime t'
      → BeforeDay s t'
      → ((t' ≡ t) × (a' ≡ a)) ⊎ (((month_loop s).reset t' ≡ t') × (a' ≡ true))
      → IsReady s t' a'
  month_match-IsReady t t' a a' ready v b (inl (e, f)) = rw (e, f) ready
  month_match-IsReady t t' a a' ready v b (inr (start, f)) = rw f (
      landed-IsReady s t' v (ground (arith, start)) (inr b) (inl (ground (arith, start)))
        (inl (ground (arith, start))) (inl (ground (arith, start))))

  pub day_match-IsReady :
      (t t' : Time) (a a' : Bool)
      → IsReady s t a
      → IsTime t'
      → BeforeHour s t'
      → ((t' ≡ t) × (a' ≡ a)) ⊎ (((day_loop s).reset t' ≡ t') × (a' ≡ true))
      → IsReady s t' a'
  day_match-IsReady t t' a a' ready v b (inl (e, f)) = rw (e, f) ready
  day_match-IsReady t t' a a' ready v b (inr (start, f)) = rw f (
      landed-IsReady s t' v (ground (arith, start)) (inr b.0) (inr b.1)
        (inl (ground (arith, start))) (inl (ground (arith, start))))

  pub hour_match-IsReady :
      (t t' : Time) (a a' : Bool)
      → IsReady s t a
      → IsTime t'
      → BeforeMinute s t'
      → ((t' ≡ t) × (a' ≡ a)) ⊎ (((hour_loop s).reset t' ≡ t') × (a' ≡ true))
      → IsReady s t' a'
  hour_match-IsReady t t' a a' ready v b (inl (e, f)) = rw (e, f) ready
  hour_match-IsReady t t' a a' ready v b (inr (start, f)) = rw f (
      landed-IsReady s t' v (ground (arith, start)) (inr b.0) (inr b.1) (inr b.2)
        (inl (ground (arith, start))))

  pub minute_match-IsReady :
      (t t' : Time) (a a' : Bool)
      → IsReady s t a
      → IsTime t'
      → BeforeSecond s t'
      → ((t' ≡ t) × (a' ≡ a)) ⊎ (((minute_loop s).reset t' ≡ t') × (a' ≡ true))
      → IsReady s t' a'
  minute_match-IsReady t t' a a' ready v b (inl (e, f)) = rw (e, f) ready
  minute_match-IsReady t t' a a' ready v b (inr (start, f)) =
      rw f (landed-IsReady s t' v (ground (arith, start)) (inr b.0) (inr b.1) (inr b.2) (inr b.3))
