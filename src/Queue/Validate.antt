-- ===== src/Queue/Validate.antt =====
-- The checks of `Push` in delayquene/riverquene.go, before its transaction, and the defaults it fills
-- in.
use gua.Base.{
  Bool, true, false, not, Option, [], Text, codes, ◌=t◌, if◌then◌else◌, Result, ok, err, ◌>>◌, ◌==◌,
}
use gua.Base.Int.{ℤ, pos, negsuc}
use gua.Queue.Types.{
  types_code, Error, invalid, split_request_url, validate_name, validate_pattern, Job,
}

abbrev pub guard : Bool → Error → Result Error Unit
guard true e = ok tt
guard false e = err e

abbrev pub is_negative : ℤ → Bool
is_negative (pos n) = false
is_negative (negsuc n) = true

abbrev is_zero : ℤ → Bool
is_zero (pos n) = n == 0
is_zero (negsuc n) = false

-- `if exectime == 0 { exectime = time.Now().Unix() }`.
abbrev pub or_now : ℤ → ℤ → ℤ
or_now now exectime = if is_zero exectime then now else exectime

-- `if job.IntervalPattern == "" { job.IntervalPattern = "@once" }`.
pub or_once : Text → Text
or_once pattern = if pattern =t [] then codes "@once" else pattern

-- The job that `Push` goes on with, or the first objection to it.
pub validate_push : (Text → Option ℤ) → ℤ → Job → Result Error Job
validate_push parse_duration now job = do
  validate_name job.group_name
  validate_name job.id
  guard (not (job.name =t [])) invalid
  split_request_url job.request_url
  validate_pattern parse_duration (or_once job.interval_pattern)
  guard (not (is_negative job.exectime)) invalid
  guard (not (is_negative job.timeout)) invalid
  ok (record job {
    interval_pattern = or_once job.interval_pattern;
    exectime = or_now now job.exectime;
  })

unfoldable pub validate_code : Unit {0}
unfolding or_once validate_push types_code
validate_code = tt
