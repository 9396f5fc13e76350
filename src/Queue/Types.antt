-- ===== src/Queue/Types.antt =====
-- delayquene/types.go: the errors, the validation of names, targets and patterns, and the value types;
-- the stored job of proto/job.pb.go.
use gua.Base.{
  ℕ, Bool, false, ◌&&◌, ◌||◌, not, Option, [], ◌∷◌, Text, codes, ◌=t◌, ltb, leb, ◌==◌,
  if◌then◌else◌, Result, ok, err, length,
}
use gua.Base.Int.{ℤ}
use gua.Base.Strings.{has_prefix, drop_prefix}
use gua.Cron.Field.{ParseError}
use gua.Cron.Parser.{Schedule, parse}

-- ErrInvalid, ErrNotFound, ErrDuplicate, and any other error, which is one of storage. The text of a
-- message is left out.
pub data Error : Type 0 where
  invalid not_found duplicate storage : Error

-- `\S` of Go's regular expressions.
pub is_blank : ℕ → Bool
is_blank c = c == 9 || c == 10 || c == 12 || c == 13 || c == 32

-- One character or more, none of them blank.
unfoldable pub is_target : Text → Bool
is_target [] = false
is_target (c ∷ []) = not (is_blank c)
is_target (c ∷ d ∷ s) = not (is_blank c) && is_target (d ∷ s)

abbrev pub http : Text
http = codes "HTTP"

abbrev pub grpc : Text
grpc = codes "GRPC"

-- What `UrlRe` makes of the text behind `HTTP@` or `GRPC@`.
abbrev pub target_or_error : Text → Text → Result Error (Text × Text)
target_or_error kind target = if is_target target then ok (kind, target) else err invalid

unfoldable pub split_request_url : Text → Result Error (Text × Text)
split_request_url url =
    if has_prefix url (codes "HTTP@")
    then target_or_error http (drop_prefix url (codes "HTTP@"))
    else if has_prefix url (codes "GRPC@")
    then target_or_error grpc (drop_prefix url (codes "GRPC@"))
    else err invalid

-- `[a-zA-Z0-9_]`.
pub is_name_char : ℕ → Bool
is_name_char c =
    (leb b'a' c && leb c b'z')
    || (leb b'A' c && leb c b'Z')
    || (leb b'0' c && leb c b'9')
    || c == b'_'

pub is_name : Text → Bool
is_name [] = false
is_name (c ∷ []) = is_name_char c
is_name (c ∷ d ∷ s) = is_name_char c && is_name (d ∷ s)

abbrev pub max_name_len : ℕ
max_name_len = 22

pub validate_name : Text → Result Error Unit
validate_name s =
    if not (is_name s)
    then err invalid
    else if ltb max_name_len (length s)
    then err invalid
    else ok tt

pub is_once : Text → Bool
is_once pattern = pattern =t [] || pattern =t codes "@once"

abbrev as_invalid : Result ParseError Schedule → Result Error Unit
as_invalid (ok s) = ok tt
as_invalid (err e) = err invalid

pub validate_pattern : (Text → Option ℤ) → Text → Result Error Unit
validate_pattern parse_duration pattern =
    if is_once pattern then ok tt else as_invalid (parse parse_duration pattern)

pub record Job : Type 0 where
  pub name : Text
  pub id : Text
  pub exectime : ℤ
  pub timeout : ℤ
  pub interval_pattern : Text
  pub request_url : Text
  pub payload : Text
  pub group_name : Text
  pub active : Bool
  pub memo : Text

pub record Stats : Type 0 where
  pub now : ℤ
  pub ready_queue_depth : ℕ
  pub running : ℕ
  pub retryable : ℕ
  pub jobs_active : ℕ
  pub jobs_paused : ℕ

pub record TriggerEnvelope : Type 0 where
  pub job_id : Text
  pub job_name : Text
  pub group_name : Text
  pub plan_time : ℤ
  pub exec_time : ℤ
  pub payload : Text
  pub idempotency_key : ℕ

-- Why a delivery failed: a bad target, the transport, a status, a reported failure.
pub data DeliveryError : Type 0 where
  bad_target transport unsupported : DeliveryError
  callback_status : ℕ → DeliveryError
  reported_failure : Text → DeliveryError

pub record HistoryEntry : Type 0 where
  pub seq : ℕ
  pub job_id : Text
  pub group_name : Text
  pub type : Text
  pub plan_time : ℤ
  pub exec_time : ℤ
  pub finish_time : ℤ
  pub success : Bool
  pub message : Text
  pub error : Option DeliveryError
  pub exec_machine_host : Text
  pub created_at : ℤ

-- Opens the code above, for a run on concrete values.
unfoldable pub types_code : Unit {0}
unfolding ◌=t◌ has_prefix drop_prefix is_blank is_target split_request_url is_name_char is_name
    validate_name is_once validate_pattern
types_code = tt
