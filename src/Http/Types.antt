-- ===== src/Http/Types.antt =====
-- httpv1/spec.go: the bodies of requests and responses; WriteJSON, writeErr and readJSON of
-- httpv1/http.go. What encoding/json makes of a body is a parameter.
use gua.Base.{
  ℕ, ◌^◌, Bool, Option, none, some, List, [], ◌∷◌, Text, codes, if◌then◌else◌, Result, ok, err,
  length, ltb, ◌==◌,
}
use gua.Base.Int.{ℤ}
use gua.Queue.Types.{Error, invalid, not_found, duplicate, storage, HistoryEntry, Stats}

pub record EditJobPayload : Type 0 where
  pub request_url : Text
  pub payload : Text

pub record AddJobPayload : Type 0 where
  pub job_id : Text
  pub name : Text
  pub exec_time : ℤ
  pub request_url : Text
  pub interval_pattern : Text
  pub payload : Text
  pub timeout : ℤ
  pub memo : Text

pub record RegisterGroupPayload : Type 0 where
  pub group_name : Text

pub record ActiveJobPayload : Type 0 where
  pub exec_time : ℤ

pub record ResponseJobList : Type 0 where
  pub name : Text
  pub id : Text
  pub exec_time : ℤ
  pub interval_pattern : Text
  pub request_url : Text
  pub payload : Text
  pub timeout : ℤ
  pub group_name : Text
  pub active : Bool
  pub memo : Text

-- `err.Error()` of an error of the queue, of reading a body or of decoding it; the texts are left out.
pub data Reason : Type 0 where
  of_queue : Error → Reason
  of_read of_json : Reason

-- What is written into the envelope.
pub data Answer : Type 0 where
  text : Text → Answer
  reason : Reason → Answer
  number : ℕ → Answer
  names : List Text → Answer
  jobs : List ResponseJobList → Answer
  entries : List HistoryEntry → Answer
  snapshot : Stats → Answer

pub data Envelope : Type 0 where
  success error : Answer → Envelope
  plain : Text → Envelope

pub record Response : Type 0 where
  pub status : ℕ
  pub body : Envelope

unfoldable pub write_json : Answer → ℕ → Response
write_json data' status = record {
  status = status;
  body = if status == 200 then success data' else error data';
}

unfoldable pub write_err : Error → Response
unfolding write_json
write_err invalid = write_json (reason (of_queue invalid)) 400
write_err not_found = write_json (reason (of_queue not_found)) 404
write_err duplicate = write_json (reason (of_queue duplicate)) 409
write_err storage = write_json (text (codes "internal error")) 500

-- The bytes of a request's body, or an error while they are read.
pub data Body : Type 0 where
  broken : Body
  bytes : List ℕ → Body

abbrev pub max_body_bytes : ℕ
max_body_bytes = 2 ^ 20

module _ {P : Type 0} where
  abbrev pub decoded : Option P → Result Response P
  decoded none = err (write_json (reason of_json) 400)
  decoded (some p) = ok p

  abbrev pub decode_bytes : List ℕ → P → (List ℕ → Option P) → Result Response P
  decode_bytes [] zero_value decode = ok zero_value
  decode_bytes (b ∷ bs) zero_value decode = decoded (decode (b ∷ bs))

  -- The value decoded, or the response that is written; an empty body leaves the zero value.
  unfoldable pub read_json : Body → P → (List ℕ → Option P) → Result Response P
  read_json broken zero_value decode = err (write_json (reason of_read) 400)
  read_json (bytes b) zero_value decode =
      if ltb max_body_bytes (length b)
      then err (write_json (text (codes "body too large")) 413)
      else decode_bytes b zero_value decode
