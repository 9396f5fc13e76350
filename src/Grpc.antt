-- ===== src/Grpc.antt =====
-- The admin gRPC API: grpc.go. A call answers a response or a status code; the texts of the codes and
-- logging are left out. The context of a call is not read.
pub mod Urls
pub mod Mirror
mod Examples
use gua.Base.{
  Bool, true, false, Option, List, [], ◌∷◌, ◌++◌, map, Text, codes, ◌=t◌, if◌then◌else◌, Result, ok,
  err,
}
use gua.Base.Int.{ℤ}
use gua.Base.Strings.{has_prefix, drop_prefix}
use gua.Queue.Types.{Error, invalid, not_found, duplicate, storage, Job}
use gua.Queue.Store.{Insert}
use gua.Queue.Monad.{World}
use gua.Queue.Admin
use gua.Queue.Reads

pub data Code : Type 0 where
  invalid_argument code_not_found already_exists internal : Code

-- `grpcErr` of an error.
unfoldable pub grpc_err : Error → Code
grpc_err invalid = invalid_argument
grpc_err not_found = code_not_found
grpc_err duplicate = already_exists
grpc_err storage = internal

-- The enum of the protocol buffers, which holds any other number too.
pub data DeliveryType : Type 0 where
  delivery_http delivery_grpc delivery_other : DeliveryType

abbrev joined : Text → Text → Result Error Text
joined prefix [] = err invalid
joined prefix (c ∷ target) = ok (prefix ++ codes "@" ++ c ∷ target)

unfoldable pub build_request_url : DeliveryType → Text → Result Error Text
build_request_url delivery_http target = joined (codes "HTTP") target
build_request_url delivery_grpc target = joined (codes "GRPC") target
build_request_url delivery_other target = err invalid

-- `strings.TrimPrefix(s, prefix)`.
abbrev trim_prefix : Text → Text → Text
trim_prefix s prefix = if has_prefix s prefix then drop_prefix s prefix else s

unfoldable pub parse_request_url : Text → DeliveryType × Text
parse_request_url url =
    if has_prefix url (codes "GRPC@")
    then (delivery_grpc, trim_prefix url (codes "GRPC@"))
    else (delivery_http, trim_prefix url (codes "HTTP@"))

pub record AddJobRequest : Type 0 where
  pub group_name : Text
  pub job_id : Text
  pub name : Text
  pub exec_time : ℤ
  pub interval_pattern : Text
  pub delivery : DeliveryType
  pub target : Text
  pub payload : Text
  pub timeout : ℤ
  pub memo : Text

pub record EditJobRequest : Type 0 where
  pub group_name : Text
  pub job_id : Text
  pub delivery : DeliveryType
  pub target : Text
  pub payload : Text

pub record JobInfo : Type 0 where
  pub name : Text
  pub id : Text
  pub exec_time : ℤ
  pub interval_pattern : Text
  pub delivery : DeliveryType
  pub target : Text
  pub payload : Text
  pub group_name : Text
  pub active : Bool
  pub memo : Text

-- A step of the world that answers.
abbrev pub Call : Type 0 → Type 0
Call A = World → Result Code A × World

module _ {A B : Type 0} where
  -- `if err != nil { return nil, grpcErr(err) }`.
  abbrev pub reply : (A → B) → Result Error A × World → Result Code B × World
  reply show (ok a, w) = (ok (show a), w)
  reply show (err e, w) = (err (grpc_err e), w)

  abbrev pub with_url : Result Error A → (A → Call B) → Call B
  with_url (ok a) k w = k a w
  with_url (err e) k w = (err (grpc_err e), w)

abbrev pub empty : Unit {0} → Unit {0}
empty u = tt

pub register_group : Text → Call Unit
register_group group w = reply empty (Admin.register_group group w)

pub remove_group : Text → Call Unit
remove_group group w = reply empty (Admin.remove_group group w)

pub edit_job : EditJobRequest → Call Unit
edit_job r =
    with_url (build_request_url r.delivery r.target)
      λ url w. reply empty (Admin.edit r.group_name r.job_id url r.payload w)

pub delete_job : Text → Text → Call Unit
delete_job group id w = reply empty (Admin.delete group id w)

pub pause_job : Text → Text → Call Unit
pause_job group id w = reply empty (Admin.pause group id w)

abbrev pub id_of : Text → AddJobRequest → Text
id_of uid r = if r.job_id =t [] then uid else r.job_id

abbrev pub job_of : Text → Text → AddJobRequest → Job
job_of uid url r = record {
  name = r.name;
  id = id_of uid r;
  exectime = r.exec_time;
  timeout = r.timeout;
  interval_pattern = r.interval_pattern;
  request_url = url;
  payload = r.payload;
  group_name = r.group_name;
  active = true;
  memo = r.memo;
}

module _ (insert : Insert) (now : ℤ) where
  -- `uid` is what GenerateUID returns.
  pub add_job : (Text → Option ℤ) → Text → AddJobRequest → Call Text
  add_job parse_duration uid r = with_url (build_request_url r.delivery r.target) λ url w.
      reply (λ (_ : Unit {0}). id_of uid r)
        (Admin.push insert parse_duration now (job_of uid url r) w)

  pub active_job : Text → Text → ℤ → Call Unit
  active_job group id exec_time w = reply empty (Admin.active insert now group id exec_time w)

abbrev info : Job → JobInfo
info j =
    let (delivery, target) = parse_request_url j.request_url in
    record {
      name = j.name;
      id = j.id;
      exec_time = j.exectime;
      interval_pattern = j.interval_pattern;
      delivery = delivery;
      target = target;
      payload = j.payload;
      group_name = j.group_name;
      active = j.active;
      memo = j.memo;
    }

pub list_jobs : Text → Call (List JobInfo)
list_jobs group w = reply (map info) (Reads.list_jobs group w)
