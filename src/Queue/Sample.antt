-- ===== src/Queue/Sample.antt =====
-- A group with one job, for the examples: its tables, the consumers, a clock and a configuration.
use gua.Base.{
  ℕ, suc, refl, true, Option, none, some, [], ◌∷◌, ◌++◌, Text, codes, =t_flip, length, arith,
}
use gua.Base.Int.{ℤ, pos}
use gua.Cron.Next.{new_year}
use gua.Queue.Types.{Job}
use gua.Queue.Config.{RiverConfig}
use gua.Queue.Store.{Store, RiverJob, JobArgs, gua_delivery, scheduled, running, Insert, IsInsert}
use gua.Queue.Monad.{World}
use gua.Queue.Invariant.{IsConsistent}
use gua.Queue.Invariant.Busy.{IsBusy}
use gua.Queue.Worker.{Transport, Clock}

abbrev pub occurrence : ℕ → JobArgs → RiverJob
occurrence id a = record {
  id = id;
  kind = gua_delivery a;
  state = scheduled;
  attempt = 0;
  max_attempts = 25;
}

abbrev pub river_insert : Insert
river_insert rows a at = some (rows ++ occurrence (suc (length rows)) a ∷ [])

pub river_insert-IsInsert : IsInsert river_insert
river_insert-IsInsert = record {
  row = λ rows a at. occurrence (suc (length rows)) a;
  adds = λ rows a at rows' h. (cc, refl, refl);
}

abbrev pub no_duration : Text → Option ℤ
no_duration _ = none

abbrev pub billing : Text
billing = codes "billing"

abbrev pub invoice : Job
invoice = record {
  name = codes "invoice";
  id = codes "a1";
  exectime = pos 1_700_000_000;
  timeout = pos 0;
  interval_pattern = codes "@once";
  request_url = codes "HTTP@http://x";
  payload = [];
  group_name = billing;
  active = true;
  memo = [];
}

abbrev pub invoice_args : JobArgs
invoice_args = record { job_id = codes "a1"; group_name = billing; plan_time = pos 1_700_000_000 }

abbrev pub store : Store
store = record {
  groups = billing ∷ [];
  jobs = invoice ∷ [];
  river = occurrence 1 invoice_args ∷ [];
  executions = [];
  next_seq = 1;
}

abbrev pub world : World
world = record { store = store; faults = []; sent = [] }

pub store-IsConsistent : IsConsistent store.jobs store.river
store-IsConsistent = record { unique = λ id. ground arith; planned = λ group id. ground arith }

abbrev pub all_well : Transport
all_well = record {
  post = λ target timeout env. some (codes "done", 200);
  on_job_trigger = λ target timeout env. none;
}

abbrev pub clock : Clock
clock = record {
  exec_time = pos 1_700_000_001;
  sent_time = pos 1_700_000_001;
  finish_time = pos 1_700_000_002;
  now = new_year;
}

abbrev pub config : RiverConfig
config = record {
  max_workers = pos 0;
  max_attempts = pos 0;
  delivery_timeout = pos 0;
  machine_host = codes "h";
  history_ttl = pos 60;
  prune_interval = pos 0;
}

-- The occurrence is running.
abbrev pub taken : RiverJob
taken = record (occurrence 1 invoice_args) { state = running; attempt = 1 }

abbrev pub in_flight : World
in_flight = record world { store = record store { river = taken ∷ [] } }

pub in_flight-IsBusy : IsBusy (codes "a1") in_flight.store.jobs in_flight.store.river
in_flight-IsBusy = record {
  unique = λ id. ground arith;
  idle = λ group. refl;
  others = λ group id other. ground (arith, =t_flip id (codes "a1"));
}
