-- ===== src/Queue/Reads.antt =====
-- The calls of delayquene/riverquene.go that only read: List, ExistsGroup, GroupInfo, QueryGroups, Stats
-- and History. Rows that `ORDER BY` does not tell apart keep the order of the table.
pub mod History
pub mod Unchanged
pub mod Snapshot
use gua.Base.{
  ℕ, zero, suc, ◌+◌, Bool, true, false, ◌&&◌, ◌||◌, not, Option, none, some, List, [], ◌∷◌, Text,
  ◌=t◌, if◌then◌else◌, Result, ok, err, keep, count, find, take, leb, ltb,
}
use gua.Base.Int.{ℤ, pos, negsuc, pos_part, ltb_ℤ}
use gua.Queue.Types.{Error, not_found, Job, Stats, HistoryEntry}
use gua.Queue.Store.{
  Store, RiverJob, Kind, gua_delivery, gua_history_prune, in_group, is_pending, is_running,
  is_retryable,
}
use gua.Queue.Monad.{Db, query, pure, ◌>>=◌}

-- `ORDER BY`: `before x y` says that `x` comes first.
module _ {A : Type 0} (before : A → A → Bool) where
  abbrev pub place : A → List A → List A
  place x [] = x ∷ []
  place x (y ∷ ys) = let rest = place x ys in if before y x then y ∷ rest else x ∷ y ∷ ys

  abbrev pub order_by : List A → List A
  order_by [] = []
  order_by (x ∷ xs) = place x (order_by xs)

pub list_jobs : Text → Db (List Job)
list_jobs group =
    query λ s. ok (order_by (λ i j. ltb_ℤ i.exectime j.exectime) (keep (in_group group) s.jobs), s)

pub exists_group : Text → Db Bool
exists_group group = query λ s. ok (ltb 0 (count (λ g. g =t group) s.groups), s)

abbrev found_group : Store → Option Text → Result Error (Text × Store)
found_group s none = err not_found
found_group s (some g) = ok (g, s)

pub group_info : Text → Db Text
group_info group = query λ s. found_group s (find (λ g. g =t group) s.groups)

-- The order of names is that of the database's collation.
pub query_groups : (Text → Text → Bool) → Db (List Text)
query_groups before = query λ s. ok (order_by before s.groups, s)

abbrev pub is_delivery : Kind → Bool
is_delivery (gua_delivery a) = true
is_delivery gua_history_prune = false

abbrev deliveries : (RiverJob → Bool) → Store → ℕ
deliveries p s = count (λ o. is_delivery o.kind && p o) s.river

abbrev depths : Store → ℕ × ℕ × ℕ
depths s = (
  deliveries (λ o. is_pending o.state) s,
  deliveries (λ o. is_running o.state) s,
  deliveries (λ o. is_retryable o.state) s,
)

abbrev flags : Store → ℕ × ℕ
flags s = (count (λ j. j.active) s.jobs, count (λ j. not j.active) s.jobs)

pub stats : ℤ → Db Stats
stats now = do
  depth ← query λ s. ok (depths s, s)
  jobs ← query λ s. ok (flags s, s)
  pure (record {
    now = now;
    ready_queue_depth = depth.0;
    running = depth.1;
    retryable = depth.2;
    jobs_active = jobs.0;
    jobs_paused = jobs.1;
  })

-- `if limit <= 0 || limit > 1000 { limit = 100 }`.
pub page_limit : ℤ → ℕ
page_limit limit =
    if not (ltb_ℤ (pos 0) limit) || ltb_ℤ (pos 1000) limit then 100 else pos_part limit

abbrev pub newer : HistoryEntry → HistoryEntry → Bool
newer e f = ltb f.seq e.seq

pub history : Text → ℤ → Db (List HistoryEntry)
history group limit = query λ s.
    ok
      (take (page_limit limit) (order_by newer (keep (λ e. e.group_name =t group) s.executions)), s)

-- Opens the code above, for a run on concrete tables.
unfoldable pub reads_code : Unit {0}
unfolding list_jobs exists_group group_info query_groups stats page_limit history
reads_code = tt
