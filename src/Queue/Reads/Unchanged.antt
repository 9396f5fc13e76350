-- ===== src/Queue/Reads/Unchanged.antt =====
-- The calls that read change no table.
use gua.Base.{◌≡◌, Bool, Text, arith}
use gua.Base.Int.{ℤ}
use gua.Queue.Monad.{World, query}
use gua.Queue.Reads.{list_jobs, exists_group, group_info, query_groups, stats, history}

pub list_jobs-unchanged : (group : Text) (w : World) → (list_jobs group w).1.store ≡ w.store
unfolding list_jobs query
list_jobs-unchanged group w = ground arith

pub exists_group-unchanged : (group : Text) (w : World) → (exists_group group w).1.store ≡ w.store
unfolding exists_group query
exists_group-unchanged group w = ground arith

pub group_info-unchanged : (group : Text) (w : World) → (group_info group w).1.store ≡ w.store
unfolding group_info query
group_info-unchanged group w = ground arith

pub query_groups-unchanged :
    (before : Text → Text → Bool) (w : World) → (query_groups before w).1.store ≡ w.store
unfolding query_groups query
query_groups-unchanged before w = ground arith

pub stats-unchanged : (now : ℤ) (w : World) → (stats now w).1.store ≡ w.store
unfolding stats query
stats-unchanged now w = ground arith

pub history-unchanged :
    (group : Text) (limit : ℤ) (w : World) → (history group limit w).1.store ≡ w.store
unfolding history query
history-unchanged group limit w = ground arith
