-- ===== src/Tests/Steps.antt =====
-- Runs of the master, step by step.
use mathlib.Core.List.{Perm}
use mathlib.Core.List.Perm
use log_grid.Base.{List, [], arith, none, refl, some, ℕ, ◌+◌, ◌<◌, ◌^◌, ◌↔◌, ◌≡◌, ◌≤◌, ◌⊎◌}
use log_grid.Base.Assoc.{lookup}
use log_grid.Protocol.{TaskPayload}
use log_grid.Master.State.{
  add_pending_tasks, allocate_search_id, done, get_status, init, running, status_of,
}
use log_grid.Master.Dispatch.Tally.{tally}
use log_grid.Master.Handlers.{register_worker}
use log_grid.Master.Accounting.{outstanding}
use log_grid.Master.Steps.{
  Cluster, IsNew, Run, Step, add_one, allocates, drop_one, more, publishes, registers,
  start_cluster, stay, with_master,
}
use log_grid.Master.Steps.Invariant.{
  ClusterInv, Run-ClusterInv, Step-ClusterInv, get_status-Run, reserved-Run, start-ClusterInv,
}
use log_grid.Master.Steps.Advance.{Step-Advance}
use log_grid.Master.Steps.Progress.{Advance, progress}
use log_grid.Master.Steps.Final.{done-Run}
use log_grid.Tests.Cluster.{allocated, session, tasks}

abbrev pub in_order : List (ℕ × TaskPayload) → List (ℕ × TaskPayload)
in_order ts = ts

pub in_order-perm : (ts : List (ℕ × TaskPayload)) → Perm (in_order ts) ts
in_order-perm ts = Perm.refl ts

-- An id is given out.
abbrev holding : Cluster
holding = record start_cluster {
  master = allocated;
  reserved = add_one (allocate_search_id init).0 start_cluster.reserved;
}

abbrev holding_step : Step in_order start_cluster holding
holding_step = allocates start_cluster (omega arith)

holding-Run : Run in_order start_cluster holding
holding-Run = more stay holding_step

reserved-Run_example :
    (holding.reserved 0 ≤ 1)
    × ((holding.reserved 0 ≡ 0) ⊎ (lookup 0 holding.master.sessions ≡ none))
reserved-Run_example = reserved-Run in_order in_order-perm holding 0 holding-Run

-- A search is published with it: of tasks, or of a file with none.
abbrev with_tasks : List TaskPayload → Cluster
with_tasks new = record holding {
  master = add_pending_tasks session new allocated;
  reserved = drop_one 0 holding.reserved;
}

with_tasks-Step :
    (new : List TaskPayload) → IsNew session new → Step in_order holding (with_tasks new)
unfolding allocate_search_id
with_tasks-Step new is_new = publishes holding session new (omega arith) is_new

tasks-IsNew : IsNew session tasks
tasks-IsNew = record { own = (refl, (refl, tt)); none_done = refl }

with_tasks-Run :
    (new : List TaskPayload) → IsNew session new → Run in_order start_cluster (with_tasks new)
with_tasks-Run new is_new = more holding-Run (with_tasks-Step new is_new)

with_tasks-ClusterInv : ClusterInv (with_tasks tasks)
with_tasks-ClusterInv =
    Run-ClusterInv in_order in_order-perm (with_tasks-Run tasks tasks-IsNew) start-ClusterInv

with_tasks_few : outstanding 0 (with_tasks tasks).master + 0 < 2 ^ 32
unfolding tally add_pending_tasks allocate_search_id
with_tasks_few = omega arith

status_published :
    get_status (with_tasks tasks).master 0 ≡ some (status_of (record session { chunks_total = 2 }))
unfolding get_status add_pending_tasks allocate_search_id
status_published = refl

get_status-Run_example : (running ≡ done) ↔ (outstanding 0 (with_tasks tasks).master + 0 ≡ 0)
get_status-Run_example =
    get_status-Run in_order in_order-perm (with_tasks tasks) 0
      (status_of (record session { chunks_total = 2 })) (with_tasks-Run tasks tasks-IsNew)
      with_tasks_few status_published

Step-Advance_example : Advance (progress 0 holding) (progress 0 (with_tasks tasks))
Step-Advance_example =
    Step-Advance in_order in_order-perm 0
      (Step-ClusterInv in_order in_order-perm holding_step start-ClusterInv)
      (with_tasks-Step tasks tasks-IsNew)

-- A search of no chunks is done at once.
none-IsNew : IsNew session []
none-IsNew = record { own = tt; none_done = refl }

abbrev later : Cluster
later = with_master (with_tasks []) (register_worker 4 1 (with_tasks []).master)

none_few : outstanding 0 (with_tasks []).master + 0 < 2 ^ 32
unfolding tally add_pending_tasks allocate_search_id
none_few = omega arith

none_session : get_status (with_tasks []).master 0 ≡ some (status_of session)
unfolding get_status add_pending_tasks allocate_search_id
none_session = refl

done-Run_example : get_status later.master 0 ≡ some (status_of session)
done-Run_example =
    done-Run in_order in_order-perm (with_tasks []) later 0 (status_of session)
      (with_tasks-Run [] none-IsNew) none_few none_session refl
      (more stay (registers (with_tasks []) 4 1))
