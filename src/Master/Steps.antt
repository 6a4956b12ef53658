-- ===== src/Master/Steps.antt =====
-- The master under concurrency. OnMessage runs on the thread of the main loop, StartSearch and
-- GetStatus on the threads of the HTTP server; they meet under `m_stateMutex`. A step is what one
-- thread does in one locked section, or a write to a result file between two; the steps of different
-- calls come in any order.
pub mod Free
pub mod Invariant
pub mod Progress
pub mod Advance
pub mod Final
use log_grid.Base.{All, List, [], length, some, ℕ, ◌++◌, ◌+◌, ◌-◌, ◌<◌, ◌^◌, ◌∷◌, ◌≡◌}
use log_grid.Base.Assoc.{insert, lookup}
use log_grid.Protocol.{ChunkResult, TaskPayload}
use log_grid.Master.State.{MasterServer, SearchSession, add_pending_tasks, allocate_search_id, init}
use log_grid.Master.Dispatch.{dispatch_next_task, take_worker, tasks_of}
use log_grid.Master.Results.{count_batch}
use log_grid.Master.Handlers.{count_chunk, finish_task, reclaim_tasks, register_worker}
use log_grid.Master.Accounting.{one_late}

-- The state under the mutex, and what the calls under way hold in their variables: `late` counts, for
-- each search, the finished tasks whose chunk is not counted yet, `reserved` the ids that were given
-- out and whose search is not published.
pub record Cluster : Type 0 where
  pub master : MasterServer
  pub late : ℕ → ℕ
  pub reserved : ℕ → ℕ

abbrev pub with_master : Cluster → MasterServer → Cluster
with_master c s = record c { master = s }

abbrev pub add_one : ℕ → (ℕ → ℕ) → ℕ → ℕ
add_one id count k = count k + one_late id k

abbrev pub drop_one : ℕ → (ℕ → ℕ) → ℕ → ℕ
drop_one id count k = count k - one_late id k

-- What is published together: the tasks belong to the session, and none is done.
pub record IsNew (session : SearchSession) (tasks : List TaskPayload) : Type 0 where
  pub own : All (λ t. t.search_id ≡ session.search_id) tasks
  pub none_done : session.chunks_done ≡ 0

module _ (walk : List (ℕ × TaskPayload) → List (ℕ × TaskPayload)) where
  pub data Step : Cluster → Cluster → Type 0 where
    -- Worker_Hello
    registers :
        (c : Cluster) (client threads : ℕ)
        → Step c (with_master c (register_worker client threads c.master))
    -- DispatchNextTask
    dispatches :
        (c : Cluster) (client : ℕ)
        → c.master.next_task_id + length c.master.pending_tasks < 2 ^ 64
        → Step c (with_master c (dispatch_next_task client c.master).1)
    -- AssignIdleWorkers
    wakes :
        (c : Cluster) (worker : ℕ) (others : List ℕ)
        → c.master.idle_workers ≡ worker ∷ others
        → Step c (
            with_master c
              (take_worker worker others (lookup worker c.master.workers_free_slots) c.master))
    -- Worker_TaskDone, from the lookup of the task on
    finishes :
        (c : Cluster) (client task_id id : ℕ) (s : MasterServer)
        → finish_task client task_id c.master ≡ some (id, s)
        → Step c (record c { master = s; late = add_one id c.late })
    -- AggregateTaskResult
    aggregates :
        (c : Cluster) (id : ℕ) (session : SearchSession) (batch : ChunkResult)
        → 0 < c.late id
        → lookup id c.master.sessions ≡ some session
        → Step c (
            with_master c (record c.master {
              sessions = insert id (count_batch session batch) c.master.sessions;
            }))
    -- WriteResults
    writes :
        (c : Cluster) (path text : List ℕ)
        → Step c
            (with_master c (record c.master { written = c.master.written ++ ((path, text) ∷ []) }))
    -- Worker_TaskDone, the end
    counts :
        (c : Cluster) (id : ℕ)
        → 0 < c.late id
        → Step c (record c { master = count_chunk id c.master; late = drop_one id c.late })
    -- AllocateSearchId
    allocates :
        (c : Cluster)
        → c.master.next_search_id + 1 < 2 ^ 64
        → Step c (record c {
          master = (allocate_search_id c.master).1;
          reserved = add_one (allocate_search_id c.master).0 c.reserved;
        })
    -- AddPendingTasks
    publishes :
        (c : Cluster) (session : SearchSession) (tasks : List TaskPayload)
        → 0 < c.reserved session.search_id
        → IsNew session tasks
        → Step c (record c {
          master = add_pending_tasks session tasks c.master;
          reserved = drop_one session.search_id c.reserved;
        })
    -- OnClientDisconnect
    reclaims :
        (c : Cluster) (client : ℕ)
        → c.master.next_task_id + length c.master.pending_tasks + length (tasks_of client c.master)
          < 2 ^ 64
        → Step c (with_master c (reclaim_tasks walk client c.master))

  -- A run, from one state to another.
  pub data Run (c : Cluster) : Cluster → Type 0 where
    stay : Run c c
    more : {d e : Cluster} → Run c d → Step d e → Run c e

abbrev pub start_cluster : Cluster
start_cluster = record { master = init; late = λ id. 0; reserved = λ id. 0 }
