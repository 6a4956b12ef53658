-- ===== src/Master/Promises/Dispatching.antt =====
-- The promise of DispatchNextTask.
use log_grid.Base.{
  Bool-cases, List, [], ap, false, inl, inr, refl, true, ℕ, ◌%◌, ◌+◌, ◌^◌, ◌∙◌, ◌∷◌, ◌≡◌,
}
use log_grid.Base.Assoc.{lookup, lookup-insert_self}
use log_grid.Protocol.{TaskPayload}
use log_grid.Master.State.{MasterServer, get_or, is_some}
use log_grid.Master.Dispatch.{
  dispatch_next_task, dispatch_pending, park_worker, send_task, tasks_of,
}
use log_grid.Master.Promises.{DispatchPromise, Parked, SentTask}

park_worker-Parked : (client : ℕ) (s : MasterServer) → Parked client s (false, park_worker client s)
unfolding park_worker
park_worker-Parked client s = elim (Bool-cases (is_some (lookup client s.idle_workers_ids))) [
  | inl queued ↦ rw queued (refl, queued, refl)
  | inr new ↦ rw new (refl, ap is_some (lookup-insert_self client tt s.idle_workers_ids), refl)
]

send_task-SentTask :
    (client : ℕ) (front : TaskPayload) (rest : List TaskPayload) (s : MasterServer)
    → SentTask client front rest s (true, send_task client front rest s)
unfolding send_task
send_task-SentTask client front rest s =
    let id = (s.next_task_id + 1) % 2 ^ 64 in
    (
      refl,
      refl,
      ap (λ o. lookup id (get_or o [])) (lookup-insert_self client _ s.in_flight_tasks)
          ∙ lookup-insert_self id _ (tasks_of client s),
      lookup-insert_self client _ s.workers_free_slots,
      refl,
    )

dispatch_pending-Promise :
    (client : ℕ) (tasks : List TaskPayload) (s : MasterServer)
    → DispatchPromise client s tasks (dispatch_pending client tasks s)
dispatch_pending-Promise client [] s = park_worker-Parked client s
dispatch_pending-Promise client (front ∷ rest) s = send_task-SentTask client front rest s

-- DispatchNextTask for a registered worker keeps its promise: the task that waits first gets the
-- next id, is in flight at the worker, uses up one of its slots and is sent, and the answer is
-- true; with no task the worker is in the set of idle workers, at the end of their queue if it was
-- not in the set before, and the answer is false.
pub dispatch_next_task-Promise :
    (client : ℕ) (s : MasterServer)
    → is_some (lookup client s.workers_free_slots) ≡ true
    → DispatchPromise client s s.pending_tasks (dispatch_next_task client s)
unfolding dispatch_next_task
dispatch_next_task-Promise client s known =
    rw known (dispatch_pending-Promise client s.pending_tasks s)
