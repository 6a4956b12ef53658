-- ===== src/Master/Handlers.antt =====
-- OnClientDisconnect and OnMessage of NetServer/src/MasterServer.cpp.
use mathlib.Core.Option
use log_grid.Base.{Bool, List, Option, [], none, some, ℕ, ◌%◌, ◌+◌, ◌^◌, ◌∷◌}
use log_grid.Base.Assoc.{insert, lookup, remove}
use log_grid.Net.Bytes.{from_le}
use log_grid.Net.Message.{Message, pull}
use log_grid.Protocol.{LogSearchMsg, TaskPayload, from_code, worker_hello, worker_task_done}
use log_grid.Protocol.Batch.{Outcome, ok, out_of_bounds, throws}
use log_grid.Master.State.{MasterServer, get_or}
use log_grid.Master.Dispatch.{assign_idle_workers, dispatch_next_task, dispatch_up_to, tasks_of}
use log_grid.Master.Results.{aggregate_task_result}

-- `m_pendingTasks.push_front` for each entry of the map
unfoldable pub push_all_front : List (ℕ × TaskPayload) → List TaskPayload → List TaskPayload
push_all_front [] pending = pending
push_all_front ((id, task) ∷ tasks) pending = push_all_front tasks (task ∷ pending)

-- The order in which an unordered_map is walked is a parameter.
module _ (walk : List (ℕ × TaskPayload) → List (ℕ × TaskPayload)) where
  -- The locked part of OnClientDisconnect.
  unfoldable pub reclaim_tasks : ℕ → MasterServer → MasterServer
  reclaim_tasks client s =
      let gone = record s {
        workers_free_slots = remove client s.workers_free_slots;
        idle_workers_ids = remove client s.idle_workers_ids;
      } in
      elim (lookup client s.in_flight_tasks) [
        | none ↦ gone
        | some tasks ↦ record gone {
          pending_tasks = push_all_front (walk tasks) s.pending_tasks;
          in_flight_tasks = remove client s.in_flight_tasks;
        }
      ]

  -- `OnClientDisconnect`
  unfoldable pub on_client_disconnect : ℕ → MasterServer → MasterServer
  on_client_disconnect client s = assign_idle_workers (reclaim_tasks client s)

-- `Worker_Hello`: the worker is registered with its threads and given a task for each.
unfoldable pub register_worker : ℕ → ℕ → MasterServer → MasterServer
register_worker client threads s = record s {
  workers_free_slots = insert client threads s.workers_free_slots;
}

unfoldable pub on_hello : ℕ → Message → MasterServer → MasterServer
on_hello client msg s = elim (pull 8 msg) [
  | none ↦ s
  | some (raw, rest) ↦
      let threads_count = from_le raw in
      dispatch_up_to threads_count client (register_worker client threads_count s)
]

-- The first locked part of `Worker_TaskDone`: the search that an in-flight task belongs to, with the
-- task taken off; `none` if the worker does not have the task.
abbrev pub without_task : ℕ → ℕ → List (ℕ × TaskPayload) → MasterServer → MasterServer
without_task client task_id [] s = record s { in_flight_tasks = remove client s.in_flight_tasks }
without_task client task_id (t ∷ ts) s = record s {
  in_flight_tasks = insert client (t ∷ ts) s.in_flight_tasks;
}

unfoldable pub free_slot : ℕ → MasterServer → MasterServer
free_slot client s =
    let slots = get_or (lookup client s.workers_free_slots) 0 in
    record s { workers_free_slots = insert client ((slots + 1) % 2 ^ 64) s.workers_free_slots }

unfoldable pub finish_task : ℕ → ℕ → MasterServer → Option (ℕ × MasterServer)
finish_task client task_id s = elim (lookup task_id (tasks_of client s)) [
  | none ↦ none
  | some task ↦ some (
    task.search_id,
    free_slot client (without_task client task_id (remove task_id (tasks_of client s)) s),
  )
]

-- The last locked part: the chunk is counted as done, if the search is known. The counter is an `int`:
-- its 32-bit pattern is kept, and its overflow past 2 ^ 31 - 1 chunks, undefined in C++, wraps here.
unfoldable pub count_chunk : ℕ → MasterServer → MasterServer
count_chunk search_id s = elim (lookup search_id s.sessions) [
  | none ↦ s
  | some session ↦
      let counted = record session { chunks_done = (session.chunks_done + 1) % 2 ^ 32 } in
      record s { sessions = insert search_id counted s.sessions }
]

-- An exception of AggregateTaskResult is caught and logged; a read out of bounds is not an exception.
unfoldable pub caught : MasterServer → Outcome MasterServer → Option MasterServer
caught s (ok s') = some s'
caught s throws = some s
caught s out_of_bounds = none

module _ (can_open : List ℕ → Bool) where
  -- After the task is found: the next one is sent before the results are stored.
  unfoldable pub complete_task : ℕ → Message → ℕ → MasterServer → Option MasterServer
  complete_task client msg search_id s =
      let s' = (dispatch_next_task client s).1 in
      Option.map (count_chunk search_id)
        (caught s' (aggregate_task_result can_open msg search_id s'))

  abbrev pub after_finish :
      ℕ → Message → Option (ℕ × MasterServer) → MasterServer → Option MasterServer
  after_finish client msg none s = some s
  after_finish client msg (some (search_id, s')) s = complete_task client msg search_id s'

  abbrev pub after_pop : ℕ → Option (List ℕ × Message) → MasterServer → Option MasterServer
  after_pop client none s = some s
  after_pop client (some (raw, rest)) s =
      after_finish client rest (finish_task client (from_le raw) s) s

  unfoldable pub on_task_done : ℕ → Message → MasterServer → Option MasterServer
  on_task_done client msg s = after_pop client (pull 8 msg) s

  abbrev pub switch : ℕ → Message → Option LogSearchMsg → MasterServer → Option MasterServer
  switch client msg (some worker_hello) s = some (on_hello client msg s)
  switch client msg (some worker_task_done) s = on_task_done client msg s
  switch client msg _ s = some s

  -- `OnMessage`: the new state, or `none` where the source reads out of bounds. A message that is too
  -- short is logged and dropped.
  unfoldable pub on_message : ℕ → Message → MasterServer → Option MasterServer
  on_message client msg s = switch client msg (from_code msg.id) s
