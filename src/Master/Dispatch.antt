-- ===== src/Master/Dispatch.antt =====
-- DispatchNextTask and AssignIdleWorkers of NetServer/src/MasterServer.cpp.
pub mod Tally
pub mod Idle
pub mod Roster
pub mod Waking
pub mod Capacity
pub mod Sending
use log_grid.Base.{
  Bool, List, Option, [], false, if◌then◌else◌, length, none, some, suc, true, zero, ℕ, ◌%◌, ◌++◌,
  ◌+◌, ◌-◌, ◌^◌, ◌∷◌,
}
use log_grid.Base.Assoc.{insert, lookup, remove}
use log_grid.Net.Message.{Message, empty, push}
use log_grid.Protocol.{TaskPayload, code, server_search_task}
use log_grid.Protocol.Codec.{encode_task}
use log_grid.Master.State.{MasterServer, get_or, is_some}

-- The message with one task: its header id, then `msg << task`.
unfoldable pub task_message : TaskPayload → Message
task_message task = push (record empty { id = code server_search_task }) (encode_task task)

-- The tasks that a worker has.
abbrev pub tasks_of : ℕ → MasterServer → List (ℕ × TaskPayload)
tasks_of client s = get_or (lookup client s.in_flight_tasks) []

-- A task goes to a worker: it gets the next id, is noted as in flight, takes a slot and is sent.
unfoldable pub send_task : ℕ → TaskPayload → List TaskPayload → MasterServer → MasterServer
send_task client front rest s =
    let id = (s.next_task_id + 1) % 2 ^ 64 in
    let task = record front { task_id = id } in
    let slots = get_or (lookup client s.workers_free_slots) 0 in
    record s {
      pending_tasks = rest;
      next_task_id = id;
      in_flight_tasks = insert client (insert id task (tasks_of client s)) s.in_flight_tasks;
      workers_free_slots = insert client ((slots + 2 ^ 64 - 1) % 2 ^ 64) s.workers_free_slots;
      sent = s.sent ++ ((client, task_message task) ∷ []);
    }

-- With no task to send the worker queues up, once.
unfoldable pub park_worker : ℕ → MasterServer → MasterServer
park_worker client s = if is_some (lookup client s.idle_workers_ids) then s else record s {
  idle_workers = s.idle_workers ++ (client ∷ []);
  idle_workers_ids = insert client tt s.idle_workers_ids;
}

abbrev pub dispatch_pending : ℕ → List TaskPayload → MasterServer → Bool × MasterServer
dispatch_pending client [] s = (false, park_worker client s)
dispatch_pending client (task ∷ rest) s = (true, send_task client task rest s)

-- `DispatchNextTask`
unfoldable pub dispatch_next_task : ℕ → MasterServer → Bool × MasterServer
dispatch_next_task client s =
    if is_some (lookup client s.workers_free_slots)
    then dispatch_pending client s.pending_tasks s
    else (false, s)

-- `for (i = 0; i < n; ++i) if (!DispatchNextTask(client)) break;`
unfoldable pub dispatch_up_to : ℕ → ℕ → MasterServer → MasterServer
dispatch_up_to zero client s = s
dispatch_up_to (suc n) client s =
    let (more, s') = dispatch_next_task client s in
    let rest = dispatch_up_to n client s' in if more then rest else s'

-- The locked part of a turn of AssignIdleWorkers, after both queues were seen not to be empty: the
-- worker at the front leaves the queue, and the set too unless it has gone.
abbrev pub take_worker : ℕ → List ℕ → Option ℕ → MasterServer → MasterServer
take_worker worker others none s = record s { idle_workers = others }
take_worker worker others (some threads_count) s = record s {
  idle_workers = others;
  idle_workers_ids = remove worker s.idle_workers_ids;
}

-- The whole turn: the worker is woken, unless it has gone.
unfoldable pub wake_worker : ℕ → List ℕ → MasterServer → MasterServer
wake_worker worker others s = elim (lookup worker s.workers_free_slots) [
  | none ↦ take_worker worker others none s
  | some threads_count ↦
      dispatch_up_to threads_count worker (take_worker worker others (some threads_count) s)
]

-- `AssignIdleWorkers`. Each turn takes a worker off the queue, and puts it back only when no task
-- is left, so there are at most as many turns as workers in the queue, and one more.
abbrev pub assign_turn :
    (MasterServer → MasterServer) → List ℕ → List TaskPayload → MasterServer → MasterServer
assign_turn next [] tasks s = s
assign_turn next (worker ∷ others) [] s = s
assign_turn next (worker ∷ others) (task ∷ tasks) s = next (wake_worker worker others s)

unfoldable pub assign_loop : ℕ → MasterServer → MasterServer
assign_loop zero s = s
assign_loop (suc fuel) s = assign_turn (assign_loop fuel) s.idle_workers s.pending_tasks s

unfoldable pub assign_idle_workers : MasterServer → MasterServer
assign_idle_workers s = assign_loop (suc (length s.idle_workers)) s
