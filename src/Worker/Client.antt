-- ===== src/Worker/Client.antt =====
-- NetClient/src/WorkerClient.cpp: the worker's side of the conversation. The jobs of the thread pool
-- are kept as the tasks that their closures hold.
use log_grid.Base.{
  Bool, List, Option, [], false, if◌then◌else◌, ltb, none, some, true, ℕ, ◌++◌, ◌-◌, ◌==◌, ◌∷◌,
}
use log_grid.Net.Bytes.{le}
use log_grid.Net.Message.{Message, empty, pull, push}
use log_grid.Protocol.{
  ChunkResult, LogSearchMsg, TaskPayload, code, from_code, server_job_finished, server_search_task,
  worker_hello,
}
use log_grid.Protocol.Codec.{decode_task}
use log_grid.Protocol.Batch.{task_done_message}

-- `connected` tells whether the socket is open; `sent` are the messages posted, the oldest first.
pub record WorkerClient : Type 0 where
  pub thread_count : ℕ
  pub task_queue : List TaskPayload
  pub connected : Bool
  pub should_disconnect : Bool
  pub sent : List Message

-- `CalculateThreadCount`
unfoldable pub calculate_thread_count : ℕ → ℕ
calculate_thread_count threads_available =
    let left = if ltb 1 threads_available then threads_available - 1 else threads_available in
    if left == 0 then 4 else left

-- The constructor, with the number of threads of the machine.
abbrev pub new_client : ℕ → WorkerClient
new_client hardware_concurrency = record {
  thread_count = calculate_thread_count hardware_concurrency;
  task_queue = [];
  connected = false;
  should_disconnect = false;
  sent = [];
}

-- `ShouldDisconnect`
abbrev pub should_disconnect : WorkerClient → Bool
should_disconnect w = w.should_disconnect

-- `client_interface::Send`: nothing goes out without a connection.
unfoldable pub send : Message → WorkerClient → WorkerClient
send msg w = if w.connected then record w { sent = w.sent ++ (msg ∷ []) } else w

-- `SendHello`
unfoldable pub hello_message : ℕ → Message
hello_message threads = push (record empty { id = code worker_hello }) (le 8 threads)

unfoldable pub send_hello : WorkerClient → WorkerClient
send_hello w = send (hello_message w.thread_count) w

-- `OnConnectionResult`; the socket is open if the connection was made.
unfoldable pub on_connection_result : Bool → WorkerClient → WorkerClient
on_connection_result connected w =
    if connected then send_hello (record w { connected = true }) else w

-- `m_threadPool.Enqueue`
abbrev pub enqueue_received : Option (List ℕ × Message) → WorkerClient → Option WorkerClient
enqueue_received none w = none
enqueue_received (some (raw, rest)) w =
    some (record w { task_queue = w.task_queue ++ (decode_task raw ∷ []) })

abbrev pub switch_kind : Message → Option LogSearchMsg → WorkerClient → Option WorkerClient
switch_kind msg (some server_search_task) w = enqueue_received (pull 360 msg) w
switch_kind msg (some server_job_finished) w = some (record w { should_disconnect = true })
switch_kind msg _ w = some w

-- `OnMessage`; `none` where the exception for a message that is too short leaves it.
unfoldable pub on_message : Message → WorkerClient → Option WorkerClient
on_message msg w = switch_kind msg (from_code msg.id) w

module _ (search_task : TaskPayload → ℕ → ChunkResult) where
  -- The job of a task, and SendTaskDone at its end.
  unfoldable pub run_task : TaskPayload → WorkerClient → WorkerClient
  run_task task w =
      let batch = search_task task task.max_results in
      send (task_done_message (record batch { search_id = task.search_id; task_id = task.task_id }))
        w
