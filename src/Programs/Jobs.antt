-- ===== src/Programs/Jobs.antt =====
-- From the tasks that the master sends to the jobs of the worker, through every layer between them.
use mathlib.Core.List.{append_assoc, append-nil}
use log_grid.Base.{
  All, List, Option, [], ap, arith, length, map, none, some, sym, true, ◌++◌, ◌∙◌, ◌∷◌, ◌≡◌,
}
use log_grid.Net.Message.{Message, push, size_of}
use log_grid.Net.Connection.{Writer, no_write}
use log_grid.Net.Connection.Writing.{Reachable}
use log_grid.Net.Connection.Reading.{IsFramed}
use log_grid.Net.Connection.Reader.{Connection, owner_client}
use log_grid.Net.Connection.Delivery.{feed, feed-callback}
use log_grid.Net.Client.{ClientHandlers}
use log_grid.Protocol.{IsPayload, TaskPayload, code}
use log_grid.Protocol.Codec.{length-encode_task, payload_size}
use log_grid.Master.Dispatch.{task_message}
use log_grid.Pipeline.Handshake.{on_message-task_message}
use log_grid.Programs.Hello.{empty_inbox}
use log_grid.Worker.Client

-- What WorkerClient overrides.
abbrev pub worker_handlers : ClientHandlers Client.WorkerClient
worker_handlers = record {
  on_connection_result = Client.on_connection_result;
  on_message = Client.on_message;
}

-- The calls of the callback that Connect sets, one after the other.
unfoldable pub call_all : {S : Type 0} → ClientHandlers S → List Message → S → Option S
call_all handlers [] s = some s
call_all handlers (m ∷ ms) s = elim (handlers.on_message m s) [
  | none ↦ none
  | some s' ↦ call_all handlers ms s'
]

task_message-IsFramed : (t : TaskPayload) → IsPayload t → IsFramed (task_message t)
unfolding task_message push size_of code payload_size
task_message-IsFramed t v =
    let size = length-encode_task t v in
    record {
      id_u32 = omega arith;
      some_body = omega (arith, size);
      sized = omega (arith, size);
      size_u32 = omega (arith, size);
    }

tasks-IsFramed : (ts : List TaskPayload) → All IsPayload ts → All IsFramed (map task_message ts)
tasks-IsFramed [] v = tt
tasks-IsFramed (t ∷ ts) v = (task_message-IsFramed t v.0, tasks-IsFramed ts v.1)

call_all-tasks :
    (ts : List TaskPayload) (worker : Client.WorkerClient)
    → All IsPayload ts
    → call_all worker_handlers (map task_message ts) worker
      ≡ some (record worker { task_queue = worker.task_queue ++ ts })
unfolding call_all
call_all-tasks [] worker v =
    ap (λ l. some (record worker { task_queue = l })) (sym (append-nil worker.task_queue))
call_all-tasks (t ∷ ts) worker v =
    rw (on_message-task_message t worker v.0, call_all)
      (call_all-tasks ts _ v.1
        ∙ ap (λ l. some (record worker { task_queue = l }))
            (append_assoc worker.task_queue (t ∷ []) ts))

-- The tasks that the master posts on the connection to a worker become the jobs of the worker, in order
-- and unchanged, after those that it had: once they are written, without an error, and read by the
-- connection of the worker, whose callback is set. The tasks hold what the C++ types can hold.
pub call_all-posted :
    (ts : List TaskPayload) (w : Writer) (c : Connection) (worker : Client.WorkerClient)
    → Reachable (map task_message ts) w
    → w.phase ≡ no_write
    → All IsPayload ts
    → c.owner ≡ owner_client
    → c.has_callback ≡ true
    → call_all worker_handlers
        (feed (length (map task_message ts)) w.wire c empty_inbox).1.called
        worker
      ≡ some (record worker { task_queue = worker.task_queue ++ ts })
call_all-posted ts w c worker r idle v of_client set =
    ap (λ inbox. call_all worker_handlers inbox.called worker)
      (feed-callback (map task_message ts) w c empty_inbox r idle (tasks-IsFramed ts v) of_client
        set)
    ∙ call_all-tasks ts worker v
