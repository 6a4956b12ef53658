-- ===== src/Tests/Trip.antt =====
-- The search of the small file, from the master to the worker and back.
use log_grid.Base.{[], arith, length, refl, some, true, ◌++◌, ◌+◌, ◌<◌, ◌^◌, ◌∷◌, ◌≡◌}
use log_grid.Base.Assoc.{lookup}
use log_grid.Net.Message.{Message, pull, push}
use log_grid.Protocol.{IsPayload, TaskPayload, code, from_code}
use log_grid.Master.Chunks.{padded}
use log_grid.Master.State.{MasterServer, add_pending_tasks, allocate_search_id, init}
use log_grid.Master.Dispatch.{dispatch_next_task, dispatch_up_to, send_task, tasks_of}
use log_grid.Master.Handlers.{on_hello, on_message, register_worker}
use log_grid.Master.Accounting.{Inv}
use log_grid.Master.Books.Messages.{on_message-Inv}
use log_grid.Master.Books.Publish.{add_pending_tasks-Inv, allocate_search_id-Inv, init-Inv}
use log_grid.Master.Books.Written.{written_after}
use log_grid.Master.Books.Completion.{session_after}
use log_grid.Net.Bytes.{from_le, le}
use log_grid.Worker.Client
use log_grid.Pipeline.Trip.{batch_of, chunk_trip, searched}
use log_grid.Tests.Search.{byte_task, compile_byte, compiles, contains, files, opens, text}
use log_grid.Tests.Cluster.{all_open, allocated, hello, session}

-- The first task that is dispatched has the id 1.
abbrev sent_task : TaskPayload
sent_task = record byte_task { task_id = 1 }

sent_task-IsPayload : IsPayload sent_task
unfolding padded
sent_task-IsPayload = record {
  search_id_u64 = omega arith;
  task_id_u64 = omega arith;
  max_results_u64 = omega arith;
  start_u64 = omega arith;
  end_u64 = omega arith;
  keyword_len = refl;
  filename_len = refl;
}

abbrev published : MasterServer
published = add_pending_tasks session (byte_task ∷ []) allocated

published-Inv : Inv published
unfolding allocate_search_id
published-Inv =
    add_pending_tasks-Inv session (byte_task ∷ []) allocated (refl, tt) refl refl
      (allocate_search_id-Inv init (omega arith) init-Inv).0 (omega arith)

published_room : published.next_task_id + length published.pending_tasks < 2 ^ 64
unfolding add_pending_tasks allocate_search_id
published_room = omega arith

abbrev working : MasterServer
working = on_hello 4 hello published

hello_runs : on_message all_open 4 hello published ≡ some working
unfolding on_message from_code code push
hello_runs = refl

working-Inv : Inv working
working-Inv =
    on_message-Inv all_open 4 published published_room published-Inv hello working hello_runs

-- What the next example needs of the state.
working_lem :
    (working.next_task_id + length working.pending_tasks < 2 ^ 64)
    × (lookup 1 (tasks_of 4 working) ≡ some sent_task)
    × (lookup 0 working.sessions ≡ some (record session { chunks_total = 1 }))
unfolding on_hello register_worker dispatch_up_to dispatch_next_task send_task add_pending_tasks
    allocate_search_id push pull le from_le code
working_lem = (omega arith, refl, refl)

abbrev online : Client.WorkerClient
online = record (Client.new_client 8) { connected = true }

chunk_trip_example :
    (msg : Message) × (s' : MasterServer) × ((Client.run_task
        (searched compile_byte contains files text 98 sent_task)
        sent_task
        online).sent
      ≡ [] ++ (msg ∷ []))
    × (on_message all_open 4 msg working ≡ some s')
    × (lookup 0 s'.sessions
        ≡ some (
            session_after
              (record session { chunks_total = 1 })
              (batch_of compile_byte contains files text 98 sent_task)))
    × (s'.written
        ≡ written_after all_open
            (record session { chunks_total = 1 })
            (batch_of compile_byte contains files text 98 sent_task).lines
            working.written)
chunk_trip_example =
    chunk_trip compile_byte contains files text 98 sent_task all_open 4 online working
      (record session { chunks_total = 1 }) refl opens compiles sent_task-IsPayload (omega arith)
      (omega arith) working-Inv working_lem.0 working_lem.1 working_lem.2 (omega arith)
