-- ===== src/Tests/Cluster.antt =====
-- A master with one worker and one search of two chunks.
use mathlib.Core.List.Perm
use log_grid.Base.{Bool, List, [], arith, length, refl, some, true, ℕ, ◌+◌, ◌<◌, ◌^◌, ◌∷◌, ◌≡◌, ◌⊎◌}
use log_grid.Net.Message.{Message, empty, pull, push}
use log_grid.Net.Bytes.{from_le, le}
use log_grid.Protocol.{TaskPayload, code, from_code, worker_hello}
use log_grid.Protocol.Batch.{task_done_message}
use log_grid.Base.Assoc.{lookup}
use log_grid.Master.State.{MasterServer, SearchSession, add_pending_tasks, allocate_search_id, init}
use log_grid.Master.Dispatch.{dispatch_next_task, dispatch_up_to, send_task, tasks_of}
use log_grid.Master.Handlers.{on_client_disconnect, on_hello, on_message, register_worker}
use log_grid.Master.Accounting.{Inv, of_search, of_search-IgnoresId, outstanding}
use log_grid.Master.Books.Reclaim.{on_client_disconnect-Inv}
use log_grid.Master.Books.Messages.{on_message-Inv}
use log_grid.Master.Books.Publish.{add_pending_tasks-Inv, allocate_search_id-Inv, init-Inv}
use log_grid.Master.Books.Written.{written_after}
use log_grid.Master.Books.Completion.{on_message-task_done_message, session_after}
use log_grid.Tests.Wire.{err_task, two_lines, two_lines-IsBatch}

abbrev pub all_open : List ℕ → Bool
all_open path = true

abbrev pub session : SearchSession
session = record {
  path = 111 ∷ [];
  search_id = 0;
  max_results = 10;
  total_matches = 0;
  line_count = 9;
  scan_errors = 0;
  chunks_total = 0;
  chunks_done = 0;
}

abbrev pub tasks : List TaskPayload
tasks = err_task ∷ err_task ∷ []

abbrev pub allocated : MasterServer
allocated = (allocate_search_id init).1

abbrev pub published : MasterServer
published = add_pending_tasks session tasks allocated

published-Inv : Inv published
unfolding allocate_search_id
published-Inv =
    add_pending_tasks-Inv session tasks allocated (refl, (refl, tt)) refl refl
      (allocate_search_id-Inv init (omega arith) init-Inv).0 (omega arith)

-- A worker with one thread says hello, and is given the first chunk.
abbrev pub hello : Message
hello = push (record empty { id = code worker_hello }) (le 8 1)

abbrev working : MasterServer
working = on_hello 4 hello published

hello_runs : on_message all_open 4 hello published ≡ some working
unfolding on_message from_code code push
hello_runs = refl

published_room : published.next_task_id + length published.pending_tasks < 2 ^ 64
unfolding add_pending_tasks allocate_search_id
published_room = omega arith

on_message-Inv_example : Inv working
on_message-Inv_example =
    on_message-Inv all_open 4 published published_room published-Inv hello working hello_runs

working-Inv : Inv working
working-Inv =
    on_message-Inv all_open 4 published published_room published-Inv hello working hello_runs

working_room : working.next_task_id + length working.pending_tasks < 2 ^ 64
unfolding on_hello register_worker dispatch_up_to dispatch_next_task send_task add_pending_tasks
    allocate_search_id push pull le from_le code
working_room = omega arith

working_task : lookup 1 (tasks_of 4 working) ≡ some (record err_task { task_id = 1 })
unfolding on_hello register_worker dispatch_up_to dispatch_next_task send_task add_pending_tasks
    allocate_search_id push pull le from_le code
working_task = refl

working_session : lookup 0 working.sessions ≡ some (record session { chunks_total = 2 })
unfolding on_hello register_worker dispatch_up_to dispatch_next_task send_task add_pending_tasks
    allocate_search_id push pull le from_le code
working_session = refl

on_message-task_done_message_example :
    (s : MasterServer) × (on_message all_open 4 (task_done_message two_lines) working ≡ some s)
    × (lookup 0 s.sessions ≡ some (session_after (record session { chunks_total = 2 }) two_lines))
    × (s.written
        ≡ written_after all_open
            (record session { chunks_total = 2 })
            two_lines.lines
            working.written)
on_message-task_done_message_example =
    on_message-task_done_message all_open 4 two_lines working (record err_task { task_id = 1 })
      (record session { chunks_total = 2 }) working-Inv working_room working_task working_session
      two_lines-IsBatch (omega arith)

working_room_all :
    working.next_task_id + length working.pending_tasks + length (tasks_of 4 working) < 2 ^ 64
unfolding on_hello register_worker dispatch_up_to dispatch_next_task send_task add_pending_tasks
    allocate_search_id push pull le from_le code
working_room_all = omega arith

-- The worker is lost, and its chunk waits again.
on_client_disconnect-Inv_example :
    let s' = on_client_disconnect (λ ts. ts) 4 working in
    Inv s'
    × (outstanding 0 s' ≡ outstanding 0 working)
    × ((s'.pending_tasks ≡ []) ⊎ (s'.idle_workers ≡ []))
on_client_disconnect-Inv_example =
    on_client_disconnect-Inv (λ ts. ts) Perm.refl 4 working (of_search 0) working-Inv
      working_room_all (of_search-IgnoresId 0)
