-- ===== src/Tests/Loaded.antt =====
-- A file of two chunks, searched by a worker with one thread.
use log_grid.Base.Assoc.{lookup}
use log_grid.Net.Bytes.{IsByte, from_le, le}
use log_grid.Master.Dispatch.{
  assign_idle_workers, assign_loop, dispatch_next_task, dispatch_up_to, send_task, tasks_of,
}
use log_grid.Base.{
  All, List, Option, [], ap, arith, length, none, refl, some, some_injective, sym, true, ℕ, ◌+◌,
  ◌<◌, ◌^◌, ◌∷◌, ◌≡◌, ◌≢◌, ◌≤◌,
}
use log_grid.Net.Message.{Message, pull, push}
use log_grid.Protocol.{code, from_code}
use log_grid.Master.State.{
  MasterServer, add_pending_tasks, allocate_search_id, get_or, init, is_some,
}
use log_grid.Master.Chunks.{chunk_loop, chunk_size, create_chunk_task, enqueue_file_chunks}
use log_grid.Master.Scan.{FileSystem, Scan, process_single_file}
use log_grid.Master.Start.{
  build_session, collect_tasks, create_session_file_path, equal_bytes, is_inside, join,
  make_relative, start_search, starts_with, with_separator,
}
use log_grid.Master.Handlers.{on_hello, on_message, register_worker}
use log_grid.Master.Served.{
  Collects, Published, Request, Served, begins, run_request, searches, takes_message,
}
use log_grid.Http.{default_config}
use log_grid.Master.Served.Load.{Introduced}
use log_grid.Master.Served.Bounded.{full_load-Served}
use log_grid.Master.Dispatch.Capacity.{load}
use log_grid.Master.Served.Busy.{no_idle_slot-Served}
use log_grid.Master.Served.Handled.{HasBytes}
use log_grid.Tests.Service.{environment, small_files}
use log_grid.Tests.Cluster.{all_open, hello}
use log_grid.Tests.Steps.{in_order, in_order-perm}
use log_grid.Tests.Work.{chunk, request, target}

-- A file of two chunks, and a worker with one thread: a task waits.
abbrev large_files : FileSystem
large_files = record small_files { file_size = λ path. some 6000000 }

abbrev large_request : Request
large_request = record request { fs = large_files }

abbrev two_chunks : Scan
two_chunks = record {
  out_tasks =
      record chunk { end_offset = 5242880 }
      ∷ record chunk { start_offset = 5242880; end_offset = 6000000 }
      ∷ [];
  scan_errors = 0;
}

large_collects : Collects environment large_request 0 two_chunks
unfolding make_relative join with_separator collect_tasks process_single_file create_chunk_task
    enqueue_file_chunks chunk_loop chunk_size
large_collects = record {
  base = 100 ∷ [];
  target = target;
  base_there = refl;
  target_there = refl;
  collected = refl;
}

abbrev large_outcome : Option (Option ℕ × MasterServer)
large_outcome = run_request environment large_request init

abbrev large_searching : MasterServer
large_searching = (get_or large_outcome (none, init)).1

large_found : large_outcome ≡ some (some 0, large_searching)
unfolding start_search make_relative join with_separator is_inside equal_bytes starts_with
    allocate_search_id build_session create_session_file_path collect_tasks process_single_file
    create_chunk_task enqueue_file_chunks chunk_loop chunk_size
large_found = refl

abbrev Busy : List (ℕ × Published) → MasterServer → Type 0
Busy = Served all_open in_order environment HasBytes

abbrev large_log : List (ℕ × Published)
large_log =
    (0, record { tasks = two_chunks.out_tasks; max_results = default_config.max_results }) ∷ []

large_searching-Busy : Busy large_log large_searching
large_searching-Busy =
    searches large_request 0 two_chunks begins (omega arith) (omega arith) large_found
      large_collects

abbrev large_working : MasterServer
large_working = on_hello 4 hello large_searching

-- What the step and the example need of the states.
large_states :
    (large_searching.next_task_id + length large_searching.pending_tasks < 2 ^ 64)
    × (All IsByte hello.body)
    × (on_message all_open 4 hello large_searching ≡ some large_working)
    × (1 ≡ length large_working.pending_tasks)
unfolding start_search make_relative join with_separator is_inside equal_bytes starts_with
    allocate_search_id build_session create_session_file_path collect_tasks process_single_file
    create_chunk_task enqueue_file_chunks chunk_loop chunk_size add_pending_tasks
    assign_idle_workers assign_loop on_message from_code code push pull le from_le on_hello
    register_worker dispatch_up_to dispatch_next_task send_task
large_states = (
  omega arith,
  (
    omega arith,
    (
      omega arith,
      (omega arith, (omega arith, (omega arith, (omega arith, (omega arith, (omega arith, tt)))))),
    ),
  ),
  refl,
  refl,
)

no_idle_slot-Served_example : get_or (lookup 4 large_working.workers_free_slots) 0 ≡ 0
no_idle_slot-Served_example =
    no_idle_slot-Served all_open in_order environment large_log large_working 4
      (takes_message 4 hello large_searching-Busy large_states.1 large_states.0 large_states.2)
      (λ e. absurd (omega (arith, large_states.3, ap length e)))

abbrev one_thread : ℕ → ℕ
one_thread w = 1

abbrev Full : List (ℕ × Published) → MasterServer → Type 0
Full = Served all_open in_order environment (Introduced one_thread)

large_searching-Full : Full large_log large_searching
large_searching-Full =
    searches large_request 0 two_chunks begins (omega arith) (omega arith) large_found
      large_collects

-- What the worker says, and that it has no task before.
introduction :
    (load 4 large_searching ≡ 0)
    × ((raw : List ℕ) (rest : Message) → pull 8 hello ≡ some (raw, rest) → from_le raw ≡ 1)
unfolding start_search make_relative join with_separator is_inside equal_bytes starts_with
    allocate_search_id build_session create_session_file_path collect_tasks process_single_file
    create_chunk_task enqueue_file_chunks chunk_loop chunk_size add_pending_tasks
    assign_idle_workers assign_loop push pull le from_le
introduction = (refl, λ raw rest e. ap (λ r. from_le r.0) (some_injective (sym e)))

full_load-Served_example :
    (length (tasks_of 4 large_working) ≤ 1)
    × (large_working.pending_tasks ≢ []
        → is_some (lookup 4 large_working.workers_free_slots) ≡ true
        → length (tasks_of 4 large_working) ≡ 1)
full_load-Served_example =
    full_load-Served all_open in_order in_order-perm environment one_thread (λ w. omega arith)
      large_log large_working 4
      (takes_message 4 hello large_searching-Full (large_states.1, λ e. introduction) large_states.0
        large_states.2)
