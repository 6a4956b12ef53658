-- ===== src/Tests/Answered.antt =====
-- The worker of the small file answers, and its search is done.
use mathlib.Core.Option
use log_grid.Protocol.Batch.{IsBatch, task_done_message}
use log_grid.Worker.FileProcessor.{result_line}
use log_grid.Master.Books.Completion.{on_message-task_done_message}
use log_grid.Master.Served.Kept.{Served-Inv}
use log_grid.Master.Books.Written.{written_after}
use log_grid.Master.Accounting.{Inv}
use log_grid.Master.Results.{file_text}
use log_grid.Base.Assoc.{lookup}
use log_grid.Net.Bytes.{from_le, le}
use log_grid.Master.Dispatch.{
  assign_idle_workers, assign_loop, dispatch_next_task, dispatch_up_to, send_task, tasks_of,
}
use log_grid.Base.{List, [], ap, arith, length, refl, some, ℕ, ◌+◌, ◌<◌, ◌^◌, ◌∙◌, ◌∷◌, ◌≡◌}
use log_grid.Net.Message.{pull, push}
use log_grid.Protocol.{ChunkResult, TaskPayload, c_str, code, filename_size, from_code}
use log_grid.Master.State.{
  MasterServer, SearchSession, add_pending_tasks, allocate_search_id, get_status, status_of,
}
use log_grid.Master.Chunks.{chunk_loop, chunk_size, create_chunk_task, enqueue_file_chunks, padded}
use log_grid.Master.Scan.{process_single_file}
use log_grid.Master.Start.{
  build_session, collect_tasks, create_session_file_path, equal_bytes, is_inside, join,
  make_relative, start_search, starts_with, with_separator,
}
use log_grid.Master.Handlers.{on_hello, on_message, register_worker}
use log_grid.Master.Served.Honest.{IsHonest}
use log_grid.Http.Routes.{done_text, handle_get_search-known, master_service}
use log_grid.Http.Stoull.{decimal}
use log_grid.Http.{
  chunks_done_key, chunks_total_key, default_config, handle_get_search, json_object, json_text,
  lines_count_key, number, ok_200, scan_errors_key, search_id_key, state_key, total_matches_key,
}
use log_grid.Tests.Service.{environment, small_files}
use log_grid.Tests.Cluster.{all_open}
use log_grid.Tests.Steps.{in_order, in_order-perm}
use log_grid.Tests.Work.{chunk, lines_there, log, matches_there, target, working, working-Work}

-- The paths of result files end with the byte of the id.
last_byte : List ℕ → ℕ
last_byte [] = 0
last_byte (x ∷ []) = x
last_byte (x ∷ y ∷ ys) = last_byte (y ∷ ys)

-- The worker has the chunk, under the id 1.
abbrev sent_chunk : TaskPayload
sent_chunk = record chunk { task_id = 1 }

-- The one line of the file with the keyword, as SearchTask gives it.
abbrev found_line : List ℕ
found_line = result_line (padded filename_size target) (97 ∷ 98 ∷ [])

abbrev answer : ChunkResult
answer = record {
  lines = found_line ∷ [];
  search_id = 0;
  task_id = 1;
  total_matches = 1;
  lines_found = 1;
}

answer-IsBatch : IsBatch answer
unfolding result_line c_str padded
answer-IsBatch = record {
  short_lines = (omega arith, tt);
  counted = refl;
  lines_found_u32 = omega arith;
  total_matches_u64 = omega arith;
  search_id_u64 = omega arith;
  task_id_u64 = omega arith;
}

working_lem :
    (working.next_task_id + length working.pending_tasks < 2 ^ 64)
    × (lookup 1 (tasks_of 4 working) ≡ some sent_chunk)
unfolding start_search make_relative join with_separator is_inside equal_bytes starts_with
    allocate_search_id build_session create_session_file_path collect_tasks process_single_file
    create_chunk_task enqueue_file_chunks chunk_loop chunk_size add_pending_tasks
    assign_idle_workers assign_loop on_message from_code code push pull le from_le on_hello
    register_worker dispatch_up_to dispatch_next_task send_task
working_lem = (omega arith, refl)

-- The session of the search, with the path "o/sessions/s" and the byte of its id.
abbrev one_session : SearchSession
one_session = record {
  path = 111 ∷ 47 ∷ 115 ∷ 101 ∷ 115 ∷ 115 ∷ 105 ∷ 111 ∷ 110 ∷ 115 ∷ 47 ∷ 115 ∷ 0 ∷ [];
  search_id = 0;
  max_results = default_config.max_results;
  total_matches = 0;
  line_count = 0;
  scan_errors = 0;
  chunks_total = 1;
  chunks_done = 0;
}

working_session : (lookup 0 working.sessions ≡ some one_session) × (working.written ≡ [])
unfolding start_search make_relative join with_separator is_inside equal_bytes starts_with
    allocate_search_id build_session create_session_file_path collect_tasks process_single_file
    create_chunk_task enqueue_file_chunks chunk_loop chunk_size add_pending_tasks
    assign_idle_workers assign_loop from_code code push pull le from_le on_hello register_worker
    dispatch_up_to dispatch_next_task send_task
working_session = (refl, refl)

working-Inv : Inv working
working-Inv =
    Served-Inv all_open in_order in_order-perm environment (IsHonest matches_there lines_there) log
      working working-Work

-- The worker has answered: the search is done, with one match and one line, which is in its file.
abbrev finished_session : SearchSession
finished_session = record one_session { total_matches = 1; line_count = 1; chunks_done = 1 }

answered_state :
    (s : MasterServer) × (on_message all_open 4 (task_done_message answer) working ≡ some s)
    × (lookup 0 s.sessions ≡ some finished_session)
    × (s.written ≡ (one_session.path, file_text (found_line ∷ [])) ∷ [])
answered_state =
    let (s, runs, counted, written) =
      on_message-task_done_message all_open 4 answer working sent_chunk one_session working-Inv
        working_lem.0 working_lem.1 working_session.0 answer-IsBatch (omega arith) in
    (
      s,
      runs,
      counted,
      written ∙ ap (written_after all_open one_session answer.lines) working_session.1,
    )

abbrev answered : MasterServer
answered = answered_state.0

answered_status : get_status answered 0 ≡ some (status_of finished_session)
unfolding get_status
answered_status = ap (Option.map status_of) answered_state.2

-- What a client is told now.
answered_reply :
    handle_get_search (master_service environment small_files 1) (decimal 20 0 []) answered
    ≡ record {
      status = ok_200;
      content = json_object (
          (search_id_key, number 0)
          ∷ (state_key, json_text done_text)
          ∷ (chunks_done_key, number 1)
          ∷ (chunks_total_key, number 1)
          ∷ (lines_count_key, number 1)
          ∷ (total_matches_key, number 1)
          ∷ (scan_errors_key, number 0)
          ∷ []);
    }
answered_reply =
    handle_get_search-known environment small_files 1 0 (status_of finished_session) answered
      (omega arith) answered_status
