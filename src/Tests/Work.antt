-- ===== src/Tests/Work.antt =====
-- A file that is searched, with a worker that comes.
use log_grid.Master.Dispatch.{assign_idle_workers, assign_loop}
use log_grid.Base.{
  List, Option, [], ap, arith, length, refl, some, some_injective, ℕ, ◌+◌, ◌<◌, ◌^◌, ◌∷◌, ◌≡◌,
}
use log_grid.Net.Message.{push}
use log_grid.Protocol.{TaskPayload, code, from_code, worker_task_done}
use log_grid.Master.State.{MasterServer, add_pending_tasks, allocate_search_id}
use log_grid.Master.Chunks.{chunk_loop, chunk_size, create_chunk_task, enqueue_file_chunks, padded}
use log_grid.Master.Scan.{Scan, process_single_file}
use log_grid.Master.Start.{
  build_session, collect_tasks, create_session_file_path, equal_bytes, is_inside, join,
  make_relative, start_search, starts_with, with_separator,
}
use log_grid.Master.Handlers.{on_hello, on_message}
use log_grid.Master.Served.{Collects, Published, Request, Served, begins, searches, takes_message}
use log_grid.Master.Served.Honest.{IsHonest, gives_other}
use log_grid.Pipeline.Sums.{lines_of_task, matches_of}
use log_grid.Pipeline.Service.{WholeFile}
use log_grid.Http.{default_config}
use log_grid.Tests.Service.{environment, keyword, outcome_found, searching, small_files}
use log_grid.Tests.Cluster.{all_open, hello}
use log_grid.Tests.Steps.{in_order}
use log_grid.Tests.Search.{compile_byte, contains, text}

-- Every path is that of the small file.
abbrev pub any_file : List ℕ → Option (List ℕ)
any_file path = some text

abbrev pub request : Request
request = record {
  fs = small_files;
  keyword = keyword;
  config = default_config;
  depth = 1;
  filepath = keyword;
}

-- "d/a"
abbrev pub target : List ℕ
target = 100 ∷ 47 ∷ 97 ∷ []

abbrev pub chunk : TaskPayload
chunk = record {
  search_id = 0;
  task_id = 0;
  max_results = default_config.max_results;
  start_offset = 0;
  end_offset = 7;
  keyword = padded 64 keyword;
  filename = padded 256 target;
}

abbrev pub scan : Scan
scan = record { out_tasks = chunk ∷ []; scan_errors = 0 }

unfoldable pub collects : Collects environment request 0 scan
unfolding make_relative join with_separator collect_tasks process_single_file create_chunk_task
    enqueue_file_chunks chunk_loop chunk_size
collects = record {
  base = 100 ∷ [];
  target = target;
  base_there = refl;
  target_there = refl;
  collected = refl;
}

abbrev pub matches_there : TaskPayload → ℕ
matches_there = matches_of compile_byte contains any_file

abbrev pub lines_there : TaskPayload → ℕ
lines_there = lines_of_task compile_byte contains any_file

abbrev pub AtWork : List (ℕ × Published) → MasterServer → Type 0
AtWork = Served all_open in_order environment (IsHonest matches_there lines_there)

abbrev pub log : List (ℕ × Published)
log = (0, record { tasks = chunk ∷ []; max_results = default_config.max_results }) ∷ []

pub searching-Work : AtWork log searching
searching-Work = searches request 0 scan begins (omega arith) (omega arith) outcome_found collects

abbrev pub working : MasterServer
working = on_hello 4 hello searching

pub hello_runs : on_message all_open 4 hello searching ≡ some working
unfolding on_message from_code code push
hello_runs = refl

pub hello_kind : ¬ (from_code hello.id ≡ some worker_task_done)
unfolding from_code code push
hello_kind e = omega (arith, ap code (some_injective e))

pub searching_room : searching.next_task_id + length searching.pending_tasks < 2 ^ 64
unfolding start_search make_relative join with_separator is_inside equal_bytes starts_with
    allocate_search_id build_session create_session_file_path collect_tasks process_single_file
    create_chunk_task enqueue_file_chunks chunk_loop chunk_size add_pending_tasks
    assign_idle_workers assign_loop
searching_room = omega arith

pub working-Work : AtWork log working
working-Work =
    takes_message 4 hello searching-Work (gives_other hello_kind) searching_room hello_runs

pub whole : WholeFile compile_byte contains any_file request target text 97
unfolding chunk_size
whole = record {
  regular = refl;
  sized = refl;
  not_empty = omega arith;
  opens = refl;
  compiles = refl;
  path_text = (omega arith, (omega arith, (omega arith, tt)));
  keyword_text = (omega arith, tt);
  fits = omega arith;
}

-- The search has few chunks.
abbrev pub small : length scan.out_tasks < 2 ^ 32
small = omega arith
