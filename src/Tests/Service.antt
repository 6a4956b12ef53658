-- ===== src/Tests/Service.antt =====
-- A search that is started and polled over HTTP.
use log_grid.Base.{
  Bool-cases, List, Option, [], arith, inl, inr, leb, length, none, refl, some, some_injective,
  true, ℕ, ◌<◌, ◌^◌, ◌↔◌, ◌∷◌, ◌≡◌,
}
use log_grid.Master.State.{
  MasterServer, SearchStatus, add_pending_tasks, allocate_search_id, get_or, get_status, init,
  running,
}
use log_grid.Master.Dispatch.{assign_idle_workers, assign_loop}
use log_grid.Master.Dispatch.Tally.{tally}
use log_grid.Master.Chunks.{
  chunk_loop, chunk_size, chunk_size-eq, create_chunk_task, enqueue_file_chunks,
}
use log_grid.Master.Accounting.{Inv, outstanding}
use log_grid.Master.Scan.{FileSystem, SearchConfig, process_single_file, regular_file}
use log_grid.Master.Scan.Depth.{HasDepth, Returns, SmallFiles}
use log_grid.Master.Books.Publish.{init-Inv}
use log_grid.Master.Start.{
  Environment, build_session, collect_tasks, create_session_file_path, equal_bytes, is_inside, join,
  make_relative, start_search, starts_with, with_separator,
}
use log_grid.Master.Start.Keeps.{Room, start_search-Inv, start_search-Returns}
use log_grid.Http.{
  JsonValue, default_config, field, handle_get_search, json_object, json_text, ok_200, state_key,
}
use log_grid.Http.Stoull.{decimal}
use log_grid.Http.Routes.{Tells, done_text, handle_get_search-done_iff, master_service}

-- Every path is that of a file of 7 bytes.
abbrev pub small_files : FileSystem
small_files = record {
  canonical = λ path. some path;
  file_kind = λ path. regular_file;
  file_size = λ path. some 7;
  listing = λ path. none;
}

-- The input is "d", the output "o"; a result file is named "s" and the byte of its id.
abbrev pub environment : Environment
environment = record {
  input_dir = 100 ∷ [];
  base_dir = 111 ∷ [];
  lexically_normal = λ path. path;
  session_file_name = λ id. 115 ∷ id ∷ [];
  create_directories = λ path. true;
}

-- "a"
abbrev pub keyword : List ℕ
keyword = 97 ∷ []

small_files-SmallFiles : SmallFiles small_files
small_files-SmallFiles path size e = omega (arith, some_injective e, chunk_size-eq)

small_files-HasDepth : (path : List ℕ) → HasDepth small_files 1 path
small_files-HasDepth path = tt

pub small_files-Room :
    (word : List ℕ) (config : SearchConfig) (path : List ℕ)
    → Room init (collect_tasks small_files word 0 config 1 path)
unfolding collect_tasks process_single_file create_chunk_task enqueue_file_chunks chunk_loop
    chunk_size
small_files-Room word config path = elim (Bool-cases (leb 256 (length path))) [
  | inl long ↦ rw long tt
  | inr fits ↦ rw fits (omega arith)
]

start_search-Returns_example :
    Returns (start_search environment small_files keyword default_config 1 keyword init)
start_search-Returns_example =
    start_search-Returns environment small_files keyword default_config 1 keyword init
      small_files-SmallFiles small_files-HasDepth

abbrev outcome : Option (Option ℕ × MasterServer)
outcome = start_search environment small_files keyword default_config 1 keyword init

abbrev pub searching : MasterServer
searching = (get_or outcome (none, init)).1

pub outcome_found : outcome ≡ some (some 0, searching)
unfolding start_search make_relative join with_separator is_inside equal_bytes starts_with
    allocate_search_id build_session create_session_file_path collect_tasks process_single_file
    create_chunk_task enqueue_file_chunks chunk_loop chunk_size
outcome_found = refl

start_search-Inv_example : Inv searching
start_search-Inv_example =
    start_search-Inv environment small_files keyword default_config 1 keyword init (omega arith)
      (small_files-Room keyword default_config) init-Inv (some 0) searching outcome_found

searching-Inv : Inv searching
searching-Inv =
    start_search-Inv environment small_files keyword default_config 1 keyword init (omega arith)
      (small_files-Room keyword default_config) init-Inv (some 0) searching outcome_found

abbrev waiting : SearchStatus
waiting = record {
  state = running;
  lines_found = 0;
  total_matches = 0;
  scan_errors = 0;
  chunks_done = 0;
  chunks_total = 1;
}

searching_status : get_status searching 0 ≡ some waiting
unfolding get_status start_search make_relative join with_separator is_inside equal_bytes
    starts_with allocate_search_id build_session create_session_file_path collect_tasks
    process_single_file create_chunk_task enqueue_file_chunks chunk_loop chunk_size
    add_pending_tasks assign_idle_workers assign_loop
searching_status = refl

searching_few : outstanding 0 searching < 2 ^ 32
unfolding tally start_search make_relative join with_separator is_inside equal_bytes starts_with
    allocate_search_id build_session create_session_file_path collect_tasks process_single_file
    create_chunk_task enqueue_file_chunks chunk_loop chunk_size add_pending_tasks
    assign_idle_workers assign_loop
searching_few = omega arith

handle_get_search-done_iff_example :
    (fields : List (List ℕ × JsonValue)) × (handle_get_search
        (master_service environment small_files 1)
        (decimal 20 0 [])
        searching
      ≡ record { status = ok_200; content = json_object fields })
    × Tells 0 waiting fields
    × ((field state_key fields ≡ some (json_text done_text)) ↔ (outstanding 0 searching ≡ 0))
handle_get_search-done_iff_example =
    handle_get_search-done_iff environment small_files 1 0 waiting searching (omega arith)
      searching-Inv searching_few searching_status
