-- ===== src/Master/Promises.antt =====
-- What the comments of NetServer/src/MasterServer.hpp promise of the operations of the master, stated
-- for the operations of the other modules.
pub mod Dispatching
pub mod Searches
pub mod Files
pub mod Publishing
pub mod Storing
pub mod Building
use mathlib.Core.Option
use log_grid.Base.{
  Bool, List, Option, [], false, if◌then◌else◌, length, min, none, some, true, ℕ, ◌%◌, ◌++◌, ◌+◌,
  ◌-◌, ◌<◌, ◌==◌, ◌^◌, ◌||◌, ◌↔◌, ◌∷◌, ◌≡◌, ◌≤◌, ◌⊎◌,
}
use log_grid.Base.Assoc.{lookup}
use log_grid.Protocol.{ChunkResult, TaskPayload, filename_size}
use log_grid.Master.State.{
  MasterServer, SearchSession, SearchStatus, add_pending_tasks, allocate_search_id, get_or, is_some,
}
use log_grid.Master.Dispatch.{assign_idle_workers, task_message, tasks_of}
use log_grid.Net.Message.{Message}
use log_grid.Protocol.Batch.{Outcome, deserialize_batch, ok, out_of_bounds, throws}
use log_grid.Master.Results.{file_text}
use log_grid.Master.Books.Written.{written_after}
use log_grid.Master.Dispatch.Idle.{Settled}
use log_grid.Master.Dispatch.Waking.{Ready}
use log_grid.Master.Scan.{FileSystem, Scan, SearchConfig}
use log_grid.Master.Start.{
  Environment, backslash, build_session, collect_tasks, create_session_file_path, is_inside, join,
  make_relative, slash, starts_with,
}

-- DispatchNextTask, for a registered worker: with a task waiting, the first one gets the next id, is in
-- flight, uses up a slot and is sent, and the answer is true; with none the worker is in the idle
-- queue, its entry there before or added last, and the answer is false.
abbrev pub SentTask :
    ℕ → TaskPayload → List TaskPayload → MasterServer → Bool × MasterServer → Type 0
SentTask client front rest s (answer, s') =
    let task = record front { task_id = (s.next_task_id + 1) % 2 ^ 64 } in
    let slots = get_or (lookup client s.workers_free_slots) 0 in
    (answer ≡ true)
    × (s'.pending_tasks ≡ rest)
    × (lookup task.task_id (tasks_of client s') ≡ some task)
    × (lookup client s'.workers_free_slots ≡ some ((slots + 2 ^ 64 - 1) % 2 ^ 64))
    × (s'.sent ≡ s.sent ++ ((client, task_message task) ∷ []))

abbrev pub Parked : ℕ → MasterServer → Bool × MasterServer → Type 0
Parked client s (answer, s') =
    (answer ≡ false)
    × (is_some (lookup client s'.idle_workers_ids) ≡ true)
    × (if is_some (lookup client s.idle_workers_ids)
        then s'.idle_workers ≡ s.idle_workers
        else s'.idle_workers ≡ s.idle_workers ++ (client ∷ []))

abbrev pub DispatchPromise : ℕ → MasterServer → List TaskPayload → Bool × MasterServer → Type 0
DispatchPromise client s [] r = Parked client s r
DispatchPromise client s (front ∷ rest) r = SentTask client front rest s r

-- AllocateSearchId: the id is the next one, and nothing is registered.
abbrev pub reserved_id : MasterServer → MasterServer
reserved_id s = record s { next_search_id = (s.next_search_id + 1) % 2 ^ 64 }

abbrev pub ReservePromise : MasterServer → ℕ × MasterServer → Type 0
ReservePromise s (id, s') = (id ≡ s.next_search_id) × (s' ≡ reserved_id s)

-- A call that fails changes nothing, but that it may have used up an id.
abbrev pub Untouched : MasterServer → MasterServer → Type 0
Untouched s s' = (s' ≡ s) ⊎ (s' ≡ reserved_id s)

-- AddPendingTasks: the session with its number of chunks and all tasks, and no other session is touched.
pub record PublishPromise (session : SearchSession) (new_tasks : List TaskPayload)
    (s s' : MasterServer) : Type 0 where
  pub inserted :
      lookup session.search_id s'.sessions
      ≡ some (record session { chunks_total = length new_tasks % 2 ^ 32 })
  pub others : (id : ℕ) → ¬ (session.search_id ≡ id) → lookup id s'.sessions ≡ lookup id s.sessions
  pub appended : s'.pending_tasks ≡ s.pending_tasks ++ new_tasks
  pub same_in_flight : s'.in_flight_tasks ≡ s.in_flight_tasks

-- GetStatus: nothing exactly where the session does not exist.
abbrev pub StatusPromise : ℕ → MasterServer → Option SearchStatus → Type 0
StatusPromise id s status = (status ≡ none) ↔ (lookup id s.sessions ≡ none)

-- ProcessSingleFile: true if the file is empty, or has a size and a path that fits; false, and no tasks,
-- if its size cannot be read or the path is too long.
abbrev pub FilePromise : FileSystem → List ℕ → List TaskPayload → Bool × List TaskPayload → Type 0
FilePromise fs path out (handled, tasks) =
    ((handled ≡ true) ↔ (
      (size : ℕ) × (fs.file_size path ≡ some size) × ((size ≡ 0) ⊎ (length path < filename_size))))
    × (handled ≡ false → tasks ≡ out)

-- MakeRelative: what is left does not begin with a separator.
abbrev pub IsRelative : List ℕ → Type 0
IsRelative [] = Unit
IsRelative (c ∷ cs) = (c == slash || c == backslash) ≡ false

-- CreateSessionFilePath: the path begins with the base directory, and the call that creates its directory
-- has succeeded.
abbrev pub SessionPathPromise : Environment → Option (List ℕ) → Type 0
SessionPathPromise env none = Unit
SessionPathPromise env (some path) =
    (starts_with path (env.lexically_normal env.base_dir) ≡ true)
    × (env.create_directories path ≡ true)

-- StartSearch, on the state of the master. Where it throws, no task and no session is left of the call; a
-- directory that BuildSession has created before the throw stays on the disk, which is not in the state. Where it returns an id, the
-- target exists, is inside the input directory and gave tasks, or no errors; and the search is published
-- with these tasks, under the id, before idle workers are woken.
pub record Found (env : Environment) (fs : FileSystem) (filepath base target : List ℕ)
    : Type 0 where
  pub base_there : fs.canonical env.input_dir ≡ some base
  pub target_there : fs.canonical (join base (make_relative filepath)) ≡ some target
  pub inside : is_inside base target ≡ true

module _ (env : Environment) (fs : FileSystem) (keyword : List ℕ) (config : SearchConfig)
    (depth : ℕ) where
  pub record Started (filepath : List ℕ) (s : MasterServer) (id : ℕ) (s' : MasterServer)
      : Type 0 where
    pub base : List ℕ
    pub target : List ℕ
    pub found : Found env fs filepath base target
    pub session : SearchSession
    pub acc : Scan
    pub next_id : id ≡ s.next_search_id
    pub built : build_session env id config ≡ some session
    pub collected : collect_tasks fs keyword id config depth target ≡ some (some acc)
    pub some_found : (0 < length acc.out_tasks) ⊎ (acc.scan_errors ≡ 0)
    pub published :
        s'
        ≡ assign_idle_workers (
            add_pending_tasks
              (record session { scan_errors = acc.scan_errors })
              acc.out_tasks
              (allocate_search_id s).1)

  abbrev pub StartPromise : List ℕ → MasterServer → Option ℕ × MasterServer → Type 0
  StartPromise filepath s (none, s') = Untouched s s'
  StartPromise filepath s (some id, s') = Started filepath s id s'

-- DeserializeBatch: the three numbers at the tail, or an exception if the message is too short for them;
-- then as many lines as announced.
abbrev pub BatchPromise : Message → Outcome ChunkResult → Type 0
BatchPromise msg (ok batch) = (20 ≤ length msg.body) × (length batch.lines ≡ batch.lines_found)
BatchPromise msg throws = length msg.body < 20
BatchPromise msg out_of_bounds = 20 ≤ length msg.body

-- AggregateTaskResult: the counts of the session grow by those of the batch, its lines up to the
-- maximum, no other session is touched, and its result file has had those of its lines appended that
-- there was room for, if it opens; it throws where the message is too short or the search is
-- not known.
abbrev pub AggregatePromise :
    (List ℕ → Bool) → Message → ℕ → MasterServer → Outcome MasterServer → Type 0
AggregatePromise can_open msg id s (ok s') =
    (batch : ChunkResult) × (old : SearchSession) × (new : SearchSession) × (deserialize_batch msg
      ≡ ok batch)
    × (lookup id s.sessions ≡ some old)
    × (lookup id s'.sessions ≡ some new)
    × (new.total_matches ≡ (old.total_matches + batch.total_matches) % 2 ^ 64)
    × (old.line_count ≤ old.max_results
        → new.line_count ≡ min (old.line_count + length batch.lines) old.max_results)
    × ((k : ℕ) → ¬ (id ≡ k) → lookup k s'.sessions ≡ lookup k s.sessions)
    × (s'.written ≡ written_after can_open old batch.lines s.written)
AggregatePromise can_open msg id s throws = (length msg.body < 20) ⊎ (lookup id s.sessions ≡ none)
AggregatePromise can_open msg id s out_of_bounds = 20 ≤ length msg.body

-- WriteResults: the lines go to the end of the file of the session, if it is known and its file opens.
abbrev pub WritePromise : (List ℕ → Bool) → List (List ℕ) → ℕ → MasterServer → MasterServer → Type 0
WritePromise can_open lines id s s' =
    ((session : SearchSession)
      → lookup id s.sessions ≡ some session
      → can_open session.path ≡ true
      → s' ≡ record s { written = s.written ++ ((session.path, file_text lines) ∷ []) })
    × ((session : SearchSession)
        → lookup id s.sessions ≡ some session
        → can_open session.path ≡ false
        → s' ≡ s)
    × (lookup id s.sessions ≡ none → s' ≡ s)

-- BuildSession: a session with the id, the path and the maximum, and all counters at zero; it throws
-- exactly where the path is refused or its directory cannot be created.
abbrev pub BuildPromise : Environment → ℕ → SearchConfig → Option SearchSession → Type 0
BuildPromise env id config none = create_session_file_path env config.output_dir id ≡ none
BuildPromise env id config (some session) =
    (create_session_file_path env config.output_dir id ≡ some session.path)
    × (session.search_id ≡ id)
    × (session.max_results ≡ config.max_results)
    × (session.total_matches + session.line_count + session.scan_errors + session.chunks_done
          + session.chunks_total
        ≡ 0)

-- CreateChunkTask: the metadata of the search and offsets at zero.
abbrev pub ChunkTaskPromise : List ℕ → ℕ → ℕ → Option TaskPayload → Type 0
ChunkTaskPromise path id max_results none = filename_size ≤ length path
ChunkTaskPromise path id max_results (some task) =
    (length path < filename_size)
    × (task.search_id ≡ id)
    × (task.max_results ≡ max_results)
    × (task.start_offset + task.end_offset ≡ 0)

-- AssignIdleWorkers: no task waits beside an idle worker, and no worker with a free slot is forgotten.
abbrev pub AssignPromise : MasterServer → MasterServer → Type 0
AssignPromise s s' = Settled s' × (Ready s → Ready s')
