-- ===== src/Master/Served.antt =====
-- The master at work: whole calls of OnMessage, OnClientDisconnect and StartSearch, one after the other,
-- from the start on, and what the searches among them have published. In the program StartSearch and
-- GetStatus run on the threads of the HTTP server, beside OnMessage: runs where calls overlap are those of
-- Master/Steps, and are not covered here. What workers may send is a
-- parameter, and so is the file system at the time of each search.
pub mod Answered
pub mod Begun
pub mod Measures
pub mod Counts
pub mod Opened
pub mod Honest
pub mod Kept
pub mod Unwritten
pub mod Texts
pub mod Filed
pub mod Appended
pub mod Status
pub mod Keeping
pub mod Working
pub mod Handled
pub mod Busy
pub mod Capacity
pub mod Load
pub mod Bounded
use log_grid.Base.{Bool, List, Option, [], length, none, some, ℕ, ◌+◌, ◌<◌, ◌^◌, ◌∷◌, ◌≡◌}
use log_grid.Net.Message.{Message}
use log_grid.Protocol.{TaskPayload}
use log_grid.Master.State.{MasterServer, init}
use log_grid.Master.Dispatch.{tasks_of}
use log_grid.Master.Scan.{FileSystem, Scan, SearchConfig}
use log_grid.Master.Start.{Environment, collect_tasks, join, make_relative, start_search}
use log_grid.Master.Handlers.{on_client_disconnect, on_message}

-- The tasks of a search that was started, and the number of lines that it may store.
pub record Published : Type 0 where
  pub tasks : List TaskPayload
  pub max_results : ℕ

-- A search that StartSearch has started: its request, the file system, the target and the scan.
pub record Request : Type 0 where
  pub fs : FileSystem
  pub keyword : List ℕ
  pub config : SearchConfig
  pub depth : ℕ
  pub filepath : List ℕ

module _ (env : Environment) where
  abbrev pub run_request : Request → MasterServer → Option (Option ℕ × MasterServer)
  run_request r s = start_search env r.fs r.keyword r.config r.depth r.filepath s

  -- The target of a request exists, and these are the tasks that are collected of it.
  pub record Collects (r : Request) (id : ℕ) (acc : Scan) : Type 0 where
    pub base : List ℕ
    pub target : List ℕ
    pub base_there : r.fs.canonical env.input_dir ≡ some base
    pub target_there : r.fs.canonical (join base (make_relative r.filepath)) ≡ some target
    pub collected : collect_tasks r.fs r.keyword id r.config r.depth target ≡ some (some acc)

module _ (can_open : List ℕ → Bool) (walk : List (ℕ × TaskPayload) → List (ℕ × TaskPayload))
    (env : Environment) (MaySend : ℕ → Message → MasterServer → Type 0) where
  -- The searches that were started, with their ids, and the state of the master between two calls, none
  -- of which overlap. The 64-bit ids last:
  -- each call leaves ids for the tasks that wait.
  pub data Served : List (ℕ × Published) → MasterServer → Type 0 where
    begins : Served [] init
    takes_message :
        {log : List (ℕ × Published)} {s s' : MasterServer} (client : ℕ) (msg : Message)
        → Served log s
        → MaySend client msg s
        → s.next_task_id + length s.pending_tasks < 2 ^ 64
        → on_message can_open client msg s ≡ some s'
        → Served log s'
    loses_worker :
        {log : List (ℕ × Published)} {s : MasterServer} (client : ℕ)
        → Served log s
        → s.next_task_id + length s.pending_tasks + length (tasks_of client s) < 2 ^ 64
        → Served log (on_client_disconnect walk client s)
    refuses :
        {log : List (ℕ × Published)} {s s' : MasterServer} (r : Request)
        → Served log s
        → s.next_search_id + 1 < 2 ^ 64
        → run_request env r s ≡ some (none, s')
        → Served log s'
    searches :
        {log : List (ℕ × Published)} {s s' : MasterServer} (r : Request) (id : ℕ) (acc : Scan)
        → Served log s
        → s.next_search_id + 1 < 2 ^ 64
        → s.next_task_id + length s.pending_tasks + length acc.out_tasks < 2 ^ 64
        → run_request env r s ≡ some (some id, s')
        → Collects env r id acc
        → Served
            ((id, record { tasks = acc.out_tasks; max_results = r.config.max_results }) ∷ log)
            s'
