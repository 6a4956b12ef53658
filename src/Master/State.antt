-- ===== src/Master/State.antt =====
-- The state of MasterServer (NetServer/src/MasterServer.hpp). A connection stands by its id, which
-- the server gives out once; a worker is a connection. `m_stateMutex` makes each function below that
-- the source runs under the lock one step.
use mathlib.Core.Option
use log_grid.Base.Assoc.{insert, lookup}
use log_grid.Base.{
  Bool, List, Option, [], false, if◌then◌else◌, length, none, some, true, ℕ, ◌%◌, ◌++◌, ◌+◌, ◌==◌,
  ◌^◌,
}
use log_grid.Net.Message.{Message}
use log_grid.Protocol.{TaskPayload}

-- The two ints are kept as their 32-bit patterns.
pub record SearchSession : Type 0 where
  pub path : List ℕ
  pub search_id : ℕ
  pub max_results : ℕ
  pub total_matches : ℕ
  pub line_count : ℕ
  pub scan_errors : ℕ
  pub chunks_total : ℕ
  pub chunks_done : ℕ

-- `sent` and `written` are what leaves the master: messages posted to connections, and lines
-- appended to result files, the oldest first.
pub record MasterServer : Type 0 where
  pub pending_tasks : List TaskPayload
  pub in_flight_tasks : List (ℕ × List (ℕ × TaskPayload))
  pub idle_workers : List ℕ
  pub idle_workers_ids : List (ℕ × Unit {0})
  pub sessions : List (ℕ × SearchSession)
  pub workers_free_slots : List (ℕ × ℕ)
  pub next_search_id : ℕ
  pub next_task_id : ℕ
  pub sent : List (ℕ × Message)
  pub written : List (List ℕ × List ℕ)

abbrev pub init : MasterServer
init = record {
  pending_tasks = [];
  in_flight_tasks = [];
  idle_workers = [];
  idle_workers_ids = [];
  sessions = [];
  workers_free_slots = [];
  next_search_id = 0;
  next_task_id = 0;
  sent = [];
  written = [];
}

abbrev pub is_some {ℓ} : {A : Type ℓ} → Option A → Bool
is_some none = false
is_some (some a) = true

abbrev pub get_or {ℓ} : {A : Type ℓ} → Option A → A → A
get_or none d = d
get_or (some a) d = a

-- `AllocateSearchId`: the new id, and the counter moved on.
unfoldable pub allocate_search_id : MasterServer → ℕ × MasterServer
allocate_search_id s =
    (s.next_search_id, record s { next_search_id = (s.next_search_id + 1) % 2 ^ 64 })

-- `AddPendingTasks`
unfoldable pub add_pending_tasks : SearchSession → List TaskPayload → MasterServer → MasterServer
add_pending_tasks session new_tasks s =
    let published = record session { chunks_total = length new_tasks % 2 ^ 32 } in
    record s {
      sessions = insert session.search_id published s.sessions;
      pending_tasks = s.pending_tasks ++ new_tasks;
    }

pub data SearchState : Type 0 where
  running done : SearchState

pub record SearchStatus : Type 0 where
  pub state : SearchState
  pub lines_found : ℕ
  pub total_matches : ℕ
  pub scan_errors : ℕ
  pub chunks_done : ℕ
  pub chunks_total : ℕ

abbrev pub status_of : SearchSession → SearchStatus
status_of session = record {
  state = if session.chunks_done == session.chunks_total then done else running;
  lines_found = session.line_count;
  total_matches = session.total_matches;
  scan_errors = session.scan_errors;
  chunks_done = session.chunks_done;
  chunks_total = session.chunks_total;
}

-- `GetStatus`
unfoldable pub get_status : MasterServer → ℕ → Option SearchStatus
get_status s search_id = Option.map status_of (lookup search_id s.sessions)
