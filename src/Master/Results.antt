-- ===== src/Master/Results.antt =====
-- AggregateTaskResult and WriteResults of NetServer/src/MasterServer.cpp: the counts of a session and
-- the lines of its result file. Whether a result file can be opened is a parameter.
use log_grid.Base.{
  Bool, List, Option, [], if◌then◌else◌, length, ltb, min, none, some, take, ℕ, ◌%◌, ◌++◌, ◌+◌, ◌-◌,
  ◌^◌, ◌∷◌,
}
use log_grid.Base.Assoc.{insert, lookup}
use log_grid.Net.Message.{Message}
use log_grid.Protocol.{ChunkResult}
use log_grid.Protocol.Batch.{Outcome, deserialize_batch, ok, throws, ◌>>=◌}
use log_grid.Master.State.{MasterServer, SearchSession}

-- Under the lock: how many of the lines may still be stored, and the counts moved on.
unfoldable pub lines_to_write : SearchSession → ℕ → ℕ
lines_to_write session n =
    if ltb session.line_count session.max_results
    then min n (session.max_results - session.line_count)
    else 0

-- The line count stays at most `max_results`, so it does not wrap.
unfoldable pub count_batch : SearchSession → ChunkResult → SearchSession
count_batch session batch = record session {
  total_matches = (session.total_matches + batch.total_matches) % 2 ^ 64;
  line_count = session.line_count + lines_to_write session (length batch.lines);
}

-- `file << line << "\n"`, for each line
unfoldable pub file_text : List (List ℕ) → List ℕ
file_text [] = []
file_text (line ∷ lines) = line ++ (10 ∷ file_text lines)

module _ (can_open : List ℕ → Bool) where
  -- `WriteResults`
  unfoldable pub write_results : List (List ℕ) → ℕ → MasterServer → MasterServer
  write_results lines search_id s = elim (lookup search_id s.sessions) [
    | none ↦ s
    | some session ↦
        if can_open session.path
        then record s { written = s.written ++ ((session.path, file_text lines) ∷ []) }
        else s
  ]

  abbrev pub store_batch : ChunkResult → ℕ → SearchSession → MasterServer → MasterServer
  store_batch batch search_id session s =
      let n = lines_to_write session (length batch.lines) in
      let counted = record s {
        sessions = insert search_id (count_batch session batch) s.sessions;
      } in
      if ltb 0 n then write_results (take n batch.lines) search_id counted else counted

  abbrev pub store_if_known :
      ChunkResult → ℕ → Option SearchSession → MasterServer → Outcome MasterServer
  store_if_known batch search_id none s = throws
  store_if_known batch search_id (some session) s = ok (store_batch batch search_id session s)

  -- `AggregateTaskResult`, on a message whose task id has been popped
  unfoldable pub aggregate_task_result : Message → ℕ → MasterServer → Outcome MasterServer
  aggregate_task_result msg search_id s = do
    batch ← deserialize_batch msg
    store_if_known batch search_id (lookup search_id s.sessions) s
