-- ===== src/Master/Books/Completion.antt =====
-- Worker_TaskDone from end to end: the batch that a worker sends for a task it was given.
use log_grid.Base.{
  Bool, Bool-cases, List, Option-cases, ap, arith, inl, inr, length, ltb, min, refl, some, ℕ, ◌%◌,
  ◌+◌, ◌<◌, ◌^◌, ◌∙◌, ◌≡◌, ◌≤◌,
}
use log_grid.Base.Assoc.{insert, lookup, lookup-insert_self}
use log_grid.Net.Bytes.{from_le-le, le}
use log_grid.Net.Message.{Message, pull}
use log_grid.Protocol.{ChunkResult, TaskPayload, code, from_code}
use log_grid.Protocol.Batch.{
  IsBatch, deserialize_batch, deserialize_batch-task_done_message, ok, task_done_message,
}
use log_grid.Master.State.{MasterServer, SearchSession}
use log_grid.Master.Dispatch.{dispatch_next_task, tasks_of}
use log_grid.Master.Dispatch.Tally.{dispatch_next_task-Sound}
use log_grid.Master.Results.{
  aggregate_task_result, count_batch, lines_to_write, store_batch, write_results,
}
use log_grid.Master.Handlers.{caught, complete_task, count_chunk, on_message, on_task_done}
use log_grid.Master.Accounting.{Inv, Inv-Sound}
use log_grid.Master.Books.Finish.{Without-InvWith, finish_task-some, finished, finished-Without}
use log_grid.Master.Books.Written.{
  written-count_chunk, written-dispatch_next_task, written-store_batch, written-without_task,
  written_after,
}

-- A session after one more chunk with these counts, up to the maximum of lines.
abbrev pub session_after : SearchSession → ChunkResult → SearchSession
session_after session b = record session {
  total_matches = (session.total_matches + b.total_matches) % 2 ^ 64;
  line_count = min (session.line_count + length b.lines) session.max_results;
  chunks_done = (session.chunks_done + 1) % 2 ^ 32;
}

pub count_batch_lem :
    (session : SearchSession) (b : ChunkResult)
    → session.line_count ≤ session.max_results
    → (session.line_count + lines_to_write session (length b.lines))
      ≡ min (session.line_count + length b.lines) session.max_results
unfolding lines_to_write
count_batch_lem session b h = ground (arith, h)

sessions-write_results :
    (can_open : List ℕ → Bool) (lines : List (List ℕ)) (id : ℕ) (s : MasterServer)
    → (write_results can_open lines id s).sessions ≡ s.sessions
unfolding write_results
sessions-write_results can_open lines id s = elim (Option-cases (lookup id s.sessions)) [
  | inl unknown ↦ rw (unknown, write_results) refl
  | inr (session, known) ↦ elim (Bool-cases (can_open session.path)) [
    | inl opens ↦ rw (known, write_results) (rw opens refl)
    | inr closed ↦ rw (known, write_results) (rw closed refl)
  ]
]

sessions-store_batch :
    (can_open : List ℕ → Bool) (b : ChunkResult) (id : ℕ) (session : SearchSession)
    (s : MasterServer)
    → (store_batch can_open b id session s).sessions ≡ insert id (count_batch session b) s.sessions
sessions-store_batch can_open b id session s =
    elim (Bool-cases (ltb 0 (lines_to_write session (length b.lines)))) [
      | inl more ↦ rw more (sessions-write_results can_open _ id _)
      | inr no_more ↦ rw no_more refl
    ]

count_chunk_known :
    (id : ℕ) (s : MasterServer) (session : SearchSession)
    → lookup id s.sessions ≡ some session
    → lookup id (count_chunk id s).sessions
      ≡ some (record session { chunks_done = (session.chunks_done + 1) % 2 ^ 32 })
unfolding count_chunk
count_chunk_known id s session known = rw (known, count_chunk) (lookup-insert_self id _ s.sessions)

module _ (can_open : List ℕ → Bool) (client : ℕ) (msg : Message) (b : ChunkResult) (id : ℕ)
    (session : SearchSession) (decodes : deserialize_batch msg ≡ ok b)
    (bounded : session.line_count ≤ session.max_results) where
  pub aggregate_ok :
      (s : MasterServer)
      → lookup id s.sessions ≡ some session
      → aggregate_task_result can_open msg id s ≡ ok (store_batch can_open b id session s)
  unfolding aggregate_task_result
  aggregate_ok s known = rw (decodes, known, aggregate_task_result) refl

  stored_lookup :
      (s : MasterServer)
      → lookup id (store_batch can_open b id session s).sessions ≡ some (count_batch session b)
  stored_lookup s =
      ap (lookup id) (sessions-store_batch can_open b id session s)
      ∙ lookup-insert_self id (count_batch session b) s.sessions

  pub counted_after :
      (s : MasterServer)
      → lookup id (count_chunk id (store_batch can_open b id session s)).sessions
        ≡ some (session_after session b)
  unfolding count_batch
  counted_after s =
      count_chunk_known id _ (count_batch session b) (stored_lookup s)
      ∙ ap
          (λ n. some (record session {
            total_matches = (session.total_matches + b.total_matches) % 2 ^ 64;
            line_count = n;
            chunks_done = (session.chunks_done + 1) % 2 ^ 32;
          }))
          (count_batch_lem session b bounded)

  complete_task_lem :
      (s : MasterServer)
      → lookup id (dispatch_next_task client s).1.sessions ≡ some session
      → (s' : MasterServer) × (complete_task can_open client msg id s ≡ some s')
        × (lookup id s'.sessions ≡ some (session_after session b))
        × (s'.written ≡ written_after can_open session b.lines s.written)
  unfolding complete_task caught
  complete_task_lem s known = (
    count_chunk id (store_batch can_open b id session (dispatch_next_task client s).1),
    rw (aggregate_ok (dispatch_next_task client s).1 known) refl,
    counted_after (dispatch_next_task client s).1,
    written-count_chunk id _
        ∙ (written-store_batch can_open b id session (dispatch_next_task client s).1
            ∙ ap (written_after can_open session b.lines) (written-dispatch_next_task client s)),
  )

module _ (can_open : List ℕ → Bool) (client : ℕ) (b : ChunkResult) (s : MasterServer)
    (t : TaskPayload) (session : SearchSession) (v : Inv s)
    (room : s.next_task_id + length s.pending_tasks < 2 ^ 64)
    (there : lookup b.task_id (tasks_of client s) ≡ some t)
    (known : lookup t.search_id s.sessions ≡ some session) where
  abbrev pub taken : MasterServer
  taken = finished client b.task_id s t v.distinct v.fresh there

  pub known_after : lookup t.search_id (dispatch_next_task client taken).1.sessions ≡ some session
  known_after =
      let w = finished-Without client b.task_id s t v.distinct v.fresh there in
      let sound =
        dispatch_next_task-Sound client taken
          (Inv-Sound (omega (arith, w.same_room, room)) (Without-InvWith w v)) in
      ap (lookup t.search_id) (sound.same_sessions ∙ w.same_sessions) ∙ known

  pub task_done_steps :
      (m : Message)
      → b.task_id < 256 ^ 8
      → pull 8 (task_done_message b) ≡ some (le 8 b.task_id, m)
      → on_message can_open client (task_done_message b) s
        ≡ complete_task can_open client m t.search_id taken
  unfolding on_message on_task_done from_code code task_done_message
  task_done_steps m u64 popped =
      rw
        (
          popped,
          from_le-le 8 b.task_id u64,
          finish_task-some client b.task_id s t v.distinct v.fresh there,
        )
        refl

  -- The batch that a worker sends for a task that it was given is taken in: OnMessage returns, the
  -- search that the task belongs to has one more chunk done and the matches of the batch added, and
  -- its count of stored lines has the lines of the batch added up to its maximum; and its result
  -- file, if it opens, has had those lines of the batch appended that there was room for, and no
  -- other file has been written to. The batch is one that the C++ types can hold, the books are in
  -- order, with task ids left, and the search is known and has not stored more than its maximum.
  pub on_message-task_done_message :
      IsBatch b
      → session.line_count ≤ session.max_results
      → (s' : MasterServer) × (on_message can_open client (task_done_message b) s ≡ some s')
        × (lookup t.search_id s'.sessions ≡ some (session_after session b))
        × (s'.written ≡ written_after can_open session b.lines s.written)
  on_message-task_done_message is_batch bounded =
      let (m, popped, decodes) = deserialize_batch-task_done_message b is_batch in
      let (s', runs, after, stored) =
        complete_task_lem can_open client m (record b { task_id = 0 }) t.search_id session decodes
          bounded taken known_after in
      (
        s',
        task_done_steps m is_batch.task_id_u64 popped ∙ runs,
        after,
        stored
            ∙ ap (written_after can_open session b.lines)
                (written-without_task client b.task_id _ s),
      )
