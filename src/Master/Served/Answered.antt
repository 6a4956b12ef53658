-- ===== src/Master/Served/Answered.antt =====
-- What the answer of a worker changes: the session of its task, and the task is gone.
use log_grid.Base.{
  Bool, Bool-cases, List, Option-cases, [], ap, arith, inl, inr, length, ltb, refl, some,
  some_injective, subst, sym, ℕ, ◌%◌, ◌++◌, ◌+◌, ◌<◌, ◌^◌, ◌∙◌, ◌∷◌, ◌≡◌, ◌≢◌, ◌≤◌,
}
use log_grid.Base.Assoc.{insert, lookup, lookup-insert_ne}
use log_grid.Protocol.{ChunkResult, TaskPayload}
use log_grid.Protocol.Batch.{IsBatch, deserialize_batch-task_done_message, task_done_message}
use log_grid.Master.State.{MasterServer, SearchSession}
use log_grid.Master.Dispatch.{dispatch_next_task, tasks_of}
use log_grid.Master.Dispatch.Tally.{IgnoresId, Sound, dispatch_next_task-Sound, tally}
use log_grid.Master.Results.{count_batch, file_text, lines_to_write, store_batch, write_results}
use log_grid.Master.Handlers.{caught, complete_task, count_chunk, on_message}
use log_grid.Master.Accounting.{Inv, Inv-Sound}
use log_grid.Master.Books.Finish.{Without-InvWith, finished-Without}
use log_grid.Master.Books.Completion.{
  aggregate_ok, counted_after, known_after, session_after, taken, task_done_steps,
}

-- A state with other results.
abbrev pub with_results :
    List (ℕ × SearchSession) → List (List ℕ × List ℕ) → MasterServer → MasterServer
with_results m w s = record s { sessions = m; written = w }

pub write_results_eq :
    (can_open : List ℕ → Bool) (lines : List (List ℕ)) (id : ℕ) (s : MasterServer)
    → (w : List (List ℕ × List ℕ)) × (write_results can_open lines id s
        ≡ with_results s.sessions w s)
unfolding write_results
write_results_eq can_open lines id s = elim (Option-cases (lookup id s.sessions)) [
  | inl unknown ↦ (s.written, rw (unknown, write_results) refl)
  | inr (session, known) ↦ elim (Bool-cases (can_open session.path)) [
    | inl opens ↦ (
      s.written ++ ((session.path, file_text lines) ∷ []),
      rw (known, write_results) (rw opens refl),
    )
    | inr closed ↦ (s.written, rw (known, write_results) (rw closed refl))
  ]
]

pub store_batch_eq :
    (can_open : List ℕ → Bool) (b : ChunkResult) (id : ℕ) (session : SearchSession)
    (s : MasterServer)
    → (w : List (List ℕ × List ℕ)) × (store_batch can_open b id session s
        ≡ with_results (insert id (count_batch session b) s.sessions) w s)
store_batch_eq can_open b id session s =
    elim (Bool-cases (ltb 0 (lines_to_write session (length b.lines)))) [
      | inl more ↦ rw more (write_results_eq can_open _ id _)
      | inr no_more ↦ rw no_more (s.written, refl)
    ]

pub count_chunk_eq :
    (id : ℕ) (s : MasterServer)
    → (m : List (ℕ × SearchSession)) × (count_chunk id s ≡ with_results m s.written s)
      × ((k : ℕ) → id ≢ k → lookup k m ≡ lookup k s.sessions)
unfolding count_chunk
count_chunk_eq id s = elim (Option-cases (lookup id s.sessions)) [
  | inl unknown ↦ (s.sessions, rw (unknown, count_chunk) refl, λ k apart. refl)
  | inr (session, known) ↦ (
    insert id (record session { chunks_done = (session.chunks_done + 1) % 2 ^ 32 }) s.sessions,
    rw (known, count_chunk) refl,
    λ k apart. lookup-insert_ne id k _ s.sessions apart,
  )
]

-- After the answer `b` for the task `t` of the search with `session`.
pub record Answered (b : ChunkResult) (t : TaskPayload) (session : SearchSession)
    (from s : MasterServer) : Type 0 where
  pub counted : lookup t.search_id s.sessions ≡ some (session_after session b)
  pub others : (k : ℕ) → t.search_id ≢ k → lookup k s.sessions ≡ lookup k from.sessions
  pub one_less : (f : TaskPayload → ℕ) → IgnoresId f → tally f s + f t ≡ tally f from

module _ (can_open : List ℕ → Bool) (client : ℕ) (b : ChunkResult) (s : MasterServer)
    (t : TaskPayload) (session : SearchSession) (v : Inv s)
    (room : s.next_task_id + length s.pending_tasks < 2 ^ 64)
    (there : lookup b.task_id (tasks_of client s) ≡ some t)
    (known : lookup t.search_id s.sessions ≡ some session) where
  -- The task id was popped before.
  abbrev popped_batch : ChunkResult
  popped_batch = record b { task_id = 0 }

  abbrev next_sent : MasterServer
  next_sent = (dispatch_next_task client (taken can_open client b s t session v room there known)).1

  next_sent-Sound : Sound (taken can_open client b s t session v room there known) next_sent
  next_sent-Sound =
      let w = finished-Without client b.task_id s t v.distinct v.fresh there in
      dispatch_next_task-Sound client _
        (Inv-Sound (omega (arith, w.same_room, room)) (Without-InvWith w v))

  stored_others :
      (k : ℕ)
      → t.search_id ≢ k
      → lookup k (store_batch can_open popped_batch t.search_id session next_sent).sessions
        ≡ lookup k s.sessions
  stored_others k apart =
      let w = finished-Without client b.task_id s t v.distinct v.fresh there in
      let (text, same) = store_batch_eq can_open popped_batch t.search_id session next_sent in
      ap (λ r. lookup k r.sessions) same
      ∙ (lookup-insert_ne t.search_id k _ next_sent.sessions apart
          ∙ ap (lookup k) (next_sent-Sound.same_sessions ∙ w.same_sessions))

  one_less_after :
      (f : TaskPayload → ℕ)
      → IgnoresId f
      → tally f (store_batch can_open popped_batch t.search_id session next_sent) + f t ≡ tally f s
  unfolding tally
  one_less_after f ignores =
      let w = finished-Without client b.task_id s t v.distinct v.fresh there in
      let (text, same) = store_batch_eq can_open popped_batch t.search_id session next_sent in
      let same_tally = ap (tally f) same in
      omega (arith, same_tally, next_sent-Sound.same_tasks f ignores, w.one_less f)

  -- Where OnMessage returns for the answer to a task, the batch is counted for the search of the task
  -- and the task is gone.
  pub on_message-Answered :
      (s' : MasterServer)
      → IsBatch b
      → session.line_count ≤ session.max_results
      → on_message can_open client (task_done_message b) s ≡ some s'
      → Answered b t session s s'
  unfolding complete_task caught
  on_message-Answered s' valid bounded e =
      let (m, popped, decodes) = deserialize_batch-task_done_message b valid in
      let stored = store_batch can_open popped_batch t.search_id session next_sent in
      let step =
        task_done_steps can_open client b s t session v room there known m
          (omega (arith, valid.task_id_u64)) popped in
      let here = known_after can_open client b s t session v room there known in
      let aggregated =
        aggregate_ok can_open client m popped_batch t.search_id session decodes bounded next_sent
          here in
      let completed : complete_task can_open client m t.search_id
            (taken can_open client b s t session v room there known)
          ≡ some (count_chunk t.search_id stored) =
        rw aggregated refl in
      let it : count_chunk t.search_id stored ≡ s' = some_injective (sym (step ∙ completed) ∙ e) in
      subst (Answered b t session s) it (record {
        counted =
            counted_after can_open client m popped_batch t.search_id session decodes bounded
              next_sent;
        others = λ k apart.
            let (sessions, same, kept) = count_chunk_eq t.search_id stored in
            ap (λ r. lookup k r.sessions) same ∙ (kept k apart ∙ stored_others k apart);
        one_less = λ f ignores.
            let (sessions, same, kept) = count_chunk_eq t.search_id stored in
            omega (arith, ap (tally f) same, tally-stored f sessions, one_less_after f ignores);
      })
    where
      tally-stored :
          (f : TaskPayload → ℕ) (m : List (ℕ × SearchSession))
          → let stored = store_batch can_open popped_batch t.search_id session next_sent in
            tally f (with_results m stored.written stored) ≡ tally f stored
      tally-stored f m = unfold tally in refl
