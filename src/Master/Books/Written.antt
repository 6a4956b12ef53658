-- ===== src/Master/Books/Written.antt =====
-- What OnMessage appends to the result files.
use log_grid.Base.{
  Bool, Bool-cases, List, Option-cases, [], ap, arith, if◌then◌else◌, inl, inr, length, length-take,
  ltb, refl, some, take, take-length-take, ℕ, ◌&&◌, ◌++◌, ◌-◌, ◌∙◌, ◌∷◌, ◌≡◌,
}
use log_grid.Base.Assoc.{insert, lookup, lookup-insert_self}
use log_grid.Protocol.{ChunkResult, TaskPayload}
use log_grid.Master.State.{MasterServer, SearchSession, is_some}
use log_grid.Master.Dispatch.{dispatch_next_task, dispatch_pending, park_worker, send_task}
use log_grid.Master.Results.{count_batch, file_text, lines_to_write, store_batch, write_results}
use log_grid.Master.Handlers.{count_chunk, free_slot, without_task}

module _ (can_open : List ℕ → Bool) (session : SearchSession) where
  -- The result files with the lines that there is room for.
  abbrev pub written_after : List (List ℕ) → List (List ℕ × List ℕ) → List (List ℕ × List ℕ)
  written_after lines written =
      let kept = take (session.max_results - session.line_count) lines in
      if ltb 0 (length kept) && can_open session.path
      then written ++ ((session.path, file_text kept) ∷ [])
      else written

-- The lines that are written are those that there is room for.
length-kept :
    (session : SearchSession) (lines : List (List ℕ))
    → lines_to_write session (length lines)
      ≡ length (take (session.max_results - session.line_count) lines)
unfolding lines_to_write
length-kept session lines =
    ground (arith, length-take (session.max_results - session.line_count) lines)

written-write_results :
    (can_open : List ℕ → Bool) (lines : List (List ℕ)) (id : ℕ) (session : SearchSession)
    (s : MasterServer)
    → lookup id s.sessions ≡ some session
    → (write_results can_open lines id s).written ≡ (
        if can_open session.path
        then s.written ++ ((session.path, file_text lines) ∷ [])
        else s.written)
unfolding write_results
written-write_results can_open lines id session s known =
    elim (Bool-cases (can_open session.path)) [
      | inl opens ↦ rw (known, write_results) (rw opens refl)
      | inr closed ↦ rw (known, write_results) (rw closed refl)
    ]

path-count_batch :
    (session : SearchSession) (b : ChunkResult) → (count_batch session b).path ≡ session.path
unfolding count_batch
path-count_batch session b = refl

pub written-store_batch :
    (can_open : List ℕ → Bool) (b : ChunkResult) (id : ℕ) (session : SearchSession)
    (s : MasterServer)
    → (store_batch can_open b id session s).written
      ≡ written_after can_open session b.lines s.written
written-store_batch can_open b id session s =
    let kept = take (session.max_results - session.line_count) b.lines in
    let counted = record s { sessions = insert id (count_batch session b) s.sessions } in
    let written_to : List ℕ → List (List ℕ) → List (List ℕ × List ℕ) =
      λ path l. if can_open path then s.written ++ ((path, file_text l) ∷ []) else s.written in
    elim (Bool-cases (ltb 0 (length kept))) [
      | inl more ↦
          rw (length-kept session b.lines, more)
            (written-write_results can_open (take (length kept) b.lines) id (count_batch session b)
                counted (lookup-insert_self id (count_batch session b) s.sessions)
              ∙ (ap (λ path. written_to path (take (length kept) b.lines))
                    (path-count_batch session b)
                  ∙ ap (written_to session.path)
                      (take-length-take (session.max_results - session.line_count) b.lines)))
      | inr no_more ↦ rw (length-kept session b.lines, no_more) refl
    ]

pub written-count_chunk : (id : ℕ) (s : MasterServer) → (count_chunk id s).written ≡ s.written
unfolding count_chunk
written-count_chunk id s = elim (Option-cases (lookup id s.sessions)) [
  | inl unknown ↦ rw (unknown, count_chunk) refl
  | inr (session, known) ↦ rw (known, count_chunk) refl
]

written-dispatch_pending :
    (client : ℕ) (tasks : List TaskPayload) (s : MasterServer)
    → (dispatch_pending client tasks s).1.written ≡ s.written
unfolding send_task park_worker
written-dispatch_pending client [] s = ground arith
written-dispatch_pending client (t ∷ ts) s = refl

pub written-dispatch_next_task :
    (client : ℕ) (s : MasterServer) → (dispatch_next_task client s).1.written ≡ s.written
unfolding dispatch_next_task
written-dispatch_next_task client s =
    elim (Bool-cases (is_some (lookup client s.workers_free_slots))) [
      | inl known ↦ rw known (written-dispatch_pending client s.pending_tasks s)
      | inr unknown ↦ rw unknown refl
    ]

pub written-without_task :
    (client task_id : ℕ) (left : List (ℕ × TaskPayload)) (s : MasterServer)
    → (free_slot client (without_task client task_id left s)).written ≡ s.written
unfolding free_slot
written-without_task client task_id [] s = refl
written-without_task client task_id (t ∷ ts) s = refl
