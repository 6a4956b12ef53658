-- ===== src/Master/Served/Appended.antt =====
-- The result files of the searches in the work of the master.
use mathlib.Core.Option.{some-ne-none}
use mathlib.Core.List.{Perm}
use log_grid.Base.Assoc.{lookup}
use log_grid.Net.Message.{Message}
use log_grid.Protocol.{ChunkResult, TaskPayload}
use log_grid.Protocol.Batch.{IsBatch, task_done_message}
use log_grid.Master.State.{MasterServer, init}
use log_grid.Master.Dispatch.{tasks_of}
use log_grid.Master.Handlers.{on_message}
use log_grid.Master.Start.{Environment}
use log_grid.Master.Accounting.{Inv}
use log_grid.Master.Promises.{Untouched}
use log_grid.Master.Promises.Searches.{start_search-Promise}
use log_grid.Master.Books.Completion.{on_message-task_done_message}
use log_grid.Master.Served.{
  Published, Served, begins, loses_worker, refuses, searches, takes_message,
}
use log_grid.Master.Served.Answered.{on_message-Answered}
use log_grid.Master.Served.Honest.{IsHonest, gives_answer, gives_other, on_message_unknown}
use log_grid.Master.Served.Kept.{Served-Inv, task_there-known}
use log_grid.Master.Served.Unwritten.{
  KeepsFiles, on_client_disconnect-KeepsFiles, on_message-KeepsFiles,
}
use log_grid.Master.Served.Texts.{text_at}
use log_grid.Master.Served.Filed.{Filed, KeepsFiles-Filed, Started-Filed, UniquePaths, batch-Filed}
use log_grid.Base.{
  Bool, List, Option-cases, ap, inl, inr, length, none, refl, some, some_injective, subst, sym, ℕ,
  ◌+◌, ◌<◌, ◌^◌, ◌∙◌, ◌≡◌,
}

module _ (env : Environment) (can_open : List ℕ → Bool) (unique : UniquePaths env) where
  -- A batch for a task that the worker has, and one for a task that it does not have.
  batch_message-Filed :
      (client : ℕ) (b : ChunkResult) (s s' : MasterServer)
      → IsBatch b
      → Inv s
      → s.next_task_id + length s.pending_tasks < 2 ^ 64
      → on_message can_open client (task_done_message b) s ≡ some s'
      → Filed env can_open s
      → Filed env can_open s'
  batch_message-Filed client b s s' valid v room e filed =
      elim (Option-cases (lookup b.task_id (tasks_of client s))) [
        | inl unknown ↦
            let same =
              some_injective (sym (on_message_unknown can_open client b s valid unknown) ∙ e) in
            subst (Filed env can_open) same filed
        | inr (t, there) ↦
            let (session, known) = task_there-known client b.task_id s t v there in
            let bounded = (filed.known_ones t.search_id session known).bounded in
            let (after, runs, counted, written) =
              on_message-task_done_message can_open client b s t session v room there known valid
                bounded in
            let answered =
              on_message-Answered can_open client b s t session v room there known after valid
                bounded runs in
            subst (Filed env can_open) (some_injective (sym runs ∙ e)) (
              batch-Filed env can_open unique t.search_id session b s after known counted
                answered.others written filed)
      ]

  message-Filed :
      (matches lines : TaskPayload → ℕ) (client : ℕ) (msg : Message) (s s' : MasterServer)
      → IsHonest matches lines client msg s
      → Inv s
      → s.next_task_id + length s.pending_tasks < 2 ^ 64
      → on_message can_open client msg s ≡ some s'
      → Filed env can_open s
      → Filed env can_open s'
  message-Filed matches lines client msg s s' (gives_other other_kind) v room e filed =
      KeepsFiles-Filed env can_open s s'
        (on_message-KeepsFiles can_open client msg s s' other_kind e) filed
  message-Filed matches lines client msg s s' (gives_answer b valid same honest) v room e filed =
      batch_message-Filed client b s s' valid v room
        (ap (λ m. on_message can_open client m s) (sym same) ∙ e) filed

  Untouched-KeepsFiles : (s s' : MasterServer) → Untouched s s' → KeepsFiles s s'
  Untouched-KeepsFiles s s' (inl e) = record {
    same_sessions = ap (λ r. r.sessions) e;
    same_written = ap (λ r. r.written) e;
  }
  Untouched-KeepsFiles s s' (inr e) = record {
    same_sessions = ap (λ r. r.sessions) e;
    same_written = ap (λ r. r.written) e;
  }

  init-Filed : Filed env can_open init
  unfolding text_at
  init-Filed = record {
    known_ones = λ k session e. absurd (some-ne-none session (sym e));
    unknown_ones = λ k path made e. refl;
  }

  module _ (walk : List (ℕ × TaskPayload) → List (ℕ × TaskPayload))
      (walk-perm : (ts : List (ℕ × TaskPayload)) → Perm (walk ts) ts)
      (matches lines : TaskPayload → ℕ) where
    abbrev Honest : List (ℕ × Published) → MasterServer → Type 0
    Honest = Served can_open walk env (IsHonest matches lines)

    before-Inv : (log : List (ℕ × Published)) (s : MasterServer) → Honest log s → Inv s
    before-Inv = Served-Inv can_open walk walk-perm env (IsHonest matches lines)

    -- The result file of each search that was started holds as many lines as its session has counted.
    pub Served-Filed :
        (log : List (ℕ × Published)) (s : MasterServer) → Honest log s → Filed env can_open s
    Served-Filed log s begins = init-Filed
    Served-Filed log s (takes_message client msg before may room e) =
        message-Filed matches lines client msg _ s may (before-Inv _ _ before) room e
          (Served-Filed _ _ before)
    Served-Filed log s (loses_worker client before room) =
        KeepsFiles-Filed env can_open _ s (on_client_disconnect-KeepsFiles walk client _)
          (Served-Filed _ _ before)
    Served-Filed log s (refuses r before ids e) =
        KeepsFiles-Filed env can_open _ s
          (Untouched-KeepsFiles _ s
            (start_search-Promise env r.fs r.keyword r.config r.depth r.filepath _ none s e))
          (Served-Filed _ _ before)
    Served-Filed log s (searches r id acc before ids room e c) =
        Started-Filed env can_open unique r id _ s (before-Inv _ _ before)
          (start_search-Promise env r.fs r.keyword r.config r.depth r.filepath _ (some id) s e)
          (Served-Filed _ _ before)
