-- ===== src/Master/Served/Keeping.antt =====
-- What OnMessage keeps: a property that does not look at results is kept by the whole handler if it is
-- kept when a worker says hello and when one task is taken off and the next one sent.
use log_grid.Base.{Bool, List, Option, Option-cases, inl, inr, none, refl, some, subst, sym, ℕ, ◌≡◌}
use log_grid.Base.Assoc.{insert, lookup, remove}
use log_grid.Net.Bytes.{from_le}
use log_grid.Net.Message.{Message, pull}
use log_grid.Protocol.{
  ChunkResult, LogSearchMsg, TaskPayload, from_code, worker_hello, worker_task_done,
}
use log_grid.Protocol.Batch.{Outcome, deserialize_batch, ok, out_of_bounds, throws, ◌>>=◌}
use log_grid.Master.State.{MasterServer, SearchSession}
use log_grid.Master.Dispatch.{dispatch_next_task, tasks_of}
use log_grid.Master.Results.{aggregate_task_result, count_batch, store_if_known}
use log_grid.Master.Handlers.{
  after_finish, after_pop, caught, complete_task, count_chunk, finish_task, free_slot, on_hello,
  on_message, on_task_done, switch, without_task,
}
use log_grid.Master.Books.Messages.{Holds, Holds-map, Holds-some}
use log_grid.Master.Served.Answered.{count_chunk_eq, store_batch_eq, with_results}

module _ (P : MasterServer → Type 0)
    (ignores_results : (m : List (ℕ × SearchSession)) (w : List (List ℕ × List ℕ))
        (s : MasterServer)
      → P s
      → P (with_results m w s))
    (can_open : List ℕ → Bool) where
  aggregate-keeps :
      (msg : Message) (id : ℕ) (s : MasterServer)
      → P s
      → Holds P (caught s (aggregate_task_result can_open msg id s))
  unfolding aggregate_task_result
  aggregate-keeps msg id s v = go (deserialize_batch msg)
    where
      stored :
          (batch : ChunkResult) (session : Option SearchSession)
          → Holds P (caught s (store_if_known can_open batch id session s))
      stored batch none = unfold caught in v
      stored batch (some session) =
          let (w, same) = store_batch_eq can_open batch id session s in
          unfold caught in
          subst P (sym same)
            (ignores_results (insert id (count_batch session batch) s.sessions) w s v)

      go :
          (o : Outcome ChunkResult)
          → Holds P
              (caught s (o >>= λ batch. store_if_known can_open batch id (lookup id s.sessions) s))
      go (ok batch) = stored batch (lookup id s.sessions)
      go throws = unfold caught in v
      go out_of_bounds = unfold caught in tt

  count_chunk-keeps : (id : ℕ) (s : MasterServer) → P s → P (count_chunk id s)
  count_chunk-keeps id s v =
      let (m, same, kept) = count_chunk_eq id s in
      subst P (sym same) (ignores_results m s.written s v)

  complete_task-keeps :
      (client : ℕ) (msg : Message) (id : ℕ) (s : MasterServer)
      → P (dispatch_next_task client s).1
      → Holds P (complete_task can_open client msg id s)
  unfolding complete_task
  complete_task-keeps client msg id s v =
      Holds-map P P (count_chunk id) _ (count_chunk-keeps id)
        (aggregate-keeps msg id (dispatch_next_task client s).1 v)

  module _ (client : ℕ) (s : MasterServer) (v : P s)
      (finishes : (task_id : ℕ) (t : TaskPayload)
        → lookup task_id (tasks_of client s) ≡ some t
        → P
            (dispatch_next_task client (
              free_slot client
                (without_task client task_id (remove task_id (tasks_of client s)) s))).1) where
    finish_task-keeps :
        (msg : Message) (task_id : ℕ)
        → Holds P (after_finish can_open client msg (finish_task client task_id s) s)
    unfolding finish_task
    finish_task-keeps msg task_id = elim (Option-cases (lookup task_id (tasks_of client s))) [
      | inl unknown ↦ rw (unknown, finish_task) v
      | inr (t, there) ↦
          rw (there, finish_task)
            (complete_task-keeps client msg t.search_id _ (finishes task_id t there))
    ]

    on_task_done-keeps : (msg : Message) → Holds P (on_task_done can_open client msg s)
    unfolding on_task_done
    on_task_done-keeps msg = go (pull 8 msg)
      where
        go : (o : Option (List ℕ × Message)) → Holds P (after_pop can_open client o s)
        go none = v
        go (some (raw, rest)) = finish_task-keeps rest (from_le raw)

    pub on_message-keeps :
        (msg : Message) (s' : MasterServer)
        → (from_code msg.id ≡ some worker_hello → P (on_hello client msg s))
        → on_message can_open client msg s ≡ some s'
        → P s'
    unfolding on_message
    on_message-keeps msg s' hello = Holds-some P _ (go (from_code msg.id) refl)
      where
        go :
            (kind : Option LogSearchMsg)
            → from_code msg.id ≡ kind
            → Holds P (switch can_open client msg kind s)
        go none e = v
        go (some worker_hello) e = hello e
        go (some worker_task_done) e = on_task_done-keeps msg
        go (some _) e = v
