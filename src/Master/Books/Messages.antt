-- ===== src/Master/Books/Messages.antt =====
-- OnMessage and the books.
use mathlib.Core.Option
use log_grid.Base.{
  Bool, Bool-cases, List, Option, Option-cases, arith, inl, inr, length, ltb, none, refl, some,
  subst, take, ℕ, ◌+◌, ◌<◌, ◌^◌, ◌≡◌,
}
use log_grid.Base.Assoc.{lookup}
use log_grid.Net.Message.{Message, pull}
use log_grid.Protocol.{ChunkResult, LogSearchMsg, from_code, worker_hello, worker_task_done}
use log_grid.Protocol.Batch.{Outcome, deserialize_batch, ok, out_of_bounds, throws, ◌>>=◌}
use log_grid.Master.State.{MasterServer, SearchSession}
use log_grid.Master.Dispatch.{dispatch_next_task, tasks_of}
use log_grid.Master.Dispatch.Tally.{dispatch_next_task-Sound, dispatch_up_to-Sound, tally}
use log_grid.Master.Results.{
  aggregate_task_result, count_batch, lines_to_write, store_batch, store_if_known, write_results,
}
use log_grid.Master.Handlers.{
  after_finish, after_pop, caught, complete_task, count_chunk, finish_task, on_hello, on_message,
  on_task_done, register_worker, switch,
}
use log_grid.Master.Accounting.{
  Inv, Inv-Sound, Inv-insert, InvWith, InvWith-late, Sound-Inv, nothing_late, one_late,
}
use log_grid.Master.Books.Finish.{
  Without-InvWith, count_chunk-InvWith, finish_task-some, finished-Without,
}
use log_grid.Net.Bytes.{from_le}

-- Of a call that may end in undefined behaviour: where it does not, its result has the property.
abbrev pub Holds : (MasterServer → Type 0) → Option MasterServer → Type 0
Holds P none = Unit
Holds P (some s) = P s

pub Holds-some :
    (P : MasterServer → Type 0) (o : Option MasterServer) {s : MasterServer}
    → Holds P o
    → o ≡ some s
    → P s
Holds-some P o h e = subst (Holds P) e h

pub Holds-map :
    (P Q : MasterServer → Type 0) (f : MasterServer → MasterServer) (o : Option MasterServer)
    → ((s : MasterServer) → P s → Q (f s))
    → Holds P o
    → Holds Q (Option.map f o)
Holds-map P Q f none k h = tt
Holds-map P Q f (some s) k h = k s h

-- What is written to files is no part of the books.
pub written-InvWith :
    {late : ℕ → ℕ} (w : List (List ℕ × List ℕ)) (s : MasterServer)
    → InvWith late s
    → InvWith late (record s { written = w })
unfolding tally
written-InvWith w s v = record {
  distinct = v.distinct;
  fresh = v.fresh;
  books = record { counted = v.books.counted; published = v.books.published };
  unpublished = v.unpublished;
}

pub register_worker-InvWith :
    {late : ℕ → ℕ} (client threads : ℕ) (s : MasterServer)
    → InvWith late s
    → InvWith late (register_worker client threads s)
unfolding register_worker tally
register_worker-InvWith client threads s v = record {
  distinct = v.distinct;
  fresh = v.fresh;
  books = record { counted = v.books.counted; published = v.books.published };
  unpublished = v.unpublished;
}

module _ (can_open : List ℕ → Bool) {late : ℕ → ℕ} where
  write_results-InvWith :
      (lines : List (List ℕ)) (id : ℕ) (s : MasterServer)
      → InvWith late s
      → InvWith late (write_results can_open lines id s)
  unfolding write_results
  write_results-InvWith lines id s v = elim (Option-cases (lookup id s.sessions)) [
    | inl unknown ↦ rw (unknown, write_results) v
    | inr (session, known) ↦ elim (Bool-cases (can_open session.path)) [
      | inl opens ↦ rw (known, write_results) (rw opens (written-InvWith _ s v))
      | inr closed ↦ rw (known, write_results) (rw closed v)
    ]
  ]

  store_batch-InvWith :
      (batch : ChunkResult) (id : ℕ) (session : SearchSession) (s : MasterServer)
      → lookup id s.sessions ≡ some session
      → InvWith late s
      → InvWith late (store_batch can_open batch id session s)
  unfolding count_batch
  store_batch-InvWith batch id session s known v =
      let counted =
        Inv-insert {late' = late} id session (count_batch session batch) s known
          (λ a. record { sum = a.sum; done_u32 = a.done_u32 }) (λ k apart. refl) v in
      let n = lines_to_write session (length batch.lines) in
      elim (Bool-cases (ltb 0 n)) [
        | inl some_lines ↦ rw some_lines (write_results-InvWith (take n batch.lines) id _ counted)
        | inr no_lines ↦ rw no_lines counted
      ]

  store_if_known-InvWith :
      (batch : ChunkResult) (id : ℕ) (session : Option SearchSession) (s : MasterServer)
      → lookup id s.sessions ≡ session
      → InvWith late s
      → Holds (InvWith late) (caught s (store_if_known can_open batch id session s))
  unfolding caught
  store_if_known-InvWith batch id none s e v = v
  store_if_known-InvWith batch id (some session) s e v = store_batch-InvWith batch id session s e v

  aggregate-InvWith :
      (msg : Message) (id : ℕ) (s : MasterServer)
      → InvWith late s
      → Holds (InvWith late) (caught s (aggregate_task_result can_open msg id s))
  unfolding aggregate_task_result
  aggregate-InvWith msg id s v = go (deserialize_batch msg)
    where
      go :
          (o : Outcome ChunkResult)
          → Holds
              (InvWith late)
              (caught s (o >>= λ batch. store_if_known can_open batch id (lookup id s.sessions) s))
      go (ok batch) = store_if_known-InvWith batch id (lookup id s.sessions) s refl v
      go throws = unfold caught in v
      go out_of_bounds = unfold caught in tt

module _ (can_open : List ℕ → Bool) where
  complete_task-Inv :
      (client : ℕ) (msg : Message) (id : ℕ) (s : MasterServer)
      → s.next_task_id + length s.pending_tasks < 2 ^ 64
      → InvWith (one_late id) s
      → Holds Inv (complete_task can_open client msg id s)
  unfolding complete_task
  complete_task-Inv client msg id s room v =
      let s' = (dispatch_next_task client s).1 in
      Holds-map (InvWith (one_late id)) Inv (count_chunk id) _
        (λ s'.
          count_chunk-InvWith {late = one_late id} {late' = nothing_late} id s' (λ k. omega arith))
        (aggregate-InvWith can_open msg id s'
          (Sound-Inv (dispatch_next_task-Sound client s (Inv-Sound room v)) v))

  module _ (client : ℕ) (s : MasterServer) (room : s.next_task_id + length s.pending_tasks < 2 ^ 64)
      (v : Inv s) where
    on_hello-Inv : (msg : Message) → Inv (on_hello client msg s)
    unfolding on_hello
    on_hello-Inv msg = elim (Option-cases (pull 8 msg)) [
      | inl short ↦ rw (short, on_hello) v
      | inr ((raw, rest), popped) ↦
          let registered = register_worker-InvWith client (from_le raw) s v in
          rw (popped, on_hello)
            (Sound-Inv
              (dispatch_up_to-Sound (from_le raw) client _
                (Inv-Sound (unfold register_worker in room) registered))
              registered)
    ]

    finish_task-none :
        (task_id : ℕ)
        → lookup task_id (tasks_of client s) ≡ none
        → finish_task client task_id s ≡ none
    unfolding finish_task
    finish_task-none task_id unknown = rw (unknown, finish_task) refl

    after_finish-Inv :
        (msg : Message) (task_id : ℕ)
        → Holds Inv (after_finish can_open client msg (finish_task client task_id s) s)
    after_finish-Inv msg task_id = elim (Option-cases (lookup task_id (tasks_of client s))) [
      | inl unknown ↦ rw (finish_task-none task_id unknown) v
      | inr (t, there) ↦
          let w = finished-Without client task_id s t v.distinct v.fresh there in
          rw (finish_task-some client task_id s t v.distinct v.fresh there) (
            complete_task-Inv client msg t.search_id _ (omega (arith, w.same_room))
              (InvWith-late (λ k. omega arith) (Without-InvWith w v)))
    ]

    on_task_done-Inv : (msg : Message) → Holds Inv (on_task_done can_open client msg s)
    unfolding on_task_done
    on_task_done-Inv msg = go (pull 8 msg)
      where
        go : (o : Option (List ℕ × Message)) → Holds Inv (after_pop can_open client o s)
        go none = v
        go (some (raw, rest)) = after_finish-Inv rest (from_le raw)

    -- Every message of a worker, of any content, keeps the books: from a state with its books in
    -- order, where OnMessage returns, each search again has its chunks waiting, in flight or
    -- counted as done, if there are task ids left for the tasks that wait.
    pub on_message-Inv :
        (msg : Message) (s' : MasterServer) → on_message can_open client msg s ≡ some s' → Inv s'
    unfolding on_message
    on_message-Inv msg s' = Holds-some Inv _ (go (from_code msg.id))
      where
        go : (kind : Option LogSearchMsg) → Holds Inv (switch can_open client msg kind s)
        go none = v
        go (some worker_hello) = on_hello-Inv msg
        go (some worker_task_done) = on_task_done-Inv msg
        go (some _) = v
