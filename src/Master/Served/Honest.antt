-- ===== src/Master/Served/Honest.antt =====
-- What the messages of workers do to the tasks and the sessions, if each answer to a task holds what
-- the task has to bring.
use log_grid.Base.{Bool, List, Option, Option-cases, inl, inr, length, none, refl, some, ℕ, ◌≡◌}
use log_grid.Base.Assoc.{lookup}
use log_grid.Net.Message.{Message, pull}
use log_grid.Net.Bytes.{from_le, from_le-le}
use log_grid.Protocol.{
  ChunkResult, LogSearchMsg, TaskPayload, code, from_code, worker_hello, worker_task_done,
}
use log_grid.Protocol.Batch.{IsBatch, deserialize_batch-task_done_message, task_done_message}
use log_grid.Master.State.{MasterServer}
use log_grid.Master.Dispatch.{tasks_of}
use log_grid.Master.Dispatch.Tally.{Sound, dispatch_up_to-Sound, tally}
use log_grid.Master.Handlers.{
  finish_task, on_hello, on_message, on_task_done, register_worker, switch,
}
use log_grid.Master.Books.Messages.{Holds, Holds-some}

module _ (matches lines : TaskPayload → ℕ) where
  -- The batch holds what the task brings that the worker has under the id of the batch, if it has one.
  abbrev pub IsAnswer : ℕ → ChunkResult → MasterServer → Type 0
  IsAnswer client b s =
      (t : TaskPayload)
      → lookup b.task_id (tasks_of client s) ≡ some t
      → (b.total_matches ≡ matches t) × (length b.lines ≡ lines t)

  -- A worker sends well-formed batches, for its tasks and for those that it does not have any more, and
  -- arbitrary messages of all other kinds. A batch that cannot be decoded is left out.
  pub data IsHonest (client : ℕ) (msg : Message) (s : MasterServer) : Type 0 where
    gives_other : ¬ (from_code msg.id ≡ some worker_task_done) → IsHonest client msg s
    gives_answer :
        (b : ChunkResult)
        → IsBatch b
        → msg ≡ task_done_message b
        → IsAnswer client b s
        → IsHonest client msg s

pub register_worker-Sound :
    (client threads : ℕ) (s : MasterServer) → Sound s s → Sound s (register_worker client threads s)
unfolding register_worker tally
register_worker-Sound client threads s v = record {
  distinct = v.distinct;
  fresh = v.fresh;
  room = v.room;
  same_sessions = refl;
  same_next = refl;
  same_tasks = λ f ignores. refl;
}

on_hello-Sound :
    (client : ℕ) (msg : Message) (s : MasterServer) → Sound s s → Sound s (on_hello client msg s)
unfolding on_hello
on_hello-Sound client msg s v = elim (Option-cases (pull 8 msg)) [
  | inl short ↦ rw (short, on_hello) v
  | inr ((raw, rest), popped) ↦
      rw (popped, on_hello)
        (dispatch_up_to-Sound (from_le raw) client _
          (register_worker-Sound client (from_le raw) s v))
]

module _ (can_open : List ℕ → Bool) (client : ℕ) where
  -- A message that is no answer to a task leaves the tasks and the sessions as they are.
  pub on_message-Sound :
      (msg : Message) (s s' : MasterServer)
      → Sound s s
      → ¬ (from_code msg.id ≡ some worker_task_done)
      → on_message can_open client msg s ≡ some s'
      → Sound s s'
  unfolding on_message
  on_message-Sound msg s s' v other_kind = Holds-some (Sound s) _ (go (from_code msg.id) refl)
    where
      go :
          (kind : Option LogSearchMsg)
          → from_code msg.id ≡ kind
          → Holds (Sound s) (switch can_open client msg kind s)
      go none e = v
      go (some worker_hello) e = on_hello-Sound client msg s v
      go (some worker_task_done) e = absurd (other_kind e)
      go (some _) e = v

  -- An answer to a task that the worker does not have is dropped.
  pub on_message_unknown :
      (b : ChunkResult) (s : MasterServer)
      → IsBatch b
      → lookup b.task_id (tasks_of client s) ≡ none
      → on_message can_open client (task_done_message b) s ≡ some s
  unfolding on_message on_task_done from_code code task_done_message finish_task
  on_message_unknown b s valid unknown =
      let (m, popped, decodes) = deserialize_batch-task_done_message b valid in
      rw (popped, from_le-le 8 b.task_id valid.task_id_u64) (rw (unknown, finish_task) refl)
