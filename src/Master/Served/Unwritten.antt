-- ===== src/Master/Served/Unwritten.antt =====
-- The calls that leave the sessions and the result files as they are.
use log_grid.Base.Assoc.{lookup}
use log_grid.Net.Message.{Message, pull}
use log_grid.Net.Bytes.{from_le}
use log_grid.Protocol.{LogSearchMsg, TaskPayload, from_code, worker_hello, worker_task_done}
use log_grid.Master.State.{MasterServer, is_some}
use log_grid.Master.Dispatch.{
  assign_idle_workers, assign_loop, assign_turn, dispatch_next_task, dispatch_pending,
  dispatch_up_to, park_worker, send_task, take_worker, wake_worker,
}
use log_grid.Master.Handlers.{
  on_client_disconnect, on_hello, on_message, reclaim_tasks, register_worker, switch,
}
use log_grid.Master.Books.Messages.{Holds, Holds-some}
use log_grid.Base.{
  Bool, Bool-cases, List, Option, Option-cases, [], inl, inr, length, none, refl, some, suc, zero,
  ℕ, ◌∙◌, ◌∷◌, ◌≡◌,
}

pub record KeepsFiles (from s : MasterServer) : Type 0 where
  pub same_sessions : s.sessions ≡ from.sessions
  pub same_written : s.written ≡ from.written

abbrev pub same_files : {s : MasterServer} → KeepsFiles s s
same_files = record { same_sessions = refl; same_written = refl }

pub KeepsFiles-trans :
    {from between s : MasterServer}
    → KeepsFiles from between
    → KeepsFiles between s
    → KeepsFiles from s
KeepsFiles-trans v w = record {
  same_sessions = w.same_sessions ∙ v.same_sessions;
  same_written = w.same_written ∙ v.same_written;
}

park_worker-KeepsFiles : (client : ℕ) (s : MasterServer) → KeepsFiles s (park_worker client s)
unfolding park_worker
park_worker-KeepsFiles client s = elim (Bool-cases (is_some (lookup client s.idle_workers_ids))) [
  | inl parked ↦ rw parked same_files
  | inr new ↦ rw new (record { same_sessions = refl; same_written = refl })
]

dispatch_pending-KeepsFiles :
    (client : ℕ) (tasks : List TaskPayload) (s : MasterServer)
    → KeepsFiles s (dispatch_pending client tasks s).1
unfolding send_task
dispatch_pending-KeepsFiles client [] s = park_worker-KeepsFiles client s
dispatch_pending-KeepsFiles client (t ∷ ts) s = record { same_sessions = refl; same_written = refl }

dispatch_next_task-KeepsFiles :
    (client : ℕ) (s : MasterServer) → KeepsFiles s (dispatch_next_task client s).1
unfolding dispatch_next_task
dispatch_next_task-KeepsFiles client s =
    elim (Bool-cases (is_some (lookup client s.workers_free_slots))) [
      | inl known ↦ rw known (dispatch_pending-KeepsFiles client s.pending_tasks s)
      | inr unknown ↦ rw unknown same_files
    ]

dispatch_up_to-KeepsFiles :
    (n client : ℕ) (s : MasterServer) → KeepsFiles s (dispatch_up_to n client s)
unfolding dispatch_up_to
dispatch_up_to-KeepsFiles zero client s = same_files
dispatch_up_to-KeepsFiles (suc n) client s =
    let once = dispatch_next_task-KeepsFiles client s in
    elim (Bool-cases (dispatch_next_task client s).0) [
      | inl more ↦ rw more (KeepsFiles-trans once (dispatch_up_to-KeepsFiles n client _))
      | inr no_more ↦ rw no_more once
    ]

wake_worker-KeepsFiles :
    (worker : ℕ) (others : List ℕ) (s : MasterServer) → KeepsFiles s (wake_worker worker others s)
unfolding wake_worker
wake_worker-KeepsFiles worker others s = elim (Option-cases (lookup worker s.workers_free_slots)) [
  | inl gone ↦ rw (gone, wake_worker) (record { same_sessions = refl; same_written = refl })
  | inr (n, known) ↦
      rw (known, wake_worker)
        (KeepsFiles-trans (record { same_sessions = refl; same_written = refl })
          (dispatch_up_to-KeepsFiles n worker (take_worker worker others (some n) s)))
]

assign_turn-KeepsFiles :
    (fuel : ℕ) (workers : List ℕ) (tasks : List TaskPayload) (s : MasterServer)
    → ((from : MasterServer) → KeepsFiles from (assign_loop fuel from))
    → KeepsFiles s (assign_turn (assign_loop fuel) workers tasks s)
assign_turn-KeepsFiles fuel [] tasks s next = same_files
assign_turn-KeepsFiles fuel (w ∷ ws) [] s next = same_files
assign_turn-KeepsFiles fuel (w ∷ ws) (t ∷ ts) s next =
    KeepsFiles-trans (wake_worker-KeepsFiles w ws s) (next _)

assign_loop-KeepsFiles : (fuel : ℕ) (s : MasterServer) → KeepsFiles s (assign_loop fuel s)
unfolding assign_loop
assign_loop-KeepsFiles zero s = same_files
assign_loop-KeepsFiles (suc fuel) s =
    assign_turn-KeepsFiles fuel s.idle_workers s.pending_tasks s (assign_loop-KeepsFiles fuel)

pub assign_idle_workers-KeepsFiles : (s : MasterServer) → KeepsFiles s (assign_idle_workers s)
unfolding assign_idle_workers
assign_idle_workers-KeepsFiles s = assign_loop-KeepsFiles (suc (length s.idle_workers)) s

module _ (walk : List (ℕ × TaskPayload) → List (ℕ × TaskPayload)) where
  reclaim_tasks-KeepsFiles :
      (client : ℕ) (s : MasterServer) → KeepsFiles s (reclaim_tasks walk client s)
  unfolding reclaim_tasks
  reclaim_tasks-KeepsFiles client s = elim (Option-cases (lookup client s.in_flight_tasks)) [
    | inl idle ↦ rw (idle, reclaim_tasks) (record { same_sessions = refl; same_written = refl })
    | inr (tasks, busy) ↦
        rw (busy, reclaim_tasks) (record { same_sessions = refl; same_written = refl })
  ]

  pub on_client_disconnect-KeepsFiles :
      (client : ℕ) (s : MasterServer) → KeepsFiles s (on_client_disconnect walk client s)
  unfolding on_client_disconnect
  on_client_disconnect-KeepsFiles client s =
      KeepsFiles-trans (reclaim_tasks-KeepsFiles client s) (assign_idle_workers-KeepsFiles _)

on_hello-KeepsFiles :
    (client : ℕ) (msg : Message) (s : MasterServer) → KeepsFiles s (on_hello client msg s)
unfolding on_hello register_worker
on_hello-KeepsFiles client msg s = elim (Option-cases (pull 8 msg)) [
  | inl short ↦ rw (short, on_hello) same_files
  | inr ((raw, rest), popped) ↦
      rw (popped, on_hello)
        (KeepsFiles-trans (record { same_sessions = refl; same_written = refl })
          (dispatch_up_to-KeepsFiles (from_le raw) client (register_worker client (from_le raw) s)))
]

-- A message that is no answer to a task.
pub on_message-KeepsFiles :
    (can_open : List ℕ → Bool) (client : ℕ) (msg : Message) (s s' : MasterServer)
    → ¬ (from_code msg.id ≡ some worker_task_done)
    → on_message can_open client msg s ≡ some s'
    → KeepsFiles s s'
unfolding on_message
on_message-KeepsFiles can_open client msg s s' other_kind =
    Holds-some (KeepsFiles s) _ (go (from_code msg.id) refl)
  where
    go :
        (kind : Option LogSearchMsg)
        → from_code msg.id ≡ kind
        → Holds (KeepsFiles s) (switch can_open client msg kind s)
    go none e = same_files
    go (some worker_hello) e = on_hello-KeepsFiles client msg s
    go (some worker_task_done) e = absurd (other_kind e)
    go (some _) e = same_files
