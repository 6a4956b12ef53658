-- ===== src/Master/Dispatch/Sending.antt =====
-- What a run of DispatchNextTask for one worker sends: a task for every free slot.
use mathlib.Core.List.{append-nil, append_assoc}
use log_grid.Master.Dispatch.Roster.{send_task-slots}
use log_grid.Base.Assoc.{lookup}
use log_grid.Protocol.{TaskPayload}
use log_grid.Net.Message.{Message}
use log_grid.Master.State.{MasterServer, is_some}
use log_grid.Master.Dispatch.{
  dispatch_next_task, dispatch_pending, dispatch_up_to, park_worker, send_task, task_message,
}
use log_grid.Base.{
  Bool-cases, List, [], ap, arith, drop, if◌then◌else◌, inl, inr, length, refl, some, suc, sym,
  take, zero, ℕ, ◌%◌, ◌++◌, ◌+◌, ◌-◌, ◌<◌, ◌^◌, ◌∙◌, ◌∷◌, ◌≡◌,
}

-- The messages with these tasks, with ids from the next one on.
abbrev pub messages_for : ℕ → ℕ → List TaskPayload → List (ℕ × Message)
messages_for client last_id [] = []
messages_for client last_id (task ∷ tasks) =
    let id = (last_id + 1) % 2 ^ 64 in
    (client, task_message (record task { task_id = id })) ∷ messages_for client id tasks

-- A worker with `n` free slots has been sent what waited, up to `n` tasks.
pub record Filled (n client : ℕ) (s s' : MasterServer) : Type 0 where
  pub rest_waits : s'.pending_tasks ≡ drop n s.pending_tasks
  pub slots_left : lookup client s'.workers_free_slots ≡ some (n - length s.pending_tasks)
  pub was_sent : s'.sent ≡ s.sent ++ messages_for client s.next_task_id (take n s.pending_tasks)

take-nil {ℓ} : {A : Type ℓ} → (n : ℕ) → take {A = A} n [] ≡ []
take-nil zero = refl
take-nil (suc n) = refl

drop-nil {ℓ} : {A : Type ℓ} → (n : ℕ) → drop {A = A} n [] ≡ []
drop-nil zero = refl
drop-nil (suc n) = refl

-- Parking leaves the tasks, the slots and what was sent.
park_worker_same :
    (client : ℕ) (s : MasterServer)
    → ((park_worker client s).pending_tasks ≡ s.pending_tasks)
      × ((park_worker client s).workers_free_slots ≡ s.workers_free_slots)
      × ((park_worker client s).sent ≡ s.sent)
unfolding park_worker
park_worker_same client s = elim (Bool-cases (is_some (lookup client s.idle_workers_ids))) [
  | inl parked ↦ rw parked (refl, refl, refl)
  | inr new ↦ rw new (refl, refl, refl)
]

parked-Filled :
    (n client : ℕ) (s : MasterServer)
    → lookup client s.workers_free_slots ≡ some n
    → s.pending_tasks ≡ []
    → Filled n client s (park_worker client s)
parked-Filled n client s known none_wait =
    let (same_tasks, same_slots, same_sent) = park_worker_same client s in
    record {
      rest_waits = same_tasks ∙ (none_wait ∙ (sym (drop-nil n) ∙ ap (drop n) (sym none_wait)));
      slots_left =
          ap (lookup client) same_slots ∙ (known ∙ ap some (omega (arith, ap length none_wait)));
      was_sent =
          same_sent
          ∙ (sym (append-nil s.sent)
              ∙ ap (λ ts. s.sent ++ messages_for client s.next_task_id ts)
                  (sym (ap (take n) none_wait ∙ take-nil n)));
    }

-- With a slot free for each round, DispatchNextTask in a loop sends a task for each slot while there are
-- any.
pub dispatch_up_to-Filled :
    (n client : ℕ) (s : MasterServer)
    → n < 2 ^ 64
    → lookup client s.workers_free_slots ≡ some n
    → Filled n client s (dispatch_up_to n client s)
unfolding dispatch_up_to dispatch_next_task send_task
dispatch_up_to-Filled zero client s small known = record {
  rest_waits = refl;
  slots_left = known ∙ ap some (omega arith);
  was_sent = sym (append-nil s.sent);
}
dispatch_up_to-Filled (suc n) client s small known =
    rw known (sends (dispatch_up_to-Filled n client) s.pending_tasks refl)
  where
    sends :
        ((from : MasterServer)
          → n < 2 ^ 64
          → lookup client from.workers_free_slots ≡ some n
          → Filled n client from (dispatch_up_to n client from))
        → (tasks : List TaskPayload) → s.pending_tasks ≡ tasks
        → Filled (suc n) client s (
            if (dispatch_pending client tasks s).0
            then dispatch_up_to n client (dispatch_pending client tasks s).1
            else (dispatch_pending client tasks s).1)
    sends again [] e = parked-Filled (suc n) client s known e
    sends again (t ∷ ts) e =
        let left : (suc n + 2 ^ 64 - 1) % 2 ^ 64 ≡ n = omega (arith, small) in
        let v =
          again (send_task client t ts s) (omega (arith, small))
            (send_task-slots client t ts s (suc n) known ∙ ap some left) in
        record {
          rest_waits = v.rest_waits ∙ ap (drop (suc n)) (sym e);
          slots_left = v.slots_left ∙ ap some (omega (arith, ap length e));
          was_sent =
              v.was_sent
              ∙ (append_assoc s.sent _ _
                  ∙ ap (λ tasks. s.sent ++ messages_for client s.next_task_id (take (suc n) tasks))
                      (sym e));
        }
