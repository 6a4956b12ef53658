-- ===== src/Master/Dispatch/Roster.antt =====
-- The free slots of the workers and the queue of idle workers, under dispatching.
use native.Mathlib.Decide.{ℕ_discrete}
use log_grid.Base.{
  Bool-cases, List, [], ap, arith, if◌then◌else◌, inl, inr, refl, some, some_injective, subst, suc,
  sum_by, sum_by-append, sym, true, zero, ℕ, ◌%◌, ◌+◌, ◌-◌, ◌<◌, ◌==◌, ◌^◌, ◌∙◌, ◌∷◌, ◌≡◌, ◌≢◌,
}
use log_grid.Base.Assoc.{
  Distinct, Distinct-insert, lookup, lookup-insert, lookup-insert_ne, lookup-insert_self,
}
use log_grid.Protocol.{TaskPayload}
use log_grid.Master.State.{MasterServer, get_or, is_some}
use log_grid.Master.Dispatch.{
  dispatch_next_task, dispatch_pending, dispatch_up_to, park_worker, send_task,
}

-- How often a worker is in the queue.
abbrev pub times : ℕ → List ℕ → ℕ
times w queue = sum_by (λ q. if q == w then 1 else 0) queue

abbrev pub IsIdle : ℕ → MasterServer → Type 0
IsIdle w s = is_some (lookup w s.idle_workers_ids) ≡ true

-- Workers that are in the set of idle workers are in the queue and registered.
pub record Roster (s : MasterServer) : Type 0 where
  pub queued : (w : ℕ) → IsIdle w s → 0 < times w s.idle_workers
  pub registered : (w : ℕ) → IsIdle w s → is_some (lookup w s.workers_free_slots) ≡ true
  pub slots_u64 : (w n : ℕ) → lookup w s.workers_free_slots ≡ some n → n < 2 ^ 64
  pub distinct_slots : Distinct s.workers_free_slots
  pub distinct_ids : Distinct s.idle_workers_ids

-- A worker with a free slot is in the set of idle workers.
abbrev pub RestsIfFree : MasterServer → ℕ → Type 0
RestsIfFree s w = (n : ℕ) → lookup w s.workers_free_slots ≡ some n → 0 < n → IsIdle w s

-- All workers but one rest if they are free.
abbrev pub OthersRest : ℕ → MasterServer → Type 0
OthersRest client s = (w : ℕ) → client ≢ w → RestsIfFree s w

abbrev pub AllRest : MasterServer → Type 0
AllRest s = (w : ℕ) → RestsIfFree s w

module _ (client : ℕ) (front : TaskPayload) (rest : List TaskPayload) (s : MasterServer) where
  send_task-Roster : Roster s → Roster (send_task client front rest s)
  unfolding send_task
  send_task-Roster v =
      let slots = get_or (lookup client s.workers_free_slots) 0 in
      let now = (slots + 2 ^ 64 - 1) % 2 ^ 64 in
      record {
        queued = v.queued;
        registered = λ w idle.
            ground (arith, lookup-insert client w now s.workers_free_slots, v.registered w idle);
        slots_u64 = λ w n e.
            ground (arith, lookup-insert client w now s.workers_free_slots, v.slots_u64 w n);
        distinct_slots = Distinct-insert client now s.workers_free_slots v.distinct_slots;
        distinct_ids = v.distinct_ids;
      }

  send_task-OthersRest : OthersRest client s → OthersRest client (send_task client front rest s)
  unfolding send_task
  send_task-OthersRest others w apart n e free =
      others w apart n (sym (lookup-insert_ne client w _ s.workers_free_slots apart) ∙ e) free

  pub send_task-slots :
      (n : ℕ)
      → lookup client s.workers_free_slots ≡ some n
      → lookup client (send_task client front rest s).workers_free_slots
        ≡ some ((n + 2 ^ 64 - 1) % 2 ^ 64)
  unfolding send_task
  send_task-slots n e = rw e (lookup-insert_self client _ s.workers_free_slots)

module _ (client : ℕ) (s : MasterServer) where
  park_worker-Roster :
      is_some (lookup client s.workers_free_slots) ≡ true → Roster s → Roster (park_worker client s)
  unfolding park_worker
  park_worker-Roster known v = elim (Bool-cases (is_some (lookup client s.idle_workers_ids))) [
    | inl parked ↦ rw parked v
    | inr new ↦ rw new (record {
      queued = λ w idle.
          let longer = sum_by-append (λ q. if q == w then 1 else 0) s.idle_workers (client ∷ []) in
          ground (arith, lookup-insert client w tt s.idle_workers_ids, v.queued w, longer);
      registered =
          λ w idle. ground (arith, lookup-insert client w tt s.idle_workers_ids, v.registered w);
      slots_u64 = v.slots_u64;
      distinct_slots = v.distinct_slots;
      distinct_ids = Distinct-insert client tt s.idle_workers_ids v.distinct_ids;
    })
  ]

  park_worker-IsIdle : (w : ℕ) → IsIdle w s → IsIdle w (park_worker client s)
  unfolding park_worker
  park_worker-IsIdle w idle = ground (arith, lookup-insert client w tt s.idle_workers_ids)

  park_worker_self : IsIdle client (park_worker client s)
  unfolding park_worker
  park_worker_self = ground (arith, lookup-insert client client tt s.idle_workers_ids)

  park_worker-slots : (park_worker client s).workers_free_slots ≡ s.workers_free_slots
  unfolding park_worker
  park_worker-slots = ground arith

  park_worker-AllRest : OthersRest client s → AllRest (park_worker client s)
  park_worker-AllRest others w n e free = elim (ℕ_discrete client w) [
    | yes same ↦ subst (λ k. IsIdle k (park_worker client s)) same park_worker_self
    | no apart ↦
        park_worker-IsIdle w (others w apart n (ap (lookup w) (sym park_worker-slots) ∙ e) free)
  ]

module _ (client : ℕ) where
  pub dispatch_next_task-Roster :
      (s : MasterServer) → Roster s → Roster (dispatch_next_task client s).1
  unfolding dispatch_next_task
  dispatch_next_task-Roster s v = elim (Bool-cases (is_some (lookup client s.workers_free_slots))) [
    | inl known ↦ rw known (go s.pending_tasks known)
    | inr unknown ↦ rw unknown v
  ]
    where
      go :
          (tasks : List TaskPayload)
          → is_some (lookup client s.workers_free_slots) ≡ true
          → Roster (dispatch_pending client tasks s).1
      go [] known = park_worker-Roster client s known v
      go (t ∷ ts) known = send_task-Roster client t ts s v

  -- A worker that has finished one task, with `n` slots free before.
  pub dispatch_next_task-AllRest :
      (n : ℕ) (s : MasterServer)
      → n < 2 ^ 64
      → lookup client s.workers_free_slots ≡ some ((n + 1) % 2 ^ 64)
      → (0 < n → IsIdle client s)
      → OthersRest client s
      → AllRest (dispatch_next_task client s).1
  unfolding dispatch_next_task
  dispatch_next_task-AllRest n s small here idle others =
      let known : is_some (lookup client s.workers_free_slots) ≡ true = rw here refl in
      rw known (go s.pending_tasks)
    where
      sent_rests :
          (t : TaskPayload) (ts : List TaskPayload) → RestsIfFree (send_task client t ts s) client
      sent_rests t ts m e free =
          let left : ((n + 1) % 2 ^ 64 + 2 ^ 64 - 1) % 2 ^ 64 ≡ n = omega arith in
          let same : n ≡ m =
            sym left
            ∙ some_injective (sym (send_task-slots client t ts s ((n + 1) % 2 ^ 64) here) ∙ e) in
          unfold send_task in idle (omega (arith, same, free))

      go : (tasks : List TaskPayload) → AllRest (dispatch_pending client tasks s).1
      go [] w = park_worker-AllRest client s others w
      go (t ∷ ts) w = elim (ℕ_discrete client w) [
        | yes same ↦ subst (RestsIfFree (send_task client t ts s)) same (sent_rests t ts)
        | no apart ↦ send_task-OthersRest client t ts s others w apart
      ]

  pub dispatch_up_to-Roster :
      (n : ℕ) (s : MasterServer) → Roster s → Roster (dispatch_up_to n client s)
  unfolding dispatch_up_to
  dispatch_up_to-Roster zero s v = v
  dispatch_up_to-Roster (suc n) s v = elim (Bool-cases (dispatch_next_task client s).0) [
    | inl more ↦ rw more (dispatch_up_to-Roster n _ (dispatch_next_task-Roster s v))
    | inr stop ↦ rw stop (dispatch_next_task-Roster s v)
  ]

  -- With a task for each free slot, or as many as there are, no free slot is left, or the worker rests.
  pub dispatch_up_to-AllRest :
      (n : ℕ) (s : MasterServer)
      → n < 2 ^ 64
      → lookup client s.workers_free_slots ≡ some n
      → OthersRest client s
      → AllRest (dispatch_up_to n client s)
  unfolding dispatch_up_to dispatch_next_task
  dispatch_up_to-AllRest zero s small here others w = elim (ℕ_discrete client w) [
    | yes same ↦
        let none_free : RestsIfFree s client =
          λ m e free. absurd (omega (arith, some_injective (sym here ∙ e), free)) in
        subst (RestsIfFree s) same none_free
    | no apart ↦ others w apart
  ]
  dispatch_up_to-AllRest (suc n) s small here others w =
      let known : is_some (lookup client s.workers_free_slots) ≡ true = rw here refl in
      rw known (go s.pending_tasks (dispatch_up_to-AllRest n) w)
    where
      go :
          (tasks : List TaskPayload)
          → ((s' : MasterServer)
              → n < 2 ^ 64
              → lookup client s'.workers_free_slots ≡ some n
              → OthersRest client s'
              → AllRest (dispatch_up_to n client s'))
          → AllRest (
              let (more, s') = dispatch_pending client tasks s in
              let rest = dispatch_up_to n client s' in if more then rest else s')
      go [] next = park_worker-AllRest client s others
      go (t ∷ ts) next =
          let left : (suc n + 2 ^ 64 - 1) % 2 ^ 64 ≡ n = omega arith in
          next (send_task client t ts s) (omega arith)
            (send_task-slots client t ts s (suc n) here ∙ ap some left)
            (send_task-OthersRest client t ts s others)
