-- ===== src/Master/Dispatch/Capacity.antt =====
-- The tasks in flight at a worker and its free slots, under dispatching. `threads` is what each worker
-- has said that it has.
use native.Mathlib.Decide.{ℕ_discrete}
use log_grid.Base.{
  Bool-cases, List, Option, Option-cases, [], ap, arith, if◌then◌else◌, inl, inr, length, none,
  refl, some, subst, suc, true, zero, ℕ, ◌%◌, ◌+◌, ◌-◌, ◌<◌, ◌^◌, ◌∙◌, ◌∷◌, ◌≡◌,
}
use log_grid.Base.Assoc.{
  insert, lookup, lookup-insert_ne, lookup-insert_self, remove, total, total-insert, weight,
}
use log_grid.Protocol.{TaskPayload}
use log_grid.Master.State.{MasterServer, get_or, is_some}
use log_grid.Master.Dispatch.{
  assign_idle_workers, assign_loop, assign_turn, dispatch_next_task, dispatch_pending,
  dispatch_up_to, park_worker, send_task, tasks_of, wake_worker,
}
use log_grid.Master.Dispatch.Roster.{send_task-slots}
use log_grid.Master.Dispatch.Tally.{Sound, dispatch_next_task-Sound, idle-Sound, wake_worker-Sound}

-- The number of tasks that a worker has.
abbrev pub load : ℕ → MasterServer → ℕ
load w s = total (λ t. 1) (tasks_of w s)

module _ (threads : ℕ → ℕ) where
  -- Its free slots; a worker that is not registered counts with all its threads.
  abbrev pub free : ℕ → MasterServer → ℕ
  free w s = get_or (lookup w s.workers_free_slots) (threads w)

  abbrev pub Fits : MasterServer → Type 0
  Fits s = (w : ℕ) → free w s + load w s ≡ threads w

  send_task-Fits :
      (client n : ℕ) (front : TaskPayload) (rest : List TaskPayload) (s : MasterServer)
      → n + 1 < 2 ^ 64
      → lookup client s.workers_free_slots ≡ some (n + 1)
      → lookup ((s.next_task_id + 1) % 2 ^ 64) (tasks_of client s) ≡ none
      → Fits s
      → Fits (send_task client front rest s)
  unfolding send_task
  send_task-Fits client n front rest s small here fresh v w =
      let id = (s.next_task_id + 1) % 2 ^ 64 in
      let task = record front { task_id = id } in
      let more = insert id task (tasks_of client s) in
      let slots = get_or (lookup client s.workers_free_slots) 0 in
      let now = (slots + 2 ^ 64 - 1) % 2 ^ 64 in
      elim (ℕ_discrete client w) [
        | yes same ↦
            let one_slot = ap (λ (o : Option ℕ). get_or o 0) here in
            let at_client : free client (send_task client front rest s)
                  + load client (send_task client front rest s)
                ≡ threads client =
              omega (
                arith,
                one_slot,
                ap (λ (o : Option ℕ). get_or o (threads client)) here,
                ap (λ (o : Option ℕ). get_or o (threads client))
                    (lookup-insert_self client now s.workers_free_slots),
                ap (λ (o : Option (List (ℕ × TaskPayload))). total (λ t. 1) (get_or o []))
                    (lookup-insert_self client more s.in_flight_tasks),
                total-insert (λ t. 1) id task (tasks_of client s),
                ap (weight (λ t. 1)) fresh,
                v client,
              ) in
            subst
              (λ k.
                free k (send_task client front rest s) + load k (send_task client front rest s)
                ≡ threads k)
              same at_client
        | no apart ↦ omega (
          arith,
          ap (λ (o : Option ℕ). get_or o (threads w))
              (lookup-insert_ne client w now s.workers_free_slots apart),
          ap (λ (o : Option (List (ℕ × TaskPayload))). total (λ t. 1) (get_or o []))
              (lookup-insert_ne client w more s.in_flight_tasks apart),
          v w,
        )
      ]

  park_worker-Fits : (client : ℕ) (s : MasterServer) → Fits s → Fits (park_worker client s)
  unfolding park_worker
  park_worker-Fits client s v = elim (Bool-cases (is_some (lookup client s.idle_workers_ids))) [
    | inl parked ↦ rw parked v
    | inr new ↦ rw new v
  ]

  module _ {from : MasterServer} (client : ℕ) where
    -- With a free slot for the task.
    pub dispatch_next_task-Fits :
        (n : ℕ) (s : MasterServer)
        → n + 1 < 2 ^ 64
        → lookup client s.workers_free_slots ≡ some (n + 1)
        → Sound from s
        → Fits s
        → Fits (dispatch_next_task client s).1
    unfolding dispatch_next_task
    dispatch_next_task-Fits n s small here sound v =
        let known : is_some (lookup client s.workers_free_slots) ≡ true = rw here refl in
        rw known (go s.pending_tasks refl)
      where
        go :
            (tasks : List TaskPayload)
            → s.pending_tasks ≡ tasks
            → Fits (dispatch_pending client tasks s).1
        go [] e = park_worker-Fits client s v
        go (t ∷ ts) e =
            let waiting = ap length e in
            let next : (s.next_task_id + 1) % 2 ^ 64 ≡ s.next_task_id + 1 =
              omega (arith, sound.room) in
            send_task-Fits client n t ts s small here (sound.fresh client _ (omega arith)) v

    -- With as many free slots as tasks are asked for.
    pub dispatch_up_to-Fits :
        (n : ℕ) (s : MasterServer)
        → n < 2 ^ 64
        → lookup client s.workers_free_slots ≡ some n
        → Sound from s
        → Fits s
        → Fits (dispatch_up_to n client s)
    unfolding dispatch_up_to dispatch_next_task
    dispatch_up_to-Fits zero s small here sound v w = v w
    dispatch_up_to-Fits (suc n) s small here sound v w =
        let known : is_some (lookup client s.workers_free_slots) ≡ true = rw here refl in
        let here_add : lookup client s.workers_free_slots ≡ some (n + 1) =
          here ∙ ap some (omega arith) in
        let next : Sound from (dispatch_next_task client s).1 =
          dispatch_next_task-Sound client s sound in
        let fits : Fits (dispatch_next_task client s).1 =
          dispatch_next_task-Fits n s (omega arith) here_add sound v in
        rw known
          (go s.pending_tasks (rw known at next) (rw known at fits) (dispatch_up_to-Fits n) w)
      where
        go :
            (tasks : List TaskPayload)
            → Sound from (dispatch_pending client tasks s).1
            → Fits (dispatch_pending client tasks s).1
            → ((s' : MasterServer)
                → n < 2 ^ 64
                → lookup client s'.workers_free_slots ≡ some n
                → Sound from s'
                → Fits s'
                → Fits (dispatch_up_to n client s'))
            → Fits (
                let (more, s') = dispatch_pending client tasks s in
                let rest = dispatch_up_to n client s' in if more then rest else s')
        go [] next fits again = fits
        go (t ∷ ts) next fits again =
            let left : (suc n + 2 ^ 64 - 1) % 2 ^ 64 ≡ n = omega arith in
            again (send_task client t ts s) (omega arith)
              (send_task-slots client t ts s (suc n) here ∙ ap some left) next fits

  module _ (threads_u64 : (w : ℕ) → threads w < 2 ^ 64) where
    slots_small :
        (w n : ℕ) (s : MasterServer) → Fits s → lookup w s.workers_free_slots ≡ some n → n < 2 ^ 64
    slots_small w n s v known =
        omega (arith, v w, threads_u64 w, ap (λ (o : Option ℕ). get_or o (threads w)) known)

    wake_worker-Fits :
        {from : MasterServer} (worker : ℕ) (others : List ℕ) (s : MasterServer)
        → Sound from s
        → Fits s
        → Fits (wake_worker worker others s)
    unfolding wake_worker
    wake_worker-Fits worker others s sound v =
        elim (Option-cases (lookup worker s.workers_free_slots)) [
          | inl gone ↦ rw (gone, wake_worker) v
          | inr (n, known) ↦
              rw (known, wake_worker)
                (dispatch_up_to-Fits worker n _ (slots_small worker n s v known) known
                  (idle-Sound others (remove worker s.idle_workers_ids) s sound) v)
        ]

    assign_loop-Fits :
        {from : MasterServer} (fuel : ℕ) (s : MasterServer)
        → Sound from s
        → Fits s
        → Fits (assign_loop fuel s)
    unfolding assign_loop
    assign_loop-Fits zero s sound v = v
    assign_loop-Fits (suc fuel) s sound v = turn s.idle_workers s.pending_tasks (λ w ws.
        assign_loop-Fits fuel _ (wake_worker-Sound w ws s sound) (wake_worker-Fits w ws s sound v))
      where
        turn :
            (idle : List ℕ) (tasks : List TaskPayload)
            → ((w : ℕ) (ws : List ℕ) → Fits (assign_loop fuel (wake_worker w ws s)))
            → Fits (assign_turn (assign_loop fuel) idle tasks s)
        turn [] tasks next = v
        turn (w ∷ ws) [] next = v
        turn (w ∷ ws) (t ∷ ts) next = next w ws

    pub assign_idle_workers-Fits :
        {from : MasterServer} (s : MasterServer)
        → Sound from s
        → Fits s
        → Fits (assign_idle_workers s)
    unfolding assign_idle_workers
    assign_idle_workers-Fits s sound v = assign_loop-Fits (suc (length s.idle_workers)) s sound v
