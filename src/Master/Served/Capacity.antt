-- ===== src/Master/Served/Capacity.antt =====
-- The load of a worker under Worker_Hello and Worker_TaskDone.
use native.Mathlib.Decide.{ℕ_discrete}
use log_grid.Base.{
  List, Option, Option-cases, [], ap, arith, inl, inr, length, refl, some, subst, ℕ, ◌+◌, ◌<◌, ◌^◌,
  ◌∙◌, ◌∷◌, ◌≡◌, ◌≢◌,
}
use log_grid.Base.Assoc.{
  Distinct, lookup, lookup-insert_ne, lookup-insert_self, lookup-remove_ne, lookup-remove_self,
  remove, total, total-remove, weight,
}
use log_grid.Protocol.{TaskPayload}
use log_grid.Master.State.{MasterServer, SearchSession, get_or}
use log_grid.Master.Dispatch.{dispatch_next_task, tasks_of}
use log_grid.Master.Dispatch.Tally.{Sound}
use log_grid.Master.Dispatch.Capacity.{Fits, dispatch_next_task-Fits, free, load}
use log_grid.Master.Handlers.{free_slot, register_worker, without_task}
use log_grid.Master.Accounting.{Inv, Inv-Sound}
use log_grid.Master.Books.Finish.{Without-InvWith, finished, finished-Without}
use log_grid.Master.Served.Answered.{with_results}

-- Taking a task off, and what it does to the load.
module _ (client task_id : ℕ) (s : MasterServer) (d : Distinct s.in_flight_tasks) where
  load-without_task_self :
      (left : List (ℕ × TaskPayload))
      → load client (without_task client task_id left s) ≡ total (λ t. 1) left
  load-without_task_self [] =
      ap (λ (o : Option (List (ℕ × TaskPayload))). total (λ t. 1) (get_or o []))
        (lookup-remove_self client s.in_flight_tasks d)
  load-without_task_self (t ∷ ts) =
      ap (λ (o : Option (List (ℕ × TaskPayload))). total (λ t. 1) (get_or o []))
        (lookup-insert_self client (t ∷ ts) s.in_flight_tasks)

  load-without_task_ne :
      (left : List (ℕ × TaskPayload)) (w : ℕ)
      → client ≢ w
      → load w (without_task client task_id left s) ≡ load w s
  load-without_task_ne [] w apart =
      ap (λ (o : Option (List (ℕ × TaskPayload))). total (λ t. 1) (get_or o []))
        (lookup-remove_ne client w s.in_flight_tasks apart)
  load-without_task_ne (t ∷ ts) w apart =
      ap (λ (o : Option (List (ℕ × TaskPayload))). total (λ t. 1) (get_or o []))
        (lookup-insert_ne client w (t ∷ ts) s.in_flight_tasks apart)

  slots-without_task :
      (left : List (ℕ × TaskPayload))
      → (without_task client task_id left s).workers_free_slots ≡ s.workers_free_slots
  slots-without_task [] = refl
  slots-without_task (t ∷ ts) = refl

module _ (threads : ℕ → ℕ) (threads_u64 : (w : ℕ) → threads w < 2 ^ 64) where
  -- Results are no part of it.
  pub results-Fits :
      (m : List (ℕ × SearchSession)) (w : List (List ℕ × List ℕ)) (s : MasterServer)
      → Fits threads s
      → Fits threads (with_results m w s)
  results-Fits m w s v = v

  module _ (client : ℕ) (s : MasterServer) (v : Fits threads s) where
    -- A worker that has a task is registered, with its other threads free.
    has_slots :
        0 < load client s
        → (n : ℕ) × (lookup client s.workers_free_slots ≡ some n)
          × (n + load client s ≡ threads client)
    has_slots busy = elim (Option-cases (lookup client s.workers_free_slots)) [
      | inl unknown ↦
          let all = ap (λ (o : Option ℕ). get_or o (threads client)) unknown in
          absurd (omega (arith, v client, all))
      | inr (n, known) ↦
          let some_free = ap (λ (o : Option ℕ). get_or o (threads client)) known in
          (n, known, omega (arith, v client, some_free))
    ]

    pub register_worker-Fits :
        load client s ≡ 0 → Fits threads (register_worker client (threads client) s)
    unfolding register_worker
    register_worker-Fits none_there w = elim (ℕ_discrete client w) [
      | yes same ↦
          let here : free threads client (register_worker client (threads client) s) + load client s
              ≡ threads client =
            omega (
              arith,
              none_there,
              ap (λ (o : Option ℕ). get_or o (threads client))
                  (lookup-insert_self client (threads client) s.workers_free_slots),
            ) in
          subst
            (λ k. free threads k (register_worker client (threads client) s) + load k s ≡ threads k)
            same here
      | no apart ↦ omega (
        arith,
        v w,
        ap (λ (o : Option ℕ). get_or o (threads w))
            (lookup-insert_ne client w (threads client) s.workers_free_slots apart),
      )
    ]

    module _ (task_id : ℕ) (t : TaskPayload) (inv : Inv s)
        (there : lookup task_id (tasks_of client s) ≡ some t) where
      abbrev done_task : MasterServer
      done_task = finished client task_id s t inv.distinct inv.fresh there

      one_task : total (λ t. 1) (remove task_id (tasks_of client s)) + 1 ≡ load client s
      one_task =
          omega
            (arith, total-remove (λ t. 1) task_id (tasks_of client s), ap (weight (λ t. 1)) there)

      abbrev rest : List (ℕ × TaskPayload)
      rest = remove task_id (tasks_of client s)

      freed_slots :
          (n : ℕ)
          → lookup client s.workers_free_slots ≡ some n
          → n + 1 < 2 ^ 64
          → lookup client done_task.workers_free_slots ≡ some (n + 1)
      unfolding free_slot
      freed_slots n known small =
          let same = slots-without_task client task_id s inv.distinct rest in
          let before =
            ap (λ m. get_or (lookup client m) 0) same ∙ ap (λ (o : Option ℕ). get_or o 0) known in
          lookup-insert_self client _ (without_task client task_id rest s).workers_free_slots
          ∙ ap some (omega (arith, before, small))

      freed_others :
          (w : ℕ)
          → client ≢ w
          → lookup w done_task.workers_free_slots ≡ lookup w s.workers_free_slots
      unfolding free_slot
      freed_others w apart =
          lookup-insert_ne client w _ (without_task client task_id rest s).workers_free_slots apart
          ∙ ap (lookup w) (slots-without_task client task_id s inv.distinct rest)

      load_after : (w : ℕ) → load w done_task ≡ load w (without_task client task_id rest s)
      unfolding free_slot
      load_after w = refl

      finished-Fits :
          (n : ℕ)
          → lookup client s.workers_free_slots ≡ some n
          → n + load client s ≡ threads client
          → Fits threads done_task
      finished-Fits n known fits w = elim (ℕ_discrete client w) [
        | yes same ↦
            let small : n + 1 < 2 ^ 64 = omega (arith, threads_u64 client, fits, one_task) in
            let slots =
              ap (λ (o : Option ℕ). get_or o (threads client)) (freed_slots n known small) in
            let here : free threads client done_task + load client done_task ≡ threads client =
              omega (
                arith,
                slots,
                load_after client,
                load-without_task_self client task_id s inv.distinct rest,
                one_task,
                fits,
              ) in
            subst (λ k. free threads k done_task + load k done_task ≡ threads k) same here
        | no apart ↦ omega (
          arith,
          ap (λ (o : Option ℕ). get_or o (threads w)) (freed_others w apart),
          load_after w,
          load-without_task_ne client task_id s inv.distinct rest w apart,
          v w,
        )
      ]

      -- The task that is sent next takes the slot that is free now.
      pub next-Fits :
          s.next_task_id + length s.pending_tasks < 2 ^ 64
          → Fits threads (dispatch_next_task client done_task).1
      next-Fits room =
          let w = finished-Without client task_id s t inv.distinct inv.fresh there in
          let sound : Sound done_task done_task =
            Inv-Sound (omega (arith, w.same_room, room)) (Without-InvWith w inv) in
          let (n, known, fits) = has_slots (omega (arith, one_task)) in
          let small : n + 1 < 2 ^ 64 = omega (arith, threads_u64 client, fits, one_task) in
          dispatch_next_task-Fits threads client n done_task small (freed_slots n known small) sound
            (finished-Fits n known fits)
