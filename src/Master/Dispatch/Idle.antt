-- ===== src/Master/Dispatch/Idle.antt =====
-- AssignIdleWorkers: what is left when its loop ends.
use log_grid.Base.{
  Bool-cases, List, Option-cases, [], ap, arith, inl, inr, length, refl, subst, suc, true, zero, ℕ,
  ◌<◌, ◌∙◌, ◌∷◌, ◌≡◌, ◌⊎◌,
}
use log_grid.Base.Assoc.{lookup}
use log_grid.Protocol.{TaskPayload}
use log_grid.Master.State.{MasterServer, is_some}
use log_grid.Master.Dispatch.{
  assign_idle_workers, assign_loop, assign_turn, dispatch_next_task, dispatch_pending,
  dispatch_up_to, park_worker, send_task, wake_worker,
}

-- Either every task is handed out, or just these workers are idle.
abbrev LeavesIdle : List ℕ → MasterServer → Type 0
LeavesIdle idle s = (s.pending_tasks ≡ []) ⊎ (s.idle_workers ≡ idle)

pending-park_worker :
    (client : ℕ) (s : MasterServer) → (park_worker client s).pending_tasks ≡ s.pending_tasks
unfolding park_worker
pending-park_worker client s = ground arith

dispatch_pending-LeavesIdle :
    (client : ℕ) (tasks : List TaskPayload) (s : MasterServer)
    → s.pending_tasks ≡ tasks
    → LeavesIdle s.idle_workers (dispatch_pending client tasks s).1
dispatch_pending-LeavesIdle client [] s e = inl (pending-park_worker client s ∙ e)
dispatch_pending-LeavesIdle client (t ∷ ts) s e = inr (unfold send_task in refl)

dispatch_next_task-LeavesIdle :
    (client : ℕ) (s : MasterServer) → LeavesIdle s.idle_workers (dispatch_next_task client s).1
unfolding dispatch_next_task
dispatch_next_task-LeavesIdle client s =
    elim (Bool-cases (is_some (lookup client s.workers_free_slots))) [
      | inl known ↦ rw known (dispatch_pending-LeavesIdle client s.pending_tasks s refl)
      | inr unknown ↦ rw unknown (inr refl)
    ]

-- A task that is sent leaves the idle queue alone.
dispatch_pending_more :
    (client : ℕ) (tasks : List TaskPayload) (s : MasterServer)
    → (dispatch_pending client tasks s).0 ≡ true
    → (dispatch_pending client tasks s).1.idle_workers ≡ s.idle_workers
dispatch_pending_more client [] s h = cc
dispatch_pending_more client (t ∷ ts) s h = unfold send_task in refl

dispatch_next_task_more :
    (client : ℕ) (s : MasterServer)
    → (dispatch_next_task client s).0 ≡ true
    → (dispatch_next_task client s).1.idle_workers ≡ s.idle_workers
unfolding dispatch_next_task
dispatch_next_task_more client s h = ground (arith, dispatch_pending_more client s.pending_tasks s)

dispatch_up_to-LeavesIdle :
    (n client : ℕ) (s : MasterServer) → LeavesIdle s.idle_workers (dispatch_up_to n client s)
unfolding dispatch_up_to
dispatch_up_to-LeavesIdle zero client s = inr refl
dispatch_up_to-LeavesIdle (suc n) client s = elim (Bool-cases (dispatch_next_task client s).0) [
  | inl more ↦ rw more (
      subst (λ idle. LeavesIdle idle (dispatch_up_to n client (dispatch_next_task client s).1))
        (dispatch_next_task_more client s more)
        (dispatch_up_to-LeavesIdle n client (dispatch_next_task client s).1))
  | inr stop ↦ rw stop (dispatch_next_task-LeavesIdle client s)
]

-- No task waits while a worker is idle.
abbrev pub Settled : MasterServer → Type 0
Settled s = (s.pending_tasks ≡ []) ⊎ (s.idle_workers ≡ [])

pub dispatch_next_task-Settled :
    (client : ℕ) (s : MasterServer) → Settled s → Settled (dispatch_next_task client s).1
unfolding dispatch_next_task
dispatch_next_task-Settled client s settled =
    elim (Bool-cases (is_some (lookup client s.workers_free_slots))) [
      | inl known ↦ rw known (go s.pending_tasks refl settled)
      | inr unknown ↦ rw unknown settled
    ]
  where
    go :
        (tasks : List TaskPayload)
        → s.pending_tasks ≡ tasks
        → Settled s
        → Settled (dispatch_pending client tasks s).1
    go [] e h = inl (pending-park_worker client s ∙ e)
    go (t ∷ ts) e (inl none_left) = absurd cc
    go (t ∷ ts) e (inr none_idle) = inr (unfold send_task in none_idle)

pub dispatch_up_to-Settled :
    (n client : ℕ) (s : MasterServer) → Settled s → Settled (dispatch_up_to n client s)
unfolding dispatch_up_to
dispatch_up_to-Settled zero client s settled = settled
dispatch_up_to-Settled (suc n) client s settled =
    let next = dispatch_next_task-Settled client s settled in
    elim (Bool-cases (dispatch_next_task client s).0) [
      | inl more ↦ rw more (dispatch_up_to-Settled n client _ next)
      | inr stop ↦ rw stop next
    ]

wake_worker-LeavesIdle :
    (worker : ℕ) (others : List ℕ) (s : MasterServer)
    → LeavesIdle others (wake_worker worker others s)
unfolding wake_worker
wake_worker-LeavesIdle worker others s = elim (Option-cases (lookup worker s.workers_free_slots)) [
  | inl gone ↦ rw (gone, wake_worker) (inr refl)
  | inr (n, known) ↦ rw (known, wake_worker) (dispatch_up_to-LeavesIdle n worker _)
]

-- Once the tasks are gone the loop is over.
assign_loop_drained :
    (fuel : ℕ) (s : MasterServer) → s.pending_tasks ≡ [] → (assign_loop fuel s).pending_tasks ≡ []
unfolding assign_loop
assign_loop_drained zero s e = e
assign_loop_drained (suc fuel) s e = turn s.idle_workers s.pending_tasks e
  where
    turn :
        (idle : List ℕ) (tasks : List TaskPayload)
        → tasks ≡ []
        → (assign_turn (assign_loop fuel) idle tasks s).pending_tasks ≡ []
    turn [] tasks h = e
    turn (w ∷ ws) [] h = e
    turn (w ∷ ws) (t ∷ ts) h = cc

assign_loop-LeavesIdle :
    (fuel : ℕ) (s : MasterServer)
    → length s.idle_workers < fuel
    → LeavesIdle [] (assign_loop fuel s)
unfolding assign_loop
assign_loop-LeavesIdle zero s h = absurd (omega arith)
assign_loop-LeavesIdle (suc fuel) s h =
    turn s.idle_workers s.pending_tasks refl refl (assign_loop-LeavesIdle fuel)
  where
    turn :
        (idle : List ℕ) (tasks : List TaskPayload)
        → s.idle_workers ≡ idle
        → s.pending_tasks ≡ tasks
        → ((s' : MasterServer)
            → length s'.idle_workers < fuel
            → LeavesIdle [] (assign_loop fuel s'))
        → LeavesIdle [] (assign_turn (assign_loop fuel) idle tasks s)
    turn [] tasks e f next = inr e
    turn (w ∷ ws) [] e f next = inl f
    turn (w ∷ ws) (t ∷ ts) e f next = elim (wake_worker-LeavesIdle w ws s) [
      | inl drained ↦ inl (assign_loop_drained fuel _ drained)
      | inr left ↦ next _ (omega (arith, ap length e, ap length left))
    ]

-- After AssignIdleWorkers no task waits, or no worker is idle.
pub assign_idle_workers-LeavesIdle :
    (s : MasterServer)
    → ((assign_idle_workers s).pending_tasks ≡ []) ⊎ ((assign_idle_workers s).idle_workers ≡ [])
unfolding assign_idle_workers
assign_idle_workers-LeavesIdle s =
    assign_loop-LeavesIdle (suc (length s.idle_workers)) s (omega arith)
