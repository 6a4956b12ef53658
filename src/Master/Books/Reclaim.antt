-- ===== src/Master/Books/Reclaim.antt =====
-- OnClientDisconnect: the tasks of a lost worker go back to the queue.
use mathlib.Core.List.{Perm}
use log_grid.Base.{
  List, Option, Option-cases, [], ap, arith, inl, inr, length, none, refl, sum_by, sum_by-perm, ℕ,
  ◌+◌, ◌<◌, ◌^◌, ◌∷◌, ◌≡◌, ◌⊎◌,
}
use log_grid.Base.Assoc.{Distinct, Distinct-remove, lookup, total, total-remove, weight}
use log_grid.Protocol.{TaskPayload}
use log_grid.Master.State.{MasterServer, get_or}
use log_grid.Master.Dispatch.{tasks_of}
use log_grid.Master.Dispatch.Tally.{
  IgnoresId, Sound, assign_idle_workers-Sound, tally, tasks_of-remove,
}
use log_grid.Master.Handlers.{on_client_disconnect, push_all_front, reclaim_tasks}
use log_grid.Master.Dispatch.Idle.{assign_idle_workers-LeavesIdle}
use log_grid.Master.Accounting.{Inv, Sound-Inv}

total-eq-sum_by :
    (f : TaskPayload → ℕ) (ts : List (ℕ × TaskPayload)) → total f ts ≡ sum_by (λ e. f e.1) ts
total-eq-sum_by f [] = refl
total-eq-sum_by f ((id, t) ∷ ts) = omega (arith, total-eq-sum_by f ts)

sum_by-push_all_front :
    (f : TaskPayload → ℕ) (ts : List (ℕ × TaskPayload)) (pending : List TaskPayload)
    → sum_by f (push_all_front ts pending) ≡ total f ts + sum_by f pending
unfolding push_all_front
sum_by-push_all_front f [] pending = omega arith
sum_by-push_all_front f ((id, t) ∷ ts) pending =
    omega (arith, sum_by-push_all_front f ts (t ∷ pending))

length-push_all_front :
    (ts : List (ℕ × TaskPayload)) (pending : List TaskPayload)
    → length (push_all_front ts pending) ≡ sum_by (λ e. 1) ts + length pending
unfolding push_all_front
length-push_all_front [] pending = omega arith
length-push_all_front ((id, t) ∷ ts) pending = omega (arith, length-push_all_front ts (t ∷ pending))

sum_by_one : (ts : List (ℕ × TaskPayload)) → sum_by (λ e. 1) ts ≡ length ts
sum_by_one [] = refl
sum_by_one (t ∷ ts) = omega (arith, sum_by_one ts)

module _ (walk : List (ℕ × TaskPayload) → List (ℕ × TaskPayload))
    (walk-perm : (ts : List (ℕ × TaskPayload)) → Perm (walk ts) ts) where
  length-reclaimed :
      (ts : List (ℕ × TaskPayload)) (pending : List TaskPayload)
      → length (push_all_front (walk ts) pending) ≡ length ts + length pending
  length-reclaimed ts pending = omega (
    arith,
    length-push_all_front (walk ts) pending,
    sum_by-perm (λ e. 1) (walk-perm ts),
    sum_by_one ts,
  )

  sum_by-reclaimed :
      (f : TaskPayload → ℕ) (ts : List (ℕ × TaskPayload)) (pending : List TaskPayload)
      → sum_by f (push_all_front (walk ts) pending) ≡ total f ts + sum_by f pending
  sum_by-reclaimed f ts pending = omega (
    arith,
    sum_by-push_all_front f (walk ts) pending,
    total-eq-sum_by f (walk ts),
    sum_by-perm (λ e. f e.1) (walk-perm ts),
    total-eq-sum_by f ts,
  )

  -- Every task of the lost worker waits again, and none is lost or made up.
  pub reclaim_tasks-Sound :
      (client : ℕ) (s : MasterServer)
      → Distinct s.in_flight_tasks
      → ((c id : ℕ) → s.next_task_id < id → lookup id (tasks_of c s) ≡ none)
      → s.next_task_id + length s.pending_tasks + length (tasks_of client s) < 2 ^ 64
      → Sound s (reclaim_tasks walk client s)
  unfolding reclaim_tasks tally
  reclaim_tasks-Sound client s d fresh room =
      elim (Option-cases (lookup client s.in_flight_tasks)) [
        | inl idle ↦
            rw (idle, reclaim_tasks)
              (record {
                distinct = d;
                fresh = fresh;
                room = omega arith;
                same_sessions = refl;
                same_next = refl;
                same_tasks = λ f ignores. refl;
              })
        | inr (ts, busy) ↦
            rw (busy, reclaim_tasks)
              (record {
                distinct = Distinct-remove client s.in_flight_tasks d;
                fresh =
                    λ c id less. tasks_of-remove client c id s.in_flight_tasks d (fresh c id less);
                room = omega (
                  arith,
                  length-reclaimed ts s.pending_tasks,
                  ap (λ (o : Option (List (ℕ × TaskPayload))). length (get_or o [])) busy,
                );
                same_sessions = refl;
                same_next = refl;
                same_tasks = λ f ignores. omega (
                  arith,
                  sum_by-reclaimed f ts s.pending_tasks,
                  total-remove (total f) client s.in_flight_tasks,
                  ap (weight (total f)) busy,
                );
              })
      ]

  -- OnClientDisconnect loses no task and makes none up, from a state with its books in order, as
  -- long as task ids do not run out, and in whatever order the map is walked: by a measure that
  -- does not look at the ids, what waits and is in flight is the same as before. After it the
  -- books still agree, and no task waits while a worker is idle.
  pub on_client_disconnect-Inv :
      (client : ℕ) (s : MasterServer) (f : TaskPayload → ℕ)
      → Inv s
      → s.next_task_id + length s.pending_tasks + length (tasks_of client s) < 2 ^ 64
      → IgnoresId f
      → let s' = on_client_disconnect walk client s in
        Inv s' × (tally f s' ≡ tally f s) × ((s'.pending_tasks ≡ []) ⊎ (s'.idle_workers ≡ []))
  unfolding on_client_disconnect
  on_client_disconnect-Inv client s f v room ignores =
      let reclaimed = reclaim_tasks-Sound client s v.distinct v.fresh room in
      let kept = assign_idle_workers-Sound (reclaim_tasks walk client s) reclaimed in
      (
        Sound-Inv kept v,
        kept.same_tasks f ignores,
        assign_idle_workers-LeavesIdle (reclaim_tasks walk client s),
      )
