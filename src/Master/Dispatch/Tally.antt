-- ===== src/Master/Dispatch/Tally.antt =====
-- What waits and is in flight, and the sessions, under dispatching.
use native.Mathlib.Decide.{ℕ_discrete}
use log_grid.Base.{
  Bool-cases, List, Option, Option-cases, [], ap, arith, inl, inr, length, none, refl, some, subst,
  suc, sum_by, zero, ℕ, ◌%◌, ◌+◌, ◌<◌, ◌^◌, ◌∙◌, ◌∷◌, ◌≡◌, ◌≢◌,
}
use log_grid.Base.Assoc.{
  Distinct, Distinct-insert, insert, lookup, lookup-insert, lookup-remove_ne, lookup-remove_self,
  remove, total, total-insert, weight,
}
use log_grid.Protocol.{TaskPayload}
use log_grid.Master.State.{MasterServer, get_or, is_some}
use log_grid.Master.Dispatch.{
  assign_idle_workers, assign_loop, assign_turn, dispatch_next_task, dispatch_pending,
  dispatch_up_to, park_worker, send_task, tasks_of, wake_worker,
}

-- A measure of the tasks of the master, waiting and in flight.
unfoldable pub tally : (TaskPayload → ℕ) → MasterServer → ℕ
tally f s = sum_by f s.pending_tasks + total (total f) s.in_flight_tasks

-- A measure that does not look at the id that a task gets when it is dispatched.
abbrev pub IgnoresId : (TaskPayload → ℕ) → Type 0
IgnoresId f = (t : TaskPayload) (id : ℕ) → f (record t { task_id = id }) ≡ f t

-- Of two states of the master: the second holds the tasks of the first, up to their ids, and its
-- sessions. And the second is in order: a worker has one map of tasks, ids that are to come are not
-- in flight, and there are ids left for all that waits.
pub record Sound (from s : MasterServer) : Type 0 where
  pub distinct : Distinct s.in_flight_tasks
  pub fresh : (client id : ℕ) → s.next_task_id < id → lookup id (tasks_of client s) ≡ none
  pub room : s.next_task_id + length s.pending_tasks < 2 ^ 64
  pub same_sessions : s.sessions ≡ from.sessions
  pub same_next : s.next_search_id ≡ from.next_search_id
  pub same_tasks : (f : TaskPayload → ℕ) → IgnoresId f → tally f s ≡ tally f from

-- The part of it that speaks of one state.
abbrev pub InOrder : MasterServer → Type 0
InOrder s = Sound s s

-- In terms of maps: a value that replaces another changes a sum by their difference.
pub get_or-weight :
    (f : TaskPayload → ℕ) (o : Option (List (ℕ × TaskPayload)))
    → total f (get_or o []) ≡ weight (total f) o
get_or-weight f none = refl
get_or-weight f (some ts) = refl

pub tasks_of-insert :
    (client other id : ℕ) (ts : List (ℕ × TaskPayload)) (m : List (ℕ × List (ℕ × TaskPayload)))
    → lookup id ts ≡ none
    → lookup id (get_or (lookup other m) []) ≡ none
    → lookup id (get_or (lookup other (insert client ts m)) []) ≡ none
tasks_of-insert client other id ts m h k = ground (arith, lookup-insert client other ts m)

pub tasks_of-remove :
    (client other id : ℕ) (m : List (ℕ × List (ℕ × TaskPayload)))
    → Distinct m
    → lookup id (get_or (lookup other m) []) ≡ none
    → lookup id (get_or (lookup other (remove client m)) []) ≡ none
tasks_of-remove client other id m d h = elim (ℕ_discrete client other) [
  | yes same ↦
      let gone : lookup other (remove client m) ≡ none =
        subst (λ k. lookup k (remove client m) ≡ none) same (lookup-remove_self client m d) in
      rw gone refl
  | no apart ↦ rw (lookup-remove_ne client other m apart) h
]

tally-send_task :
    (f : TaskPayload → ℕ) (client : ℕ) (front : TaskPayload) (rest : List TaskPayload)
    (s : MasterServer)
    → IgnoresId f
    → s.pending_tasks ≡ front ∷ rest
    → lookup ((s.next_task_id + 1) % 2 ^ 64) (tasks_of client s) ≡ none
    → tally f (send_task client front rest s) ≡ tally f s
unfolding tally send_task
tally-send_task f client front rest s ignores pending fresh =
    let id = (s.next_task_id + 1) % 2 ^ 64 in
    let task = record front { task_id = id } in
    let inner = total-insert f id task (tasks_of client s) in
    let outer =
      total-insert (total f) client (insert id task (tasks_of client s)) s.in_flight_tasks in
    let none_there = ap (weight f) fresh in
    omega (
      arith,
      inner,
      outer,
      none_there,
      ignores front id,
      ap (sum_by f) pending,
      get_or-weight f (lookup client s.in_flight_tasks),
    )

tasks_of-send_task :
    (client other id : ℕ) (front : TaskPayload) (rest : List TaskPayload) (s : MasterServer)
    → id ≢ (s.next_task_id + 1) % 2 ^ 64
    → lookup id (tasks_of other (send_task client front rest s)) ≡ lookup id (tasks_of other s)
unfolding send_task
tasks_of-send_task client other id front rest s h =
    let next = (s.next_task_id + 1) % 2 ^ 64 in
    let task = record front { task_id = next } in
    ground (
      arith,
      lookup-insert client other (insert next task (tasks_of client s)) s.in_flight_tasks,
      lookup-insert next id task (tasks_of client s),
    )

module _ {from : MasterServer} where
  send_task-Sound :
      (client : ℕ) (front : TaskPayload) (rest : List TaskPayload) (s : MasterServer)
      → s.pending_tasks ≡ front ∷ rest
      → Sound from s
      → Sound from (send_task client front rest s)
  send_task-Sound client front rest s pending v =
      let waiting = ap length pending in
      let no_wrap : (s.next_task_id + 1) % 2 ^ 64 ≡ s.next_task_id + 1 = omega (arith, v.room) in
      record {
        distinct = unfold send_task in Distinct-insert client _ s.in_flight_tasks v.distinct;
        fresh = λ c i less.
            let later : (s.next_task_id + 1) % 2 ^ 64 < i = unfold send_task in less in
            tasks_of-send_task client c i front rest s (omega arith) ∙ v.fresh c i (omega arith);
        room = unfold send_task in omega (arith, v.room);
        same_sessions = unfold send_task in v.same_sessions;
        same_next = unfold send_task in v.same_next;
        same_tasks = λ f ignores.
            tally-send_task f client front rest s ignores pending
              (v.fresh client ((s.next_task_id + 1) % 2 ^ 64) (omega arith))
            ∙ v.same_tasks f ignores;
      }

  park_worker-Sound :
      (client : ℕ) (s : MasterServer) → Sound from s → Sound from (park_worker client s)
  unfolding park_worker tally
  park_worker-Sound client s v = elim (Bool-cases (is_some (lookup client s.idle_workers_ids))) [
    | inl parked ↦ rw parked v
    | inr new ↦ rw new (record {
      distinct = v.distinct;
      fresh = v.fresh;
      room = v.room;
      same_sessions = v.same_sessions;
      same_next = v.same_next;
      same_tasks = v.same_tasks;
    })
  ]

  pub dispatch_next_task-Sound :
      (client : ℕ) (s : MasterServer) → Sound from s → Sound from (dispatch_next_task client s).1
  unfolding dispatch_next_task
  dispatch_next_task-Sound client s v =
      elim (Bool-cases (is_some (lookup client s.workers_free_slots))) [
        | inl known ↦ rw known (pending s.pending_tasks refl)
        | inr unknown ↦ rw unknown v
      ]
    where
      pending :
          (tasks : List TaskPayload)
          → s.pending_tasks ≡ tasks
          → Sound from (dispatch_pending client tasks s).1
      pending [] e = park_worker-Sound client s v
      pending (task ∷ rest) e = send_task-Sound client task rest s e v

  pub dispatch_up_to-Sound :
      (n client : ℕ) (s : MasterServer) → Sound from s → Sound from (dispatch_up_to n client s)
  unfolding dispatch_up_to
  dispatch_up_to-Sound zero client s v = v
  dispatch_up_to-Sound (suc n) client s v = elim (Bool-cases (dispatch_next_task client s).0) [
    | inl more ↦ rw more (dispatch_up_to-Sound n client _ (dispatch_next_task-Sound client s v))
    | inr stop ↦ rw stop (dispatch_next_task-Sound client s v)
  ]

  -- The idle queue is no part of what is kept.
  pub idle-Sound :
      (idle : List ℕ) (ids : List (ℕ × Unit {0})) (s : MasterServer)
      → Sound from s
      → Sound from (record s { idle_workers = idle; idle_workers_ids = ids })
  unfolding tally
  idle-Sound idle ids s v = record {
    distinct = v.distinct;
    fresh = v.fresh;
    room = v.room;
    same_sessions = v.same_sessions;
    same_next = v.same_next;
    same_tasks = v.same_tasks;
  }

  pub wake_worker-Sound :
      (worker : ℕ) (others : List ℕ) (s : MasterServer)
      → Sound from s
      → Sound from (wake_worker worker others s)
  unfolding wake_worker
  wake_worker-Sound worker others s v = elim (Option-cases (lookup worker s.workers_free_slots)) [
    | inl gone ↦ rw (gone, wake_worker) (idle-Sound others s.idle_workers_ids s v)
    | inr (threads_count, known) ↦
        rw (known, wake_worker)
          (dispatch_up_to-Sound threads_count worker _
            (idle-Sound others (remove worker s.idle_workers_ids) s v))
  ]

  assign_loop-Sound : (fuel : ℕ) (s : MasterServer) → Sound from s → Sound from (assign_loop fuel s)
  unfolding assign_loop
  assign_loop-Sound zero s v = v
  assign_loop-Sound (suc fuel) s v =
      turn s.idle_workers s.pending_tasks
        (λ w ws. assign_loop-Sound fuel _ (wake_worker-Sound w ws s v))
    where
      turn :
          (idle : List ℕ) (tasks : List TaskPayload)
          → ((w : ℕ) (ws : List ℕ) → Sound from (assign_loop fuel (wake_worker w ws s)))
          → Sound from (assign_turn (assign_loop fuel) idle tasks s)
      turn [] tasks next = v
      turn (w ∷ ws) [] next = v
      turn (w ∷ ws) (t ∷ ts) next = next w ws

  pub assign_idle_workers-Sound :
      (s : MasterServer) → Sound from s → Sound from (assign_idle_workers s)
  unfolding assign_idle_workers
  assign_idle_workers-Sound s v = assign_loop-Sound (suc (length s.idle_workers)) s v
