-- ===== src/Master/Served/Load.antt =====
-- The load of a worker that says hello, and of one that is lost.
use native.Mathlib.Decide.{ℕ_discrete}
use mathlib.Core.List.{Perm}
use log_grid.Base.{
  List, Option, Option-cases, [], ap, arith, inl, inr, refl, some, subst, sym, ℕ, ◌+◌, ◌<◌, ◌^◌,
  ◌≡◌, ◌≢◌,
}
use log_grid.Base.Assoc.{
  Distinct, lookup, lookup-insert_self, lookup-remove_ne, lookup-remove_self, remove, total,
}
use log_grid.Net.Bytes.{from_le}
use log_grid.Net.Message.{Message, pull}
use log_grid.Protocol.{TaskPayload, from_code, worker_hello}
use log_grid.Master.State.{MasterServer, get_or}
use log_grid.Master.Dispatch.{dispatch_up_to}
use log_grid.Master.Dispatch.Tally.{Sound}
use log_grid.Master.Dispatch.Capacity.{Fits, dispatch_up_to-Fits, load}
use log_grid.Master.Handlers.{on_hello, reclaim_tasks, register_worker}
use log_grid.Master.Accounting.{Inv}
use log_grid.Master.Served.Handled.{HasBytes}
use log_grid.Master.Served.Honest.{register_worker-Sound}
use log_grid.Master.Served.Capacity.{register_worker-Fits}

module _ (threads : ℕ → ℕ) where
  -- A worker says hello while it has no task, with the number of its threads.
  abbrev pub Introduces : ℕ → Message → MasterServer → Type 0
  Introduces client msg s =
      from_code msg.id ≡ some worker_hello
      → (load client s ≡ 0)
        × ((raw : List ℕ) (rest : Message)
            → pull 8 msg ≡ some (raw, rest)
            → from_le raw ≡ threads client)

  -- What the workers send: bytes, and their hellos as above.
  abbrev pub Introduced : ℕ → Message → MasterServer → Type 0
  Introduced client msg s = HasBytes client msg s × Introduces client msg s

  module _ (threads_u64 : (w : ℕ) → threads w < 2 ^ 64) where
    pub hello-Fits :
        (client : ℕ) (msg : Message) (s : MasterServer)
        → Sound s s
        → Fits threads s
        → load client s ≡ 0
        → ((raw : List ℕ) (rest : Message)
            → pull 8 msg ≡ some (raw, rest)
            → from_le raw ≡ threads client)
        → Fits threads (on_hello client msg s)
    unfolding on_hello
    hello-Fits client msg s sound v none_there says = elim (Option-cases (pull 8 msg)) [
      | inl short ↦ rw (short, on_hello) v
      | inr ((raw, rest), popped) ↦
          let same = says raw rest popped in
          rw (popped, on_hello)
            (subst (λ n. Fits threads (dispatch_up_to n client (register_worker client n s)))
              (sym same)
              (dispatch_up_to-Fits threads client (threads client) _ (threads_u64 client)
                (registered client s) (register_worker-Sound client (threads client) s sound)
                (register_worker-Fits threads threads_u64 client s v none_there)))
    ]
      where
        registered :
            (c : ℕ) (r : MasterServer)
            → lookup c (register_worker c (threads c) r).workers_free_slots ≡ some (threads c)
        registered c r =
            unfold register_worker in lookup-insert_self c (threads c) r.workers_free_slots

    module _ (walk : List (ℕ × TaskPayload) → List (ℕ × TaskPayload))
        (walk-perm : (ts : List (ℕ × TaskPayload)) → Perm (walk ts) ts) where
      pub lost-Fits :
          (client : ℕ) (s : MasterServer)
          → Inv s
          → Fits threads s
          → Distinct s.workers_free_slots
          → Fits threads (reclaim_tasks walk client s)
      unfolding reclaim_tasks
      lost-Fits client s inv v distinct = elim (Option-cases (lookup client s.in_flight_tasks)) [
        | inl idle ↦
            rw (idle, reclaim_tasks)
              (gone s.in_flight_tasks
                (ap (λ (o : Option (List (ℕ × TaskPayload))). total (λ t. 1) (get_or o [])) idle)
                (λ w apart. refl))
        | inr (tasks, busy) ↦
            rw (busy, reclaim_tasks)
              (gone (remove client s.in_flight_tasks)
                (ap (λ (o : Option (List (ℕ × TaskPayload))). total (λ t. 1) (get_or o []))
                  (lookup-remove_self client s.in_flight_tasks inv.distinct))
                (λ w apart.
                  ap (λ (o : Option (List (ℕ × TaskPayload))). total (λ t. 1) (get_or o []))
                    (lookup-remove_ne client w s.in_flight_tasks apart)))
      ]
        where
          load_in : ℕ → List (ℕ × List (ℕ × TaskPayload)) → ℕ
          load_in w m = total (λ t. 1) (get_or (lookup w m) [])

          gone :
              (m : List (ℕ × List (ℕ × TaskPayload)))
              → load_in client m ≡ 0
              → ((w : ℕ) → client ≢ w → load_in w m ≡ load w s)
              → (w : ℕ)
              → get_or (lookup w (remove client s.workers_free_slots)) (threads w) + load_in w m
                ≡ threads w
          gone m none_left others w = elim (ℕ_discrete client w) [
            | yes same ↦
                let all =
                  ap (λ (o : Option ℕ). get_or o (threads client))
                    (lookup-remove_self client s.workers_free_slots distinct) in
                let here : get_or (lookup client (remove client s.workers_free_slots))
                        (threads client)
                      + load_in client m
                    ≡ threads client =
                  omega (arith, all, none_left) in
                subst
                  (λ k.
                    get_or (lookup k (remove client s.workers_free_slots)) (threads k) + load_in k m
                    ≡ threads k)
                  same here
            | no apart ↦ omega (
              arith,
              others w apart,
              v w,
              ap (λ (o : Option ℕ). get_or o (threads w))
                  (lookup-remove_ne client w s.workers_free_slots apart),
            )
          ]
