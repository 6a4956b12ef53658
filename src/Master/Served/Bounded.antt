-- ===== src/Master/Served/Bounded.antt =====
-- The load of the workers under every call: OnClientDisconnect, StartSearch and OnMessage.
use mathlib.Core.List.{Perm}
use log_grid.Base.{
  Bool, List, Option, Option-cases, [], ap, arith, inl, inr, length, none, refl, subst, sym, true,
  ℕ, ◌<◌, ◌^◌, ◌∷◌, ◌≡◌, ◌≢◌, ◌≤◌,
}
use log_grid.Base.Assoc.{lookup, total}
use log_grid.Protocol.{TaskPayload}
use log_grid.Master.State.{MasterServer, get_or, is_some}
use log_grid.Master.Dispatch.{tasks_of}
use log_grid.Master.Dispatch.Capacity.{Fits, assign_idle_workers-Fits}
use log_grid.Master.Handlers.{on_client_disconnect}
use log_grid.Master.Start.{Environment}
use log_grid.Master.Accounting.{Inv-Sound}
use log_grid.Master.Books.Reclaim.{reclaim_tasks-Sound}
use log_grid.Master.Promises.{Untouched}
use log_grid.Master.Promises.Searches.{start_search-Promise}
use log_grid.Master.Served.{
  Published, Served, begins, loses_worker, refuses, searches, takes_message,
}
use log_grid.Master.Served.Begun.{start_search-Begun}
use log_grid.Master.Served.Busy.{Served-Working, no_idle_slot-Served}
use log_grid.Master.Served.Handled.{HasBytes}
use log_grid.Master.Served.Load.{Introduced, hello-Fits, lost-Fits}
use log_grid.Master.Served.Capacity.{next-Fits, results-Fits}
use log_grid.Master.Served.Keeping.{on_message-keeps}
use log_grid.Master.Served.Kept.{Served-Inv}

module _ (can_open : List ℕ → Bool) (walk : List (ℕ × TaskPayload) → List (ℕ × TaskPayload))
    (walk-perm : (ts : List (ℕ × TaskPayload)) → Perm (walk ts) ts) (env : Environment)
    (threads : ℕ → ℕ) (threads_u64 : (w : ℕ) → threads w < 2 ^ 64) where
  forget-Introduced :
      (log : List (ℕ × Published)) (s : MasterServer)
      → Served can_open walk env (Introduced threads) log s
      → Served can_open walk env HasBytes log s
  forget-Introduced log s begins = begins
  forget-Introduced log s (takes_message client msg before may room e) =
      takes_message client msg (forget-Introduced _ _ before) may.0 room e
  forget-Introduced log s (loses_worker client before room) =
      loses_worker client (forget-Introduced _ _ before) room
  forget-Introduced log s (refuses r before ids e) = refuses r (forget-Introduced _ _ before) ids e
  forget-Introduced log s (searches r id acc before ids room e c) =
      searches r id acc (forget-Introduced _ _ before) ids room e c

  Served-Fits :
      (log : List (ℕ × Published)) (s : MasterServer)
      → Served can_open walk env (Introduced threads) log s
      → Fits threads s
  unfolding on_client_disconnect
  Served-Fits log s begins w = omega arith
  Served-Fits log s (takes_message client msg before may room e) w =
      let v = Served-Fits _ _ before in
      let inv = Served-Inv can_open walk walk-perm env (Introduced threads) _ _ before in
      on_message-keeps (Fits threads) (results-Fits threads threads_u64) can_open client _ v
        (λ task_id t there. next-Fits threads threads_u64 client _ v task_id t inv there room) msg s
        (λ hello.
          let (none_there, says) = may.1 hello in
          hello-Fits threads threads_u64 client msg _ (Inv-Sound room inv) v none_there says)
        e w
  Served-Fits log s (loses_worker client before room) w =
      let inv = Served-Inv can_open walk walk-perm env (Introduced threads) _ _ before in
      let working = Served-Working can_open walk env _ _ (forget-Introduced _ _ before) in
      let lost =
        lost-Fits threads threads_u64 walk walk-perm client _ inv (Served-Fits _ _ before)
          working.ready.roster.distinct_slots in
      let sound = reclaim_tasks-Sound walk walk-perm client _ inv.distinct inv.fresh room in
      assign_idle_workers-Fits threads threads_u64 _ sound lost w
  Served-Fits log s (refuses r before ids e) w =
      untouched _ s (start_search-Promise env r.fs r.keyword r.config r.depth r.filepath _ none s e)
        (Served-Fits _ _ before) w
    where
      untouched : (q q' : MasterServer) → Untouched q q' → Fits threads q → Fits threads q'
      untouched q q' (inl same) v = subst (Fits threads) (sym same) v
      untouched q q' (inr same) v = subst (Fits threads) (sym same) v
  Served-Fits log s (searches r id acc before ids room e c) w =
      let inv = Served-Inv can_open walk walk-perm env (Introduced threads) _ _ before in
      let b = start_search-Begun env r _ ids inv id acc s room e c in
      let v = Served-Fits _ _ before in
      let ready-Fits : Fits threads b.ready = λ k. omega (
        arith,
        v k,
        ap (λ m. get_or (lookup k m) (threads k)) b.same_slots,
        ap (λ m. total (λ t. 1) (get_or (lookup k m) [])) b.same_in_flight,
      ) in
      subst (Fits threads) (sym b.assigned)
        (assign_idle_workers-Fits threads threads_u64 b.ready b.orderly ready-Fits) w

  length-load : (ts : List (ℕ × TaskPayload)) → total (λ t. 1) ts ≡ length ts
  length-load [] = refl
  length-load (t ∷ ts) = omega (arith, length-load ts)

  -- The workers are used to the full and not beyond, while the calls of the master do not overlap: after
  -- any sequence of whole calls of OnMessage, OnClientDisconnect and StartSearch, one after the other,
  -- from its start on, no worker has more tasks in flight than threads; and as long as a task waits,
  -- each worker that is registered has a task for every thread. A worker says hello while it has no
  -- task, always with the same 64-bit number of threads; all else that workers send is arbitrary, of
  -- bytes, and the 64-bit ids do not run out. Nothing is claimed of calls that overlap.
  pub full_load-Served :
      (log : List (ℕ × Published)) (s : MasterServer) (w : ℕ)
      → Served can_open walk env (Introduced threads) log s
      → (length (tasks_of w s) ≤ threads w)
        × (s.pending_tasks ≢ []
            → is_some (lookup w s.workers_free_slots) ≡ true
            → length (tasks_of w s) ≡ threads w)
  full_load-Served log s w work =
      let fits = Served-Fits log s work w in
      let count = length-load (tasks_of w s) in
      (
        omega (arith, fits, count),
        λ waiting registered. elim (Option-cases (lookup w s.workers_free_slots)) [
          | inl unknown ↦ absurd (ground arith)
          | inr (n, known) ↦
              let none_free =
                no_idle_slot-Served can_open walk env log s w (forget-Introduced log s work)
                  waiting in
              omega (
                arith,
                fits,
                count,
                none_free,
                ap (λ (o : Option ℕ). get_or o 0) known,
                ap (λ (o : Option ℕ). get_or o (threads w)) known,
              )
        ],
      )
