-- ===== src/Master/Served/Busy.antt =====
-- The queue of idle workers under every call: OnClientDisconnect, StartSearch and OnMessage.
use mathlib.Core.Option.{some-ne-none}
use native.Mathlib.Decide.{ℕ_discrete}
use log_grid.Base.{
  Bool, List, Option, Option-cases, [], ap, arith, inl, inr, none, refl, some, subst, sym, true, ℕ,
  ◌∙◌, ◌≡◌, ◌≢◌,
}
use log_grid.Base.Assoc.{Distinct-remove, lookup, lookup-remove_ne, lookup-remove_self, remove}
use log_grid.Protocol.{TaskPayload}
use log_grid.Master.State.{
  MasterServer, SearchSession, add_pending_tasks, allocate_search_id, get_or, is_some,
}
use log_grid.Master.Dispatch.{assign_idle_workers}
use log_grid.Master.Dispatch.Idle.{assign_idle_workers-LeavesIdle}
use log_grid.Master.Dispatch.Roster.{IsIdle, times}
use log_grid.Master.Dispatch.Waking.{Ready, assign_idle_workers-Ready}
use log_grid.Master.Handlers.{on_client_disconnect, push_all_front, reclaim_tasks}
use log_grid.Master.Start.{Environment}
use log_grid.Master.Promises.{Untouched, reserved_id}
use log_grid.Master.Promises.Searches.{start_search-Promise}
use log_grid.Master.Served.{
  Published, Served, begins, loses_worker, refuses, searches, takes_message,
}
use log_grid.Master.Served.Handled.{HasBytes, on_message-Working}
use log_grid.Master.Served.Working.{Working}

module _ (can_open : List ℕ → Bool) (walk : List (ℕ × TaskPayload) → List (ℕ × TaskPayload)) where
  lost-Ready : (client : ℕ) (s : MasterServer) → Working s → Ready (reclaim_tasks walk client s)
  unfolding reclaim_tasks
  lost-Ready client s v = elim (Option-cases (lookup client s.in_flight_tasks)) [
    | inl idle ↦ rw (idle, reclaim_tasks) (gone s.pending_tasks s.in_flight_tasks)
    | inr (tasks, busy) ↦
        rw (busy, reclaim_tasks)
          (gone (push_all_front (walk tasks) s.pending_tasks) (remove client s.in_flight_tasks))
  ]
    where
      other :
          (w : ℕ)
          → is_some (lookup w (remove client s.idle_workers_ids)) ≡ true
          → (client ≢ w) × IsIdle w s
      other w idle = elim (ℕ_discrete client w) [
        | yes same ↦
            let removed =
              lookup-remove_self client s.idle_workers_ids v.ready.roster.distinct_ids in
            let none_there : lookup w (remove client s.idle_workers_ids) ≡ none =
              subst (λ k. lookup k (remove client s.idle_workers_ids) ≡ none) same removed in
            absurd (ground arith)
        | no apart ↦
            (apart, ap is_some (sym (lookup-remove_ne client w s.idle_workers_ids apart)) ∙ idle)
      ]

      still_there :
          (w n : ℕ)
          → lookup w (remove client s.workers_free_slots) ≡ some n
          → (client ≢ w) × (lookup w s.workers_free_slots ≡ some n)
      still_there w n e = elim (ℕ_discrete client w) [
        | yes same ↦
            let removed =
              lookup-remove_self client s.workers_free_slots v.ready.roster.distinct_slots in
            let none_there : lookup w (remove client s.workers_free_slots) ≡ none =
              subst (λ k. lookup k (remove client s.workers_free_slots) ≡ none) same removed in
            absurd (some-ne-none n (sym e ∙ none_there))
        | no apart ↦ (apart, sym (lookup-remove_ne client w s.workers_free_slots apart) ∙ e)
      ]

      gone :
          (p : List TaskPayload) (m : List (ℕ × List (ℕ × TaskPayload)))
          → Ready (record s {
            pending_tasks = p;
            in_flight_tasks = m;
            workers_free_slots = remove client s.workers_free_slots;
            idle_workers_ids = remove client s.idle_workers_ids;
          })
      gone p m = record {
        roster = record {
          queued = λ w idle. v.ready.roster.queued w (other w idle).1;
          registered = λ w idle.
              let (apart, was) = other w idle in
              ap is_some (lookup-remove_ne client w s.workers_free_slots apart)
              ∙ v.ready.roster.registered w was;
          slots_u64 = λ w n e. v.ready.roster.slots_u64 w n (still_there w n e).1;
          distinct_slots =
              Distinct-remove client s.workers_free_slots v.ready.roster.distinct_slots;
          distinct_ids = Distinct-remove client s.idle_workers_ids v.ready.roster.distinct_ids;
        };
        all_rest = λ w n e free.
            let (apart, was) = still_there w n e in
            ap is_some (lookup-remove_ne client w s.idle_workers_ids apart)
            ∙ v.ready.all_rest w n was free;
      }

  assigned-Working : (s : MasterServer) → Ready s → Working (assign_idle_workers s)
  assigned-Working s v = record {
    ready = assign_idle_workers-Ready s v;
    settled = assign_idle_workers-LeavesIdle s;
  }

  lost-Working :
      (client : ℕ) (s : MasterServer) → Working s → Working (on_client_disconnect walk client s)
  unfolding on_client_disconnect
  lost-Working client s v = assigned-Working _ (lost-Ready client s v)

  reserved-Ready : (s : MasterServer) → Ready s → Ready (reserved_id s)
  reserved-Ready s v = record {
    roster = record {
      queued = v.roster.queued;
      registered = v.roster.registered;
      slots_u64 = v.roster.slots_u64;
      distinct_slots = v.roster.distinct_slots;
      distinct_ids = v.roster.distinct_ids;
    };
    all_rest = v.all_rest;
  }

  published-Ready :
      (session : SearchSession) (tasks : List TaskPayload) (s : MasterServer)
      → Ready s
      → Ready (add_pending_tasks session tasks (allocate_search_id s).1)
  unfolding add_pending_tasks allocate_search_id
  published-Ready session tasks s v = record {
    roster = record {
      queued = v.roster.queued;
      registered = v.roster.registered;
      slots_u64 = v.roster.slots_u64;
      distinct_slots = v.roster.distinct_slots;
      distinct_ids = v.roster.distinct_ids;
    };
    all_rest = v.all_rest;
  }

  Untouched-Working : (s s' : MasterServer) → Untouched s s' → Working s → Working s'
  Untouched-Working s s' (inl e) v = subst Working (sym e) v
  Untouched-Working s s' (inr e) v =
      subst Working (sym e) (record { ready = reserved-Ready s v.ready; settled = v.settled })

  pub Served-Working :
      (env : Environment) (log : List (ℕ × Published)) (s : MasterServer)
      → Served can_open walk env HasBytes log s
      → Working s
  Served-Working env log s begins = record {
    ready = record {
      roster = record {
        queued = λ w idle. absurd (ground arith);
        registered = λ w idle. absurd (ground arith);
        slots_u64 = λ w n e. absurd (some-ne-none n (sym e));
        distinct_slots = tt;
        distinct_ids = tt;
      };
      all_rest = λ w n e free. absurd (some-ne-none n (sym e));
    };
    settled = inl refl;
  }
  Served-Working env log s (takes_message client msg before bytes room e) =
      on_message-Working client _ (Served-Working env _ _ before) can_open msg s bytes e
  Served-Working env log s (loses_worker client before room) =
      lost-Working client _ (Served-Working env _ _ before)
  Served-Working env log s (refuses r before ids e) =
      Untouched-Working _ s
        (start_search-Promise env r.fs r.keyword r.config r.depth r.filepath _ none s e)
        (Served-Working env _ _ before)
  Served-Working env log s (searches r id acc before ids room e c) =
      let promise =
        start_search-Promise env r.fs r.keyword r.config r.depth r.filepath _ (some id) s e in
      subst Working (sym promise.published) (
        assigned-Working _
          (published-Ready _ promise.acc.out_tasks _ (Served-Working env _ _ before).ready))

  -- No free slot is forgotten while the calls of the master do not overlap: after any sequence of whole
  -- calls of OnMessage, OnClientDisconnect and StartSearch, one after the other, from its start on, with
  -- messages of any bytes, as long as a task waits, no worker has a free slot, so none waits to be
  -- woken. The 64-bit ids do not run out. Nothing is claimed of calls that overlap.
  pub no_idle_slot-Served :
      (env : Environment) (log : List (ℕ × Published)) (s : MasterServer) (w : ℕ)
      → Served can_open walk env HasBytes log s
      → s.pending_tasks ≢ []
      → get_or (lookup w s.workers_free_slots) 0 ≡ 0
  no_idle_slot-Served env log s w work waiting =
      let v = Served-Working env log s work in
      elim (Option-cases (lookup w s.workers_free_slots)) [
        | inl unknown ↦ ap (λ (o : Option ℕ). get_or o 0) unknown
        | inr (n, known) ↦ ap (λ (o : Option ℕ). get_or o 0) known ∙ none_free v n known
      ]
    where
      none_free : Working s → (n : ℕ) → lookup w s.workers_free_slots ≡ some n → n ≡ 0
      none_free v n known = elim (ℕ_discrete n 0) [
        | yes nothing ↦ nothing
        | no some_free ↦ elim v.settled [
          | inl drained ↦ absurd (waiting drained)
          | inr none_idle ↦
              let queued = v.ready.roster.queued w (v.ready.all_rest w n known (omega arith)) in
              absurd (omega (arith, queued, ap (times w) none_idle))
        ]
      ]
