-- ===== src/Master/Dispatch/Waking.antt =====
-- AssignIdleWorkers, and the workers with a free slot.
use log_grid.Base.{
  List, Option-cases, [], ap, arith, inl, inr, length, none, refl, some, subst, suc, sym, zero, ℕ,
  ◌<◌, ◌∙◌, ◌∷◌, ◌≡◌, ◌≢◌,
}
use log_grid.Base.Assoc.{Distinct-remove, lookup, lookup-remove_ne, lookup-remove_self, remove}
use log_grid.Protocol.{TaskPayload}
use log_grid.Master.State.{MasterServer, is_some}
use log_grid.Master.Dispatch.{
  assign_idle_workers, assign_loop, assign_turn, take_worker, wake_worker,
}
use log_grid.Master.Dispatch.Roster.{
  AllRest, IsIdle, OthersRest, Roster, dispatch_up_to-AllRest, dispatch_up_to-Roster, times,
}

-- The workers in between two calls.
pub record Ready (s : MasterServer) : Type 0 where
  pub roster : Roster s
  pub all_rest : AllRest s

module _ (worker : ℕ) (others : List ℕ) (s : MasterServer) (e : s.idle_workers ≡ worker ∷ others)
    (v : Ready s) where
  still_queued : (w : ℕ) → worker ≢ w → IsIdle w s → 0 < times w others
  still_queued w apart idle =
      let before = v.roster.queued w idle in
      let same = ap (times w) e in ground (arith, before, same)

  gone-Ready : lookup worker s.workers_free_slots ≡ none → Ready (take_worker worker others none s)
  gone-Ready gone = record {
    roster = record {
      queued = λ w idle.
          still_queued w
            (λ same.
              let known = v.roster.registered w idle in
              let none_there : lookup w s.workers_free_slots ≡ none =
                subst (λ k. lookup k s.workers_free_slots ≡ none) same gone in
              ground arith)
            idle;
      registered = v.roster.registered;
      slots_u64 = v.roster.slots_u64;
      distinct_slots = v.roster.distinct_slots;
      distinct_ids = v.roster.distinct_ids;
    };
    all_rest = v.all_rest;
  }

  module _ (n : ℕ) (known : lookup worker s.workers_free_slots ≡ some n) where
    abbrev taken : MasterServer
    taken = take_worker worker others (some n) s

    other_ids :
        (w : ℕ)
        → worker ≢ w
        → lookup w (remove worker s.idle_workers_ids) ≡ lookup w s.idle_workers_ids
    other_ids w apart = lookup-remove_ne worker w s.idle_workers_ids apart

    not_itself : (w : ℕ) → IsIdle w taken → worker ≢ w
    not_itself w idle same =
        let removed = lookup-remove_self worker s.idle_workers_ids v.roster.distinct_ids in
        let none_there : lookup w (remove worker s.idle_workers_ids) ≡ none =
          subst (λ k. lookup k (remove worker s.idle_workers_ids) ≡ none) same removed in
        ground arith

    before-IsIdle : (w : ℕ) → IsIdle w taken → IsIdle w s
    before-IsIdle w idle = ap is_some (sym (other_ids w (not_itself w idle))) ∙ idle

    taken-Roster : Roster taken
    taken-Roster = record {
      queued = λ w idle. still_queued w (not_itself w idle) (before-IsIdle w idle);
      registered = λ w idle. v.roster.registered w (before-IsIdle w idle);
      slots_u64 = v.roster.slots_u64;
      distinct_slots = v.roster.distinct_slots;
      distinct_ids = Distinct-remove worker s.idle_workers_ids v.roster.distinct_ids;
    }

    taken-OthersRest : OthersRest worker taken
    taken-OthersRest w apart m here free = ap is_some (other_ids w apart) ∙ v.all_rest w m here free

  pub wake_worker-Ready : Ready (wake_worker worker others s)
  unfolding wake_worker
  wake_worker-Ready = elim (Option-cases (lookup worker s.workers_free_slots)) [
    | inl gone ↦ rw (gone, wake_worker) (gone-Ready gone)
    | inr (n, known) ↦
        rw (known, wake_worker)
          (record {
            roster = dispatch_up_to-Roster worker n _ (taken-Roster n known);
            all_rest =
                dispatch_up_to-AllRest worker n _ (v.roster.slots_u64 worker n known) known
                  (taken-OthersRest n known);
          })
  ]

assign_loop-Ready : (fuel : ℕ) (s : MasterServer) → Ready s → Ready (assign_loop fuel s)
unfolding assign_loop
assign_loop-Ready zero s v = v
assign_loop-Ready (suc fuel) s v =
    turn s.idle_workers s.pending_tasks refl
      (λ w ws e. assign_loop-Ready fuel _ (wake_worker-Ready w ws s e v))
  where
    turn :
        (idle : List ℕ) (tasks : List TaskPayload)
        → s.idle_workers ≡ idle
        → ((w : ℕ) (ws : List ℕ)
            → s.idle_workers ≡ w ∷ ws
            → Ready (assign_loop fuel (wake_worker w ws s)))
        → Ready (assign_turn (assign_loop fuel) idle tasks s)
    turn [] tasks e next = v
    turn (w ∷ ws) [] e next = v
    turn (w ∷ ws) (t ∷ ts) e next = next w ws e

pub assign_idle_workers-Ready : (s : MasterServer) → Ready s → Ready (assign_idle_workers s)
unfolding assign_idle_workers
assign_idle_workers-Ready s v = assign_loop-Ready (suc (length s.idle_workers)) s v
