-- ===== src/Master/Served/Working.antt =====
-- The workers in between two calls, and what Worker_Hello and Worker_TaskDone do to their slots.
use log_grid.Base.{
  List, Option, Option-cases, ap, arith, inl, inr, some, sym, ℕ, ◌%◌, ◌+◌, ◌<◌, ◌^◌, ◌∙◌, ◌≡◌,
}
use log_grid.Base.Assoc.{
  Distinct-insert, lookup, lookup-insert, lookup-insert_ne, lookup-insert_self,
}
use log_grid.Protocol.{TaskPayload}
use log_grid.Master.State.{MasterServer, SearchSession, get_or}
use log_grid.Master.Dispatch.{dispatch_next_task, dispatch_up_to}
use log_grid.Master.Dispatch.Idle.{Settled, dispatch_next_task-Settled, dispatch_up_to-Settled}
use log_grid.Master.Dispatch.Roster.{
  AllRest, OthersRest, Roster, dispatch_next_task-AllRest, dispatch_next_task-Roster,
  dispatch_up_to-AllRest, dispatch_up_to-Roster,
}
use log_grid.Master.Dispatch.Waking.{Ready}
use log_grid.Master.Handlers.{free_slot, register_worker}
use log_grid.Master.Served.Answered.{with_results}

-- In between two calls.
pub record Working (s : MasterServer) : Type 0 where
  pub ready : Ready s
  pub settled : Settled s

-- Neither tasks in flight nor results are part of it.
pub results-Working :
    (m : List (ℕ × SearchSession)) (w : List (List ℕ × List ℕ)) (s : MasterServer)
    → Working s
    → Working (with_results m w s)
results-Working m w s v = record {
  ready = record {
    roster = record {
      queued = v.ready.roster.queued;
      registered = v.ready.roster.registered;
      slots_u64 = v.ready.roster.slots_u64;
      distinct_slots = v.ready.roster.distinct_slots;
      distinct_ids = v.ready.roster.distinct_ids;
    };
    all_rest = v.ready.all_rest;
  };
  settled = v.settled;
}

module _ (client : ℕ) (s : MasterServer) (v : Working s) where
  register_worker-Roster :
      (threads : ℕ) → threads < 2 ^ 64 → Roster (register_worker client threads s)
  unfolding register_worker
  register_worker-Roster threads small = record {
    queued = v.ready.roster.queued;
    registered = λ w idle. ground (
      arith,
      lookup-insert client w threads s.workers_free_slots,
      v.ready.roster.registered w idle,
    );
    slots_u64 = λ w n e.
        ground (
          arith,
          lookup-insert client w threads s.workers_free_slots,
          v.ready.roster.slots_u64 w n,
        );
    distinct_slots =
        Distinct-insert client threads s.workers_free_slots v.ready.roster.distinct_slots;
    distinct_ids = v.ready.roster.distinct_ids;
  }

  register_worker-OthersRest : (threads : ℕ) → OthersRest client (register_worker client threads s)
  unfolding register_worker
  register_worker-OthersRest threads w apart n e free =
      v.ready.all_rest w n (sym (lookup-insert_ne client w threads s.workers_free_slots apart) ∙ e)
        free

  register_worker-slots :
      (threads : ℕ)
      → lookup client (register_worker client threads s).workers_free_slots ≡ some threads
  unfolding register_worker
  register_worker-slots threads = lookup-insert_self client threads s.workers_free_slots

  register_worker-Settled : (threads : ℕ) → Settled (register_worker client threads s)
  unfolding register_worker
  register_worker-Settled threads = v.settled

  -- A worker that registers is given a task for each of its threads, or rests.
  pub hello-Working :
      (threads : ℕ)
      → threads < 2 ^ 64
      → Working (dispatch_up_to threads client (register_worker client threads s))
  hello-Working threads small = record {
    ready = record {
      roster = dispatch_up_to-Roster client threads _ (register_worker-Roster threads small);
      all_rest =
          dispatch_up_to-AllRest client threads _ small (register_worker-slots threads)
            (register_worker-OthersRest threads);
    };
    settled = dispatch_up_to-Settled threads client _ (register_worker-Settled threads);
  }

  module _ (m : List (ℕ × List (ℕ × TaskPayload))) where
    -- With the task taken off.
    abbrev freed : MasterServer
    freed = free_slot client (record s { in_flight_tasks = m })

    freed-Roster : Roster freed
    unfolding free_slot
    freed-Roster =
        let slots = get_or (lookup client s.workers_free_slots) 0 in
        let now = (slots + 1) % 2 ^ 64 in
        record {
          queued = v.ready.roster.queued;
          registered = λ w idle. ground (
            arith,
            lookup-insert client w now s.workers_free_slots,
            v.ready.roster.registered w idle,
          );
          slots_u64 = λ w n e. ground (
            arith,
            lookup-insert client w now s.workers_free_slots,
            v.ready.roster.slots_u64 w n,
          );
          distinct_slots =
              Distinct-insert client now s.workers_free_slots v.ready.roster.distinct_slots;
          distinct_ids = v.ready.roster.distinct_ids;
        }

    freed-OthersRest : OthersRest client freed
    unfolding free_slot
    freed-OthersRest w apart n e free =
        v.ready.all_rest w n (sym (lookup-insert_ne client w _ s.workers_free_slots apart) ∙ e) free

    freed-AllRest : AllRest (dispatch_next_task client freed).1
    unfolding free_slot
    freed-AllRest = elim (Option-cases (lookup client s.workers_free_slots)) [
      | inl unknown ↦
          dispatch_next_task-AllRest client 0 freed (omega arith)
            (lookup-insert_self client _ s.workers_free_slots
              ∙ ap (λ (o : Option ℕ). some ((get_or o 0 + 1) % 2 ^ 64)) unknown)
            (λ free. absurd (omega (arith, free))) freed-OthersRest
      | inr (n, known) ↦
          dispatch_next_task-AllRest client n freed (v.ready.roster.slots_u64 client n known)
            (lookup-insert_self client _ s.workers_free_slots
              ∙ ap (λ (o : Option ℕ). some ((get_or o 0 + 1) % 2 ^ 64)) known)
            (λ free. v.ready.all_rest client n known free) freed-OthersRest
    ]

    freed-Settled : Settled freed
    unfolding free_slot
    freed-Settled = v.settled

    pub finished-Working : Working (dispatch_next_task client freed).1
    finished-Working = record {
      ready = record {
        roster = dispatch_next_task-Roster client freed freed-Roster;
        all_rest = freed-AllRest;
      };
      settled = dispatch_next_task-Settled client freed freed-Settled;
    }
