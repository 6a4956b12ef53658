-- ===== src/Master/Promises/Publishing.antt =====
-- The promises of AllocateSearchId, AddPendingTasks and GetStatus.
use mathlib.Core.Option.{some-ne-none}
use log_grid.Base.{List, Option-cases, inl, inr, refl, ℕ}
use log_grid.Base.Assoc.{lookup, lookup-insert_ne, lookup-insert_self}
use log_grid.Protocol.{TaskPayload}
use log_grid.Master.State.{
  MasterServer, SearchSession, add_pending_tasks, allocate_search_id, get_status,
}
use log_grid.Master.Promises.{PublishPromise, ReservePromise, StatusPromise}

-- AllocateSearchId keeps its promise: it gives out the next id and only counts it.
pub allocate_search_id-Promise : (s : MasterServer) → ReservePromise s (allocate_search_id s)
unfolding allocate_search_id
allocate_search_id-Promise s = (refl, refl)

-- AddPendingTasks keeps its promise: session and tasks appear together, and no other session changes.
pub add_pending_tasks-Promise :
    (session : SearchSession) (new_tasks : List TaskPayload) (s : MasterServer)
    → PublishPromise session new_tasks s (add_pending_tasks session new_tasks s)
unfolding add_pending_tasks
add_pending_tasks-Promise session new_tasks s = record {
  inserted = lookup-insert_self session.search_id _ s.sessions;
  others = λ id apart. lookup-insert_ne session.search_id id _ s.sessions apart;
  appended = refl;
  same_in_flight = refl;
}

-- GetStatus keeps its promise: it finds nothing exactly where there is no session.
pub get_status-Promise : (id : ℕ) (s : MasterServer) → StatusPromise id s (get_status s id)
unfolding get_status
get_status-Promise id s = elim (Option-cases (lookup id s.sessions)) [
  | inl unknown ↦ rw unknown ((λ e. refl), λ e. refl)
  | inr (session, known) ↦
      rw known ((λ e. absurd (some-ne-none _ e)), λ e. absurd (some-ne-none _ e))
]
