-- ===== src/Master/Served/Begun.antt =====
-- What a call of StartSearch changes that starts a search, and one that throws.
use log_grid.Base.{
  List, Option-cases, ap, arith, inl, inr, length, none, refl, some, some_injective, subst, sum_by,
  sym, ℕ, ◌%◌, ◌+◌, ◌<◌, ◌^◌, ◌∙◌, ◌≡◌, ◌≢◌,
}
use log_grid.Base.Assoc.{lookup, lookup-insert_ne, lookup-insert_self}
use log_grid.Protocol.{TaskPayload}
use log_grid.Master.State.{MasterServer, SearchSession, add_pending_tasks, allocate_search_id}
use log_grid.Master.Dispatch.{assign_idle_workers}
use log_grid.Master.Dispatch.Tally.{IgnoresId, Sound, assign_idle_workers-Sound, tally}
use log_grid.Master.Scan.{Scan, SearchConfig}
use log_grid.Master.Scan.Tasks.{IfSome-some, OfSearch}
use log_grid.Master.Start.{
  Environment, build_session, collect_tasks, create_session_file_path, join, make_relative,
}
use log_grid.Master.Start.Keeps.{OwnScan, collect_tasks-OwnScan, published_room}
use log_grid.Master.Accounting.{Inv, Inv-Sound, Sound-Inv}
use log_grid.Master.Books.Publish.{
  add_pending_tasks-Inv, allocate_search_id-Inv, sessions-add_pending_tasks,
  tally-add_pending_tasks,
}
use log_grid.Master.Promises.{Untouched}
use log_grid.Master.Promises.Searches.{start_search-Promise}
use log_grid.Master.Served.{Collects, Published, Request, run_request}

-- A new session for a search: nothing is counted yet.
pub record IsBlank (max_results : ℕ) (session : SearchSession) : Type 0 where
  pub same_max : session.max_results ≡ max_results
  pub no_matches : session.total_matches ≡ 0
  pub no_lines : session.line_count ≡ 0
  pub none_done : session.chunks_done ≡ 0

-- After the search `id` was published: `ready` is the state before idle workers are woken.
pub record Begun (id : ℕ) (p : Published) (from s : MasterServer) : Type 0 where
  pub next_id : id ≡ from.next_search_id
  pub own : OfSearch id p.tasks
  pub session : SearchSession
  pub known : lookup id s.sessions ≡ some session
  pub blank : IsBlank p.max_results session
  pub others : (k : ℕ) → id ≢ k → lookup k s.sessions ≡ lookup k from.sessions
  pub more_tasks : (f : TaskPayload → ℕ) → IgnoresId f → tally f s ≡ tally f from + sum_by f p.tasks
  pub inv : Inv s
  pub ready : MasterServer
  pub orderly : Sound ready ready
  pub assigned : s ≡ assign_idle_workers ready
  pub same_in_flight : ready.in_flight_tasks ≡ from.in_flight_tasks
  pub same_slots : ready.workers_free_slots ≡ from.workers_free_slots

pub build_session-IsBlank :
    (env : Environment) (config : SearchConfig) (id : ℕ) (session : SearchSession)
    → build_session env id config ≡ some session
    → (session.search_id ≡ id) × IsBlank config.max_results session
unfolding build_session
build_session-IsBlank env config id session e =
    IfSome-some (λ (made : SearchSession). (made.search_id ≡ id) × IsBlank config.max_results made)
      (build_session env id config)
      (elim (Option-cases (create_session_file_path env config.output_dir id)) [
        | inl fails ↦ rw fails tt
        | inr (path, made) ↦
            rw made (
              refl,
              record { same_max = refl; no_matches = refl; no_lines = refl; none_done = refl },
            )
      ])
      e

pub Untouched-Inv :
    (s s' : MasterServer) → s.next_search_id + 1 < 2 ^ 64 → Inv s → Untouched s s' → Inv s'
unfolding allocate_search_id
Untouched-Inv s s' ids v (inl e) = subst Inv (sym e) v
Untouched-Inv s s' ids v (inr e) = subst Inv (sym e) (allocate_search_id-Inv s ids v).0

-- Publishing, from the id on: the books, the tasks and the sessions.
module _ (session : SearchSession) (tasks : List TaskPayload) (s : MasterServer)
    (ids : s.next_search_id + 1 < 2 ^ 64)
    (room : s.next_task_id + length s.pending_tasks + length tasks < 2 ^ 64) (v : Inv s)
    (own : OfSearch session.search_id tasks) (next : session.search_id ≡ s.next_search_id)
    (blank : IsBlank session.max_results session) where
  abbrev ready : MasterServer
  ready = add_pending_tasks session tasks (allocate_search_id s).1

  ready-Inv : Inv ready
  unfolding allocate_search_id
  ready-Inv =
      let (kept, given_out, unknown) = allocate_search_id-Inv s ids v in
      add_pending_tasks-Inv session tasks (allocate_search_id s).1 own blank.none_done
        (subst (λ k. lookup k s.sessions ≡ none) (sym next) unknown) kept
        (subst (λ k. k < (allocate_search_id s).1.next_search_id) (sym next) given_out)

  ready_room :
      (allocate_search_id s).1.next_task_id
        + length (allocate_search_id s).1.pending_tasks
        + length tasks
      < 2 ^ 64
  unfolding allocate_search_id
  ready_room = room

  assigned-Sound : Sound ready (assign_idle_workers ready)
  assigned-Sound =
      assign_idle_workers-Sound ready
        (Inv-Sound (published_room session tasks (allocate_search_id s).1 ready_room) ready-Inv)

  same_sessions_before : (allocate_search_id s).1.sessions ≡ s.sessions
  unfolding allocate_search_id
  same_sessions_before = refl

  same_tally_before : (f : TaskPayload → ℕ) → tally f (allocate_search_id s).1 ≡ tally f s
  unfolding allocate_search_id tally
  same_tally_before f = refl

  pub publish-Begun :
      Begun session.search_id
        (record { tasks = tasks; max_results = session.max_results })
        s
        (assign_idle_workers ready)
  publish-Begun =
      let sessions =
        assigned-Sound.same_sessions
        ∙ sessions-add_pending_tasks session tasks (allocate_search_id s).1 in
      record {
        next_id = next;
        own = own;
        session = record session { chunks_total = length tasks % 2 ^ 32 };
        known =
            ap (lookup session.search_id) sessions
            ∙ lookup-insert_self session.search_id _ (allocate_search_id s).1.sessions;
        blank = record {
          same_max = refl;
          no_matches = blank.no_matches;
          no_lines = blank.no_lines;
          none_done = blank.none_done;
        };
        others = λ k apart.
            ap (lookup k) sessions
            ∙ (lookup-insert_ne session.search_id k _ (allocate_search_id s).1.sessions apart
                ∙ ap (lookup k) same_sessions_before);
        more_tasks = λ f ignores. omega (
          arith,
          assigned-Sound.same_tasks f ignores,
          tally-add_pending_tasks session tasks (allocate_search_id s).1 f,
          same_tally_before f,
        );
        inv = Sound-Inv assigned-Sound ready-Inv;
        ready = ready;
        orderly =
            Inv-Sound (published_room session tasks (allocate_search_id s).1 ready_room) ready-Inv;
        assigned = refl;
        same_in_flight = unfold add_pending_tasks allocate_search_id in refl;
        same_slots = unfold add_pending_tasks allocate_search_id in refl;
      }

module _ (env : Environment) (r : Request) (s : MasterServer) (ids : s.next_search_id + 1 < 2 ^ 64)
    (v : Inv s) where
  -- A call that starts a search publishes the tasks that were collected of its target.
  pub start_search-Begun :
      (id : ℕ) (acc : Scan) (s' : MasterServer)
      → s.next_task_id + length s.pending_tasks + length acc.out_tasks < 2 ^ 64
      → run_request env r s ≡ some (some id, s')
      → Collects env r id acc
      → Begun id (record { tasks = acc.out_tasks; max_results = r.config.max_results }) s s'
  start_search-Begun id acc s' room e c =
      let promise =
        start_search-Promise env r.fs r.keyword r.config r.depth r.filepath s (some id) s' e in
      let (same_id, blank) = build_session-IsBlank env r.config id promise.session promise.built in
      let same_base = some_injective (sym c.base_there ∙ promise.found.base_there) in
      let here =
        ap (λ b. r.fs.canonical (join b (make_relative r.filepath))) same_base
        ∙ promise.found.target_there in
      let same_target = some_injective (sym c.target_there ∙ here) in
      let same_acc : acc ≡ promise.acc = some_injective (
        some_injective (
          sym c.collected
          ∙ (ap (λ t. collect_tasks r.fs r.keyword id r.config r.depth t) same_target
              ∙ promise.collected))) in
      let counted = record promise.session { scan_errors = acc.scan_errors } in
      let own =
        IfSome-some (OwnScan r.fs r.keyword id r.config)
          (collect_tasks r.fs r.keyword id r.config r.depth c.target)
          (collect_tasks-OwnScan r.fs r.keyword id r.config r.depth c.target) c.collected in
      let begun =
        publish-Begun counted acc.out_tasks s ids room v
          (subst (λ k. OfSearch k acc.out_tasks) (sym same_id) own) (same_id ∙ promise.next_id)
          (record {
            same_max = refl;
            no_matches = blank.no_matches;
            no_lines = blank.no_lines;
            none_done = blank.none_done;
          }) in
      let published =
        promise.published
        ∙ ap
            (λ a. assign_idle_workers (
              add_pending_tasks (record promise.session { scan_errors = a.scan_errors }) a.out_tasks
                (allocate_search_id s).1))
            (sym same_acc) in
      let of_max : ℕ → Published = λ m. record { tasks = acc.out_tasks; max_results = m } in
      let at_state =
        subst (Begun counted.search_id (of_max counted.max_results) s) (sym published) begun in
      let at_id = subst (λ k. Begun k (of_max counted.max_results) s s') same_id at_state in
      subst (λ m. Begun id (of_max m) s s') blank.same_max at_id
