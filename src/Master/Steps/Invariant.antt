-- ===== src/Master/Steps/Invariant.antt =====
-- The books of the master in any order of steps.
use native.Mathlib.Decide.{dec_lt}
use mathlib.Core.List.{Perm}
use log_grid.Base.{
  List, Option, arith, inl, inr, none, refl, some, subst, ℕ, ◌+◌, ◌<◌, ◌^◌, ◌↔◌, ◌≡◌, ◌≤◌, ◌⊎◌,
}
use log_grid.Master.Books.Finish.{Without-InvWith, count_chunk-InvWith, finish_task-Without}
use log_grid.Base.Assoc.{insert, lookup}
use log_grid.Protocol.{ChunkResult, TaskPayload}
use log_grid.Master.State.{MasterServer, SearchSession, SearchStatus, done, get_status}
use log_grid.Master.Dispatch.{take_worker}
use log_grid.Master.Dispatch.Tally.{dispatch_next_task-Sound, tally}
use log_grid.Master.Results.{count_batch}
use log_grid.Master.Handlers.{finish_task}
use log_grid.Master.Accounting.{Inv-Sound, Inv-insert, InvWith, Sound-Inv, one_late, outstanding}
use log_grid.Master.Books.Finish.{Without-InvWith, count_chunk-InvWith, finish_task-Without}
use log_grid.Master.Books.Publish.{
  add_pending_tasks-InvWith, allocate_search_id-InvWith, get_status-done_with, init-Inv,
}
use log_grid.Master.Books.Messages.{register_worker-InvWith, written-InvWith}
use log_grid.Master.Books.Reclaim.{reclaim_tasks-Sound}
use log_grid.Master.Steps.{
  Cluster, Run, Step, add_one, aggregates, allocates, counts, dispatches, drop_one, finishes, more,
  publishes, reclaims, registers, start_cluster, stay, wakes, writes,
}
use log_grid.Master.Steps.Free.{
  IsFree, IsFree-known, IsFree-same, Sound-IsFree, allocate-IsFree, count_chunk-IsFree,
  publish-IsFree, register_worker-IsFree,
}

pub record ClusterInv (c : Cluster) : Type 0 where
  pub books : InvWith c.late c.master
  pub free : (id : ℕ) → IsFree id (c.reserved id) c.master

pub start-ClusterInv : ClusterInv start_cluster
start-ClusterInv = record {
  books = init-Inv;
  free = λ id. record {
    once = omega arith;
    given_out = λ h. absurd (omega arith);
    unknown = λ h. absurd (omega arith);
  };
}

module _ {late : ℕ → ℕ} where
  take_worker-InvWith :
      (worker : ℕ) (others : List ℕ) (slots : Option ℕ) (s : MasterServer)
      → InvWith late s
      → InvWith late (take_worker worker others slots s)
  unfolding tally
  take_worker-InvWith worker others none s v = record {
    distinct = v.distinct;
    fresh = v.fresh;
    books = record { counted = v.books.counted; published = v.books.published };
    unpublished = v.unpublished;
  }
  take_worker-InvWith worker others (some n) s v = record {
    distinct = v.distinct;
    fresh = v.fresh;
    books = record { counted = v.books.counted; published = v.books.published };
    unpublished = v.unpublished;
  }

pub sessions-take_worker :
    (worker : ℕ) (others : List ℕ) (slots : Option ℕ) (s : MasterServer)
    → ((take_worker worker others slots s).sessions ≡ s.sessions)
      × ((take_worker worker others slots s).next_search_id ≡ s.next_search_id)
sessions-take_worker worker others none s = (refl, refl)
sessions-take_worker worker others (some n) s = (refl, refl)

pub sessions-finish_task :
    {late : ℕ → ℕ} (client task_id id : ℕ) (s s' : MasterServer)
    → InvWith late s
    → finish_task client task_id s ≡ some (id, s')
    → (s'.sessions ≡ s.sessions)
      × (s'.next_search_id ≡ s.next_search_id)
      × InvWith (add_one id late) s'
sessions-finish_task {late} client task_id id s s' v e =
    let (t, same, w) = finish_task-Without client task_id id s s' v e in
    (
      w.same_sessions,
      w.same_next,
      subst (λ k. InvWith (add_one k late) s') same (Without-InvWith w v),
    )

-- With one more given out, or one less: what is left of the others.
drop_one_lem : (id k : ℕ) (late : ℕ → ℕ) → 0 < late id → late k ≡ drop_one id late k + one_late id k
drop_one_lem id k late h = ground arith

count_batch-InvWith :
    {late : ℕ → ℕ} (id : ℕ) (session : SearchSession) (batch : ChunkResult) (s : MasterServer)
    → lookup id s.sessions ≡ some session
    → InvWith late s
    → InvWith late (record s { sessions = insert id (count_batch session batch) s.sessions })
unfolding count_batch
count_batch-InvWith {late} id session batch s known v =
    Inv-insert {late' = late} id session (count_batch session batch) s known
      (λ a. record { sum = a.sum; done_u32 = a.done_u32 }) (λ k apart. refl) v

module _ (walk : List (ℕ × TaskPayload) → List (ℕ × TaskPayload))
    (walk-perm : (ts : List (ℕ × TaskPayload)) → Perm (walk ts) ts) where
  pub Step-ClusterInv : {c d : Cluster} → Step walk c d → ClusterInv c → ClusterInv d
  Step-ClusterInv (registers c client threads) v = record {
    books = register_worker-InvWith client threads c.master v.books;
    free = λ id. register_worker-IsFree client threads (v.free id);
  }
  Step-ClusterInv (dispatches c client room) v =
      let sound = dispatch_next_task-Sound client c.master (Inv-Sound room v.books) in
      record { books = Sound-Inv sound v.books; free = λ id. Sound-IsFree sound (v.free id) }
  Step-ClusterInv (wakes c worker others e) v =
      let slots = lookup worker c.master.workers_free_slots in
      let same = sessions-take_worker worker others slots c.master in
      record {
        books = take_worker-InvWith worker others slots c.master v.books;
        free = λ id. IsFree-same same.0 same.1 (v.free id);
      }
  Step-ClusterInv (finishes c client task_id id s e) v =
      let done = sessions-finish_task client task_id id c.master s v.books e in
      record { books = done.2; free = λ k. IsFree-same done.0 done.1 (v.free k) }
  Step-ClusterInv (aggregates c id session batch h known) v = record {
    books = count_batch-InvWith id session batch c.master known v.books;
    free = λ k. IsFree-known id _ known refl refl (v.free k);
  }
  Step-ClusterInv (writes c path text) v = record {
    books = written-InvWith _ c.master v.books;
    free = λ id. IsFree-same refl refl (v.free id);
  }
  Step-ClusterInv (counts c id h) v = record {
    books = count_chunk-InvWith id c.master (λ k. drop_one_lem id k c.late h) v.books;
    free = λ k. count_chunk-IsFree id (v.free k);
  }
  Step-ClusterInv (allocates c room) v = record {
    books = (allocate_search_id-InvWith c.master room v.books).0;
    free = λ id. allocate-IsFree id c.reserved c.master room v.books.unpublished (v.free id);
  }
  Step-ClusterInv (publishes c session tasks h new) v =
      let f = v.free session.search_id in
      record {
        books =
            add_pending_tasks-InvWith session tasks c.master new.own new.none_done (f.unknown h)
              v.books (f.given_out h);
        free = λ id. publish-IsFree id c.reserved session tasks c.master (v.free id);
      }
  Step-ClusterInv (reclaims c client room) v =
      let sound =
        reclaim_tasks-Sound walk walk-perm client c.master v.books.distinct v.books.fresh room in
      record { books = Sound-Inv sound v.books; free = λ id. Sound-IsFree sound (v.free id) }

  pub Run-ClusterInv : {c d : Cluster} → Run walk c d → ClusterInv c → ClusterInv d
  Run-ClusterInv stay v = v
  Run-ClusterInv (more r st) v = Step-ClusterInv st (Run-ClusterInv r v)

  -- In every order of the locked sections of OnMessage, StartSearch, OnClientDisconnect and the rest,
  -- from the start of the master on, GetStatus reports a known search as done exactly when none of its
  -- chunks waits, is in flight or is being handled, as long as there are less than 2 ^ 32 of those and
  -- the 64-bit ids do not run out.
  pub get_status-Run :
      (c : Cluster) (id : ℕ) (status : SearchStatus)
      → Run walk start_cluster c
      → outstanding id c.master + c.late id < 2 ^ 32
      → get_status c.master id ≡ some status
      → (status.state ≡ done) ↔ (outstanding id c.master + c.late id ≡ 0)
  get_status-Run c id status r small known =
      get_status-done_with id c.master status (Run-ClusterInv r start-ClusterInv).books small known

  -- In every such order no two calls of StartSearch hold the same id: an id that was given out and
  -- whose search is not published is held by one call, and is not the id of a known search, as long
  -- as the 64-bit ids do not run out.
  pub reserved-Run :
      (c : Cluster) (id : ℕ)
      → Run walk start_cluster c
      → (c.reserved id ≤ 1) × ((c.reserved id ≡ 0) ⊎ (lookup id c.master.sessions ≡ none))
  reserved-Run c id r =
      let f = (Run-ClusterInv r start-ClusterInv).free id in
      (
        f.once,
        elim (dec_lt 0 (c.reserved id)) [
          | yes held ↦ inr (f.unknown held)
          | no not_held ↦ inl (omega arith)
        ],
      )
