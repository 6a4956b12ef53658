-- ===== src/Master/Steps/Final.antt =====
-- What is final: what is told of a search that is done.
use mathlib.Core.List.{Perm}
use mathlib.Core.Option
use log_grid.Base.{
  List, Option-cases, ap, arith, inl, inr, refl, some, subst, sym, ℕ, ◌+◌, ◌<◌, ◌^◌, ◌∙◌, ◌≡◌,
}
use log_grid.Base.Assoc.{lookup, lookup-insert_ne}
use log_grid.Protocol.{TaskPayload}
use log_grid.Master.State.{
  MasterServer, SearchSession, SearchStatus, allocate_search_id, done, get_status, status_of,
}
use log_grid.Master.Handlers.{count_chunk, register_worker}
use log_grid.Master.Accounting.{Inv-Sound, outstanding}
use log_grid.Master.Dispatch.Tally.{dispatch_next_task-Sound}
use log_grid.Master.Books.Publish.{sessions-add_pending_tasks}
use log_grid.Master.Books.Reclaim.{reclaim_tasks-Sound}
use log_grid.Master.Steps.{
  Cluster, Run, Step, aggregates, allocates, counts, dispatches, finishes, more, publishes,
  reclaims, registers, start_cluster, stay, wakes, writes,
}
use log_grid.Master.Steps.Invariant.{
  ClusterInv, Run-ClusterInv, get_status-Run, sessions-finish_task, sessions-take_worker,
  start-ClusterInv,
}
use log_grid.Master.Steps.Advance.{Step-Advance}
use log_grid.Master.Steps.Progress.{
  Advance, Progress, appears, completes, handles, nothing, progress, progress_known, published,
  published_eq,
}

-- With nothing open or in handling, nothing can happen.
Advance-final : {d : ℕ} {q : Progress} → Advance (published 0 0 d) q → q ≡ published 0 0 d
Advance-final (nothing same) = sym same
Advance-final (appears n unknown e) = absurd (cc (unknown))
Advance-final (handles o h d here e) = absurd (ground (arith, here))
Advance-final (completes o h d here e) = absurd (ground (arith, here))

-- A known search of which no chunk waits, is in flight or is being handled.
record IsOver (id : ℕ) (session : SearchSession) (c : Cluster) : Type 0 where
  known : lookup id c.master.sessions ≡ some session
  none_open : outstanding id c.master ≡ 0
  none_late : c.late id ≡ 0

count_chunk-sessions_ne :
    (k id : ℕ) (s : MasterServer)
    → ¬ (k ≡ id)
    → lookup id (count_chunk k s).sessions ≡ lookup id s.sessions
unfolding count_chunk
count_chunk-sessions_ne k id s apart = elim (Option-cases (lookup k s.sessions)) [
  | inl unknown ↦ rw (unknown, count_chunk) refl
  | inr (session, known) ↦ rw (known, count_chunk) (lookup-insert_ne k id _ s.sessions apart)
]

published-injective : {o h d d' : ℕ} → published o h d ≡ published 0 0 d' → (o ≡ 0) × (h ≡ 0)
published-injective e = (ground (arith, e), ground (arith, e))

module _ (walk : List (ℕ × TaskPayload) → List (ℕ × TaskPayload))
    (walk-perm : (ts : List (ℕ × TaskPayload)) → Perm (walk ts) ts) where
  -- No step touches the session of a search that is over.
  Step-session :
      {id : ℕ} {session : SearchSession} {c d : Cluster}
      → ClusterInv c
      → IsOver id session c
      → Step walk c d
      → lookup id d.master.sessions ≡ lookup id c.master.sessions
  Step-session v o (registers c client threads) = unfold register_worker in refl
  Step-session {id} v o (dispatches c client room) =
      ap (lookup id)
        (dispatch_next_task-Sound client c.master (Inv-Sound room v.books)).same_sessions
  Step-session {id} v o (wakes c worker others e) =
      ap (lookup id) (sessions-take_worker worker others _ c.master).0
  Step-session {id} v o (finishes c client task_id k s e) =
      ap (lookup id) (sessions-finish_task client task_id k c.master s v.books e).0
  Step-session {id} v o (aggregates c k session batch h known) =
      lookup-insert_ne k id _ c.master.sessions (λ same. ground (arith, h, same, o.none_late))
  Step-session v o (writes c path text) = refl
  Step-session {id} v o (counts c k h) =
      count_chunk-sessions_ne k id c.master (λ same. ground (arith, h, same, o.none_late))
  Step-session v o (allocates c room) = unfold allocate_search_id in refl
  Step-session {id} v o (publishes c session tasks h new) =
      ap (lookup id) (sessions-add_pending_tasks session tasks c.master)
      ∙ lookup-insert_ne session.search_id id _ c.master.sessions
          (λ same. cc (same, (v.free session.search_id).unknown h, o.known))
  Step-session {id} v o (reclaims c client room) =
      ap (lookup id)
        (reclaim_tasks-Sound walk walk-perm client c.master v.books.distinct v.books.fresh
          room).same_sessions

  Step-IsOver :
      {id : ℕ} {session : SearchSession} {c d : Cluster}
      → ClusterInv c
      → Step walk c d
      → IsOver id session c
      → IsOver id session d
  Step-IsOver {id} {session} {c} {d} v st o =
      let known : lookup id d.master.sessions ≡ some session = Step-session v o st ∙ o.known in
      let before = progress_known id c o.known ∙ published_eq o.none_open o.none_late refl in
      let after =
        Advance-final
          (subst (λ p. Advance p (progress id d)) before (Step-Advance walk walk-perm id v st)) in
      let (open_zero, late_zero) = published-injective (sym (progress_known id d known) ∙ after) in
      record { known = known; none_open = open_zero; none_late = late_zero }

  Run-IsOver :
      {id : ℕ} {session : SearchSession} {c d : Cluster}
      → ClusterInv c
      → Run walk c d
      → IsOver id session c
      → IsOver id session d
  Run-IsOver v stay o = o
  Run-IsOver v (more r st) o = Step-IsOver (Run-ClusterInv walk walk-perm r v) st (Run-IsOver v r o)

  -- What is told of a search that is done is final: once GetStatus has reported a search as done, at
  -- any time after the start of the master, it gives the same reply for it in every order of later
  -- steps, with less than 2 ^ 32 chunks under way at that time and while the 64-bit ids do not run out.
  pub done-Run :
      (c d : Cluster) (id : ℕ) (status : SearchStatus)
      → Run walk start_cluster c
      → outstanding id c.master + c.late id < 2 ^ 32
      → get_status c.master id ≡ some status
      → status.state ≡ done
      → Run walk c d
      → get_status d.master id ≡ some status
  unfolding get_status
  done-Run c d id status before small e is_done after =
      let v = Run-ClusterInv walk walk-perm before start-ClusterInv in
      let over = (get_status-Run walk walk-perm c id status before small e).0 is_done in
      elim (Option-cases (lookup id c.master.sessions)) [
        | inl unknown ↦ absurd (ground arith)
        | inr (session, known) ↦
            let o : IsOver id session c = record {
              known = known;
              none_open = omega (arith, over);
              none_late = omega (arith, over);
            } in
            ap (Option.map status_of) ((Run-IsOver v after o).known ∙ sym known) ∙ e
      ]
