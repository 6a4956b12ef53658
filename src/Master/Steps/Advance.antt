-- ===== src/Master/Steps/Advance.antt =====
-- The steps of the master on the progress of a search.
use native.Mathlib.Decide.{ℕ_discrete}
use mathlib.Core.List.{Perm}
use log_grid.Base.{
  List, Option-cases, ap, arith, inl, inr, length, none, refl, some, subst, sum_by, sym, ℕ, ◌%◌,
  ◌+◌, ◌<◌, ◌^◌, ◌∙◌, ◌≡◌,
}
use log_grid.Base.Assoc.{insert, lookup, lookup-insert_ne, lookup-insert_self}
use log_grid.Protocol.{TaskPayload}
use log_grid.Master.State.{MasterServer, SearchSession, add_pending_tasks, allocate_search_id}
use log_grid.Master.Dispatch.Tally.{dispatch_next_task-Sound, tally}
use log_grid.Master.Results.{count_batch}
use log_grid.Master.Handlers.{count_chunk, finish_task}
use log_grid.Master.Accounting.{Inv-Sound, of_search, outstanding}
use log_grid.Master.Books.Finish.{finish_task-Without}
use log_grid.Master.Books.Publish.{
  sessions-add_pending_tasks, sum_by-of_search_ne, sum_by-of_search_self, tally-add_pending_tasks,
}
use log_grid.Master.Books.Reclaim.{reclaim_tasks-Sound}
use log_grid.Master.Steps.{
  Cluster, IsNew, Step, add_one, aggregates, allocates, counts, dispatches, drop_one, finishes,
  publishes, reclaims, registers, wakes, writes,
}
use log_grid.Master.Steps.Invariant.{ClusterInv}
use log_grid.Master.Steps.Progress.{
  Advance, Sound-Advance, allocate-Advance, appears, completes, handles, nothing, progress,
  progress_known, progress_of, progress_same, progress_unknown, published_eq,
  register_worker-Advance, session_same, take_worker-Advance,
}

finish-Advance :
    (id k client task_id : ℕ) (s : MasterServer) (c : Cluster)
    → ClusterInv c
    → finish_task client task_id c.master ≡ some (k, s)
    → Advance (progress id c) (progress id (record c { master = s; late = add_one k c.late }))
finish-Advance id k client task_id s c v e =
    let (t, same, w) = finish_task-Without client task_id k c.master s v.books e in
    let d : Cluster = record c { master = s; late = add_one k c.late } in
    elim (ℕ_discrete k id) [
      | no apart ↦
          progress_same id c d w.same_sessions (ground (arith, w.one_less (of_search id), same))
            (ground arith)
      | yes here ↦ elim (Option-cases (lookup id c.master.sessions)) [
        | inl unknown ↦ nothing (
            progress_unknown id c unknown
            ∙ sym (progress_unknown id d (ap (lookup id) w.same_sessions ∙ unknown)))
        | inr (session, known) ↦
            handles (outstanding id s) (c.late id) session.chunks_done
              (progress_known id c known
                ∙ published_eq (ground (arith, w.one_less (of_search id), same, here)) refl refl)
              (progress_known id d (ap (lookup id) w.same_sessions ∙ known)
                ∙ published_eq refl (ground (arith, here)) refl)
      ]
    ]

count-Advance :
    (id k : ℕ) (c : Cluster)
    → ClusterInv c
    → 0 < c.late k
    → Advance
        (progress id c)
        (progress id (record c { master = count_chunk k c.master; late = drop_one k c.late }))
unfolding count_chunk tally
count-Advance id k c v h = elim (Option-cases (lookup k c.master.sessions)) [
  | inl unknown ↦ absurd (omega (arith, v.books.books.published k unknown, h))
  | inr (session, known) ↦
      rw (known, count_chunk)
        (elim (ℕ_discrete k id) [
          | no apart ↦
              let fewer : drop_one k c.late id ≡ c.late id = ground arith in
              nothing (
                ap (λ o. progress_of o (outstanding id c.master) (c.late id))
                  (sym (lookup-insert_ne k id _ c.master.sessions apart))
                ∙ ap
                    (progress_of (lookup id (insert k _ c.master.sessions))
                      (outstanding id c.master))
                    (sym fewer))
          | yes here ↦
              let before : lookup id c.master.sessions ≡ some session =
                subst (λ j. lookup j c.master.sessions ≡ some session) here known in
              let counted = record session { chunks_done = (session.chunks_done + 1) % 2 ^ 32 } in
              let after : lookup id (insert k counted c.master.sessions) ≡ some counted =
                subst (λ j. lookup j (insert k counted c.master.sessions) ≡ some counted) here
                  (lookup-insert_self k counted c.master.sessions) in
              let some_late : 0 < c.late id = subst (λ j. 0 < c.late j) here h in
              completes (outstanding id c.master) (drop_one k c.late id) session.chunks_done
                (progress_known id c before
                  ∙ published_eq refl (ground (arith, here, some_late)) refl)
                (ap (λ o. progress_of o (outstanding id c.master) (drop_one k c.late id)) after)
        ])
]

publish-Advance :
    (id : ℕ) (session : SearchSession) (tasks : List TaskPayload) (c : Cluster)
    → ClusterInv c
    → 0 < c.reserved session.search_id
    → IsNew session tasks
    → Advance (progress id c) (
        progress id (record c {
          master = add_pending_tasks session tasks c.master;
          reserved = drop_one session.search_id c.reserved;
        }))
publish-Advance id session tasks c v h new =
    let d : Cluster = record c {
      master = add_pending_tasks session tasks c.master;
      reserved = drop_one session.search_id c.reserved;
    } in
    let tallied = tally-add_pending_tasks session tasks c.master (of_search id) in
    let sessions = sessions-add_pending_tasks session tasks c.master in
    let unknown = (v.free session.search_id).unknown h in
    elim (ℕ_discrete session.search_id id) [
      | no apart ↦
          let others = sum_by-of_search_ne session.search_id id tasks apart new.own in
          nothing (
            ap (λ o. progress_of o (outstanding id c.master) (c.late id))
              (sym (
                ap (lookup id) sessions
                ∙ lookup-insert_ne session.search_id id _ c.master.sessions apart))
            ∙ ap (λ n. progress_of (lookup id d.master.sessions) n (c.late id))
                (omega (arith, tallied, others)))
      | yes here ↦
          let before : lookup id c.master.sessions ≡ none =
            subst (λ j. lookup j c.master.sessions ≡ none) here unknown in
          let after : lookup id d.master.sessions
              ≡ some (record session { chunks_total = length tasks % 2 ^ 32 }) =
            ap (lookup id) sessions
            ∙ subst
                (λ j.
                  lookup j (
                    insert session.search_id
                      (record session { chunks_total = length tasks % 2 ^ 32 }) c.master.sessions)
                  ≡ some (record session { chunks_total = length tasks % 2 ^ 32 }))
                here (lookup-insert_self session.search_id _ c.master.sessions) in
          let all =
            subst (λ j. sum_by (of_search j) tasks ≡ length tasks) here
              (sum_by-of_search_self session.search_id tasks new.own) in
          let nothing_before = v.books.books.published id before in
          appears (length tasks) (progress_unknown id c before) (
            progress_known id d after
            ∙ published_eq (omega (arith, tallied, all, nothing_before))
                (omega (arith, nothing_before)) new.none_done)
    ]

module _ (walk : List (ℕ × TaskPayload) → List (ℕ × TaskPayload))
    (walk-perm : (ts : List (ℕ × TaskPayload)) → Perm (walk ts) ts) where
  -- The steps of the master refine the abstract progress of each search: a search appears once,
  -- with its chunks open; an open chunk is taken up for handling, one at a time; a handled chunk is
  -- counted, once; and every other step, of this search or of others, changes nothing that shows.
  -- From a state with the invariant that every run of the master keeps.
  pub Step-Advance :
      (id : ℕ) {c d : Cluster}
      → ClusterInv c
      → Step walk c d
      → Advance (progress id c) (progress id d)
  Step-Advance id v (registers c client threads) = register_worker-Advance id client threads c
  Step-Advance id v (dispatches c client room) =
      Sound-Advance id c _ (dispatch_next_task-Sound client c.master (Inv-Sound room v.books))
  Step-Advance id v (wakes c worker others e) = take_worker-Advance id worker others _ c
  Step-Advance id v (finishes c client task_id k s e) = finish-Advance id k client task_id s c v e
  Step-Advance id v (aggregates c k session batch h known) =
      session_same id k session (count_batch session batch) c known (unfold count_batch in refl)
  Step-Advance id v (writes c path text) = nothing (unfold tally in refl)
  Step-Advance id v (counts c k h) = count-Advance id k c v h
  Step-Advance id v (allocates c room) =
      allocate-Advance id c (add_one (allocate_search_id c.master).0 c.reserved)
  Step-Advance id v (publishes c session tasks h new) = publish-Advance id session tasks c v h new
  Step-Advance id v (reclaims c client room) =
      Sound-Advance id c _
        (reclaim_tasks-Sound walk walk-perm client c.master v.books.distinct v.books.fresh room)
