-- ===== src/Master/Books/Finish.antt =====
-- Worker_TaskDone: a task leaves the in-flight map, and its chunk is counted.
use mathlib.Core.Option.{some-ne-none}
use log_grid.Base.{
  List, Option-cases, [], ap, arith, inl, inr, length, none, refl, some, some_injective, subst, sym,
  ℕ, ◌%◌, ◌+◌, ◌<◌, ◌^◌, ◌∙◌, ◌∷◌, ◌≡◌,
}
use log_grid.Base.Assoc.{
  Distinct, Distinct-insert, Distinct-remove, lookup, lookup-remove-none, remove, total,
  total-insert, total-remove, weight,
}
use log_grid.Protocol.{TaskPayload}
use log_grid.Master.State.{MasterServer, SearchSession}
use log_grid.Master.Dispatch.{tasks_of}
use log_grid.Master.Dispatch.Tally.{get_or-weight, tally, tasks_of-insert, tasks_of-remove}
use log_grid.Master.Handlers.{count_chunk, finish_task, free_slot, without_task}
use log_grid.Master.Accounting.{Agrees, Inv-insert, InvWith, of_search, one_late, outstanding}

-- The second state is the first without the task, which was in flight.
pub record Without (t : TaskPayload) (from s : MasterServer) : Type 0 where
  pub distinct : Distinct s.in_flight_tasks
  pub fresh : (client id : ℕ) → s.next_task_id < id → lookup id (tasks_of client s) ≡ none
  pub same_room :
      s.next_task_id + length s.pending_tasks ≡ from.next_task_id + length from.pending_tasks
  pub same_sessions : s.sessions ≡ from.sessions
  pub same_next : s.next_search_id ≡ from.next_search_id
  pub one_less : (f : TaskPayload → ℕ) → tally f s + f t ≡ tally f from

module _ (client task_id : ℕ) (s : MasterServer) (t : TaskPayload) (d : Distinct s.in_flight_tasks)
    (fresh : (c id : ℕ) → s.next_task_id < id → lookup id (tasks_of c s) ≡ none)
    (there : lookup task_id (tasks_of client s) ≡ some t) where
  weight_there :
      (f : TaskPayload → ℕ)
      → total f (remove task_id (tasks_of client s)) + f t
        ≡ weight (total f) (lookup client s.in_flight_tasks)
  weight_there f = omega (
    arith,
    total-remove f task_id (tasks_of client s),
    ap (weight f) there,
    get_or-weight f (lookup client s.in_flight_tasks),
  )

  without_task-Without :
      (left : List (ℕ × TaskPayload))
      → remove task_id (tasks_of client s) ≡ left
      → Without t s (without_task client task_id left s)
  unfolding tally
  without_task-Without [] e = record {
    distinct = Distinct-remove client s.in_flight_tasks d;
    fresh = λ c id less. tasks_of-remove client c id s.in_flight_tasks d (fresh c id less);
    same_room = refl;
    same_sessions = refl;
    same_next = refl;
    one_less = λ f.
        omega
          (arith, weight_there f, ap (total f) e, total-remove (total f) client s.in_flight_tasks);
  }
  without_task-Without (u ∷ us) e = record {
    distinct = Distinct-insert client (u ∷ us) s.in_flight_tasks d;
    fresh = λ c id less.
        tasks_of-insert client c id (u ∷ us) s.in_flight_tasks
          (ap (lookup id) (sym e)
            ∙ lookup-remove-none task_id id (tasks_of client s) (fresh client id less))
          (fresh c id less);
    same_room = refl;
    same_sessions = refl;
    same_next = refl;
    one_less = λ f. omega (
      arith,
      weight_there f,
      ap (total f) e,
      total-insert (total f) client (u ∷ us) s.in_flight_tasks,
    );
  }

  -- What is left when the task has been taken off and its slot is free.
  abbrev pub finished : MasterServer
  finished = free_slot client (without_task client task_id (remove task_id (tasks_of client s)) s)

  pub finish_task-some : finish_task client task_id s ≡ some (t.search_id, finished)
  unfolding finish_task
  finish_task-some = rw (there, finish_task)

  pub finished-Without : Without t s finished
  unfolding free_slot tally
  finished-Without =
      let v = without_task-Without (remove task_id (tasks_of client s)) refl in
      record {
        distinct = v.distinct;
        fresh = v.fresh;
        same_room = v.same_room;
        same_sessions = v.same_sessions;
        same_next = v.same_next;
        one_less = v.one_less;
      }

-- Whatever it gives, the first locked part of Worker_TaskDone has taken off a task of the search that it names.
pub finish_task-Without :
    {late : ℕ → ℕ} (client task_id id : ℕ) (s s' : MasterServer)
    → InvWith late s
    → finish_task client task_id s ≡ some (id, s')
    → (t : TaskPayload) × (t.search_id ≡ id) × Without t s s'
unfolding finish_task
finish_task-Without client task_id id s s' v e =
    elim (Option-cases (lookup task_id (tasks_of client s))) [
      | inl unknown ↦ absurd (some-ne-none _ (sym e ∙ rw (unknown, finish_task) refl))
      | inr (t, there) ↦
          let same =
            some_injective
              (sym (finish_task-some client task_id s t v.distinct v.fresh there) ∙ e) in
          (
            t,
            ap (λ r. r.0) same,
            subst (Without t s) (ap (λ r. r.1) same)
                (finished-Without client task_id s t v.distinct v.fresh there),
          )
    ]

-- The chunk of the task that was taken off is late, beside those that are.
pub Without-InvWith :
    {late : ℕ → ℕ} {t : TaskPayload} {from s : MasterServer}
    → Without t from s
    → InvWith late from
    → InvWith (λ k. late k + one_late t.search_id k) s
Without-InvWith {late} {t} {from} {s} w v = record {
  distinct = w.distinct;
  fresh = w.fresh;
  books = record {
    counted = λ k session e.
        subst (λ n. Agrees n session) (omega (arith, w.one_less (of_search k)))
          (v.books.counted k session (ap (lookup k) (sym w.same_sessions) ∙ e));
    published = λ k e. omega (
      arith,
      w.one_less (of_search k),
      v.books.published k (ap (lookup k) (sym w.same_sessions) ∙ e),
    );
  };
  unpublished =
      λ id h. ap (lookup id) w.same_sessions ∙ v.unpublished id (omega (arith, w.same_next));
}

one_late_self : (id : ℕ) → one_late id id ≡ 1
one_late_self id = ground arith

count_chunk_Agrees :
    (unfinished : ℕ) (session : SearchSession)
    → Agrees (unfinished + 1) session
    → Agrees unfinished (record session { chunks_done = (session.chunks_done + 1) % 2 ^ 32 })
count_chunk_Agrees unfinished session a = record {
  sum = omega (arith, a.sum, a.done_u32);
  done_u32 = omega arith;
}

-- Counting a late chunk: there is one less.
pub count_chunk-InvWith :
    {late late' : ℕ → ℕ} (search_id : ℕ) (s : MasterServer)
    → ((k : ℕ) → late k ≡ late' k + one_late search_id k)
    → InvWith late s
    → InvWith late' (count_chunk search_id s)
unfolding count_chunk
count_chunk-InvWith {late} {late'} id s fewer v = elim (Option-cases (lookup id s.sessions)) [
  | inl unknown ↦ absurd (omega (arith, v.books.published id unknown, one_late_self id, fewer id))
  | inr (session, known) ↦
      rw (known, count_chunk)
        (Inv-insert id session _ s known
          (λ a.
            count_chunk_Agrees (outstanding id s + late' id) session
              (subst (λ n. Agrees n session) (omega (arith, one_late_self id, fewer id)) a))
          (λ k apart. ground (arith, fewer k)) v)
]
