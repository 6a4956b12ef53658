-- ===== src/Tests/Race.antt =====
-- Two threads in AssignIdleWorkers at once: each has read the free slots of the same worker, and the
-- worker is given one task more than it has threads.
use log_grid.Base.{List, [], arith, length, refl, some, ℕ, ◌-◌, ◌^◌, ◌∷◌, ◌≡◌}
use log_grid.Base.Assoc.{lookup}
use log_grid.Protocol.{TaskPayload}
use log_grid.Master.State.{SearchSession, add_pending_tasks, allocate_search_id}
use log_grid.Master.Dispatch.{dispatch_next_task, park_worker, send_task, take_worker, tasks_of}
use log_grid.Master.Handlers.{finish_task, free_slot, register_worker, without_task}
use log_grid.Master.Steps.{
  Cluster, Run, add_one, allocates, dispatches, drop_one, finishes, more, publishes, registers,
  start_cluster, stay, wakes, with_master,
}
use log_grid.Tests.Wire.{err_task}
use log_grid.Tests.Cluster.{session, tasks}
use log_grid.Tests.Steps.{in_order}

abbrev task_in : ℕ → TaskPayload
task_in id = record err_task { search_id = id }

abbrev session_in : ℕ → SearchSession
session_in id = record session { search_id = id }

abbrev given_id : Cluster → Cluster
given_id c = record c {
  master = (allocate_search_id c.master).1;
  reserved = add_one (allocate_search_id c.master).0 c.reserved;
}

abbrev searching : ℕ → List TaskPayload → Cluster → Cluster
searching id tasks c = record c {
  master = add_pending_tasks (session_in id) tasks c.master;
  reserved = drop_one id c.reserved;
}

abbrev registered : ℕ → ℕ → Cluster → Cluster
registered client threads c = with_master c (register_worker client threads c.master)

abbrev sent_next : ℕ → Cluster → Cluster
sent_next client c = with_master c (dispatch_next_task client c.master).1

abbrev woken : ℕ → Cluster → Cluster
woken worker c =
    with_master c (take_worker worker [] (lookup worker c.master.workers_free_slots) c.master)

-- Worker 4, with two threads, has one task and is queued.
abbrev half_busy : Cluster
half_busy =
    sent_next 4
      (sent_next 4 (searching 0 (task_in 0 ∷ []) (given_id (registered 4 2 start_cluster))))

-- The first thread reads its one free slot; the task goes to worker 5.
abbrev first_reads : Cluster
first_reads = woken 4 (searching 1 (task_in 1 ∷ []) (given_id half_busy))

abbrev taken_by_other : Cluster
taken_by_other = sent_next 5 (registered 5 1 first_reads)

-- Worker 4 ends its task and is queued again.
abbrev freed : Cluster
freed = record taken_by_other {
  master = free_slot 4 (without_task 4 1 [] taken_by_other.master);
  late = add_one 0 taken_by_other.late;
}

abbrev queued_again : Cluster
queued_again = sent_next 4 freed

-- The second thread reads its two free slots and fills them; then the first goes on.
abbrev second_reads : Cluster
second_reads =
    woken 4 (searching 2 (task_in 2 ∷ task_in 2 ∷ task_in 2 ∷ []) (given_id queued_again))

abbrev both_done : Cluster
both_done = sent_next 4 (sent_next 4 (sent_next 4 second_reads))

slots_wrap :
    (lookup 4 both_done.master.workers_free_slots ≡ some (2 ^ 64 - 1))
    × (length (tasks_of 4 both_done.master) ≡ 3)
unfolding register_worker allocate_search_id add_pending_tasks dispatch_next_task send_task
    park_worker free_slot
slots_wrap = (refl, refl)

-- It is a run of the master's steps.
half_busy-Run : Run in_order start_cluster half_busy
unfolding register_worker allocate_search_id add_pending_tasks dispatch_next_task send_task
half_busy-Run =
    more
      (more
        (more (more (more stay (registers start_cluster 4 2)) (allocates _ (omega arith))) (
          publishes _ (session_in 0) (task_in 0 ∷ []) (omega arith)
            (record { own = (refl, tt); none_done = refl })))
        (dispatches _ 4 (omega arith)))
      (dispatches _ 4 (omega arith))

taken_by_other-Run : Run in_order start_cluster taken_by_other
unfolding register_worker allocate_search_id add_pending_tasks dispatch_next_task send_task
    park_worker
taken_by_other-Run =
    more
      (more
        (more
          (more (more half_busy-Run (allocates half_busy (omega arith))) (
            publishes _ (session_in 1) (task_in 1 ∷ []) (omega arith)
              (record { own = (refl, tt); none_done = refl })))
          (wakes _ 4 [] refl))
        (registers first_reads 5 1))
      (dispatches _ 5 (omega arith))

both_done-Run : Run in_order start_cluster both_done
unfolding register_worker allocate_search_id add_pending_tasks dispatch_next_task send_task
    park_worker finish_task free_slot
both_done-Run =
    let again : Run in_order start_cluster queued_again =
      more (more taken_by_other-Run (finishes taken_by_other 4 1 0 freed.master refl))
        (dispatches freed 4 (omega arith)) in
    more
      (more
        (more
          (more
            (more (more again (allocates queued_again (omega arith))) (
              publishes (given_id queued_again) (session_in 2)
                (task_in 2 ∷ task_in 2 ∷ task_in 2 ∷ []) (omega arith)
                (record { own = (refl, (refl, (refl, tt))); none_done = refl })))
            (wakes _ 4 [] refl))
          (dispatches second_reads 4 (omega arith)))
        (dispatches _ 4 (omega arith)))
      (dispatches _ 4 (omega arith))
