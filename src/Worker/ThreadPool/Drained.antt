-- ===== src/Worker/ThreadPool/Drained.antt =====
-- Which jobs the threads of a pool have taken, and when they return.
use mathlib.Core.List.{append_assoc, append-nil}
use log_grid.Base.{
  Bool, List, [], ap, arith, false, inl, inr, length, refl, sym, true, ℕ, ◌++◌, ◌+◌, ◌<◌, ◌∙◌, ◌∷◌,
  ◌≡◌, ◌⊎◌,
}
use log_grid.Worker.ThreadPool.{
  PoolReachable, ThreadPool, ended, enqueue, enqueued, job_done, new, return_if, set_stop, stopped,
  take_or_return, wake_up, woken,
}

-- `returned` is 0 until the pool is stopped and its queue is empty.
record PoolInv {J : Type 0} (threads : ℕ) (jobs : List J) (p : ThreadPool J) : Type 0 where
  order : p.taken ++ p.task_queue ≡ jobs
  count : p.waiting + p.running + p.returned ≡ threads
  last : (p.returned ≡ 0) ⊎ ((p.stop ≡ true) × (p.task_queue ≡ []))

module _ {J : Type 0} {threads : ℕ} where
  return_if-PoolInv :
      (jobs : List J) (p : ThreadPool J) (stop : Bool)
      → p.stop ≡ stop
      → p.task_queue ≡ []
      → 0 < p.waiting
      → PoolInv threads jobs p
      → PoolInv threads jobs (return_if stop p)
  return_if-PoolInv jobs p false e empty w v = v
  return_if-PoolInv jobs p true e empty w v = record {
    order = v.order;
    count = omega (arith, v.count, w);
    last = inr (e, empty);
  }

  wake_up-PoolInv :
      (jobs : List J) (p : ThreadPool J) (queue : List J)
      → p.task_queue ≡ queue
      → 0 < p.waiting
      → PoolInv threads jobs p
      → PoolInv threads jobs (take_or_return queue p)
  wake_up-PoolInv jobs p [] e w v = return_if-PoolInv jobs p p.stop refl e w v
  wake_up-PoolInv jobs p (job ∷ queue) e w v = record {
    order = append_assoc p.taken (job ∷ []) queue ∙ (ap (λ q. p.taken ++ q) (sym e) ∙ v.order);
    count = omega (arith, v.count, w);
    last = elim v.last [
      | inl nobody ↦ inl nobody
      | inr gone ↦ absurd (omega (arith, ap length (sym e ∙ gone.1)))
    ];
  }

  Reachable-PoolInv :
      {jobs : List J} {p : ThreadPool J} → PoolReachable threads jobs p → PoolInv threads jobs p
  unfolding enqueue set_stop wake_up job_done
  Reachable-PoolInv new = record { order = refl; count = omega arith; last = inl refl }
  Reachable-PoolInv (enqueued {p = p} job r on) =
      let v = Reachable-PoolInv r in
      record {
        order =
            sym (append_assoc p.taken p.task_queue (job ∷ [])) ∙ ap (λ l. l ++ (job ∷ [])) v.order;
        count = v.count;
        last = elim v.last [
          | inl nobody ↦ inl nobody
          | inr gone ↦ absurd (ground (arith, gone.0, on))
        ];
      }
  Reachable-PoolInv (stopped r) =
      let v = Reachable-PoolInv r in
      record {
        order = v.order;
        count = v.count;
        last = elim v.last [ inl nobody ↦ inl nobody | inr gone ↦ inr (refl, gone.1) ];
      }
  Reachable-PoolInv {jobs} (woken {p = p} r w) =
      wake_up-PoolInv jobs p p.task_queue refl w (Reachable-PoolInv r)
  Reachable-PoolInv (ended r w) =
      let v = Reachable-PoolInv r in
      record { order = v.order; count = omega (arith, v.count, w); last = v.last }

  -- In every order of steps, the jobs that were taken by a thread and those that wait are the jobs
  -- enqueued, in order: none is lost, and none is taken twice. And no thread is lost.
  pub pool_order :
      (jobs : List J) (p : ThreadPool J)
      → PoolReachable threads jobs p
      → (p.taken ++ p.task_queue ≡ jobs) × (p.waiting + p.running + p.returned ≡ threads)
  pool_order jobs p r = ((Reachable-PoolInv r).order, (Reachable-PoolInv r).count)

  -- When the threads of a pool of one thread at least have all returned, each job that was enqueued has
  -- been taken, and has ended.
  pub pool_drained :
      (jobs : List J) (p : ThreadPool J)
      → PoolReachable threads jobs p
      → 0 < threads
      → p.returned ≡ threads
      → (p.taken ≡ jobs) × (p.running ≡ 0)
  pool_drained jobs p r some_threads all =
      let v = Reachable-PoolInv r in
      elim v.last [
        | inl nobody ↦ absurd (omega (arith, nobody, all, some_threads))
        | inr gone ↦ (
          sym (append-nil p.taken) ∙ (ap (λ q. p.taken ++ q) (sym gone.1) ∙ v.order),
          omega (arith, v.count, all),
        )
      ]
