-- ===== src/Tests/Pool.antt =====
-- A pool of one thread, with one job.
use log_grid.Base.{[], arith, refl, ℕ, ◌++◌, ◌+◌, ◌∷◌, ◌≡◌}
use log_grid.Worker.ThreadPool.{
  PoolReachable, ThreadPool, ended, enqueue, enqueued, job_done, new, new_pool, set_stop, stopped,
  wake_up, woken,
}
use log_grid.Worker.ThreadPool.Drained.{pool_drained, pool_order}

abbrev busy_pool : ThreadPool ℕ
busy_pool = wake_up (enqueue 7 (new_pool 1))

busy_pool-Reachable : PoolReachable 1 (7 ∷ []) busy_pool
unfolding enqueue
busy_pool-Reachable = woken (enqueued 7 new refl) (omega arith)

abbrev empty_pool : ThreadPool ℕ
empty_pool = wake_up (set_stop (job_done busy_pool))

empty_pool-Reachable : PoolReachable 1 (7 ∷ []) empty_pool
unfolding enqueue wake_up job_done set_stop
empty_pool-Reachable = woken (stopped (ended busy_pool-Reachable (omega arith))) (omega arith)

empty_pool_returned : empty_pool.returned ≡ 1
unfolding enqueue wake_up job_done set_stop
empty_pool_returned = refl

pool_order_example :
    (busy_pool.taken ++ busy_pool.task_queue ≡ 7 ∷ [])
    × (busy_pool.waiting + busy_pool.running + busy_pool.returned ≡ 1)
pool_order_example = pool_order (7 ∷ []) busy_pool busy_pool-Reachable

pool_drained_example : (empty_pool.taken ≡ 7 ∷ []) × (empty_pool.running ≡ 0)
pool_drained_example =
    pool_drained (7 ∷ []) empty_pool empty_pool-Reachable (omega arith) empty_pool_returned
