-- ===== src/Worker/ThreadPool.antt =====
-- NetClient/src/ThreadPool.hpp: jobs run by a fixed number of threads. A step is what one thread does
-- while it holds the mutex, or the end of a job; the steps come in any order.
pub mod Drained
use log_grid.Base.{Bool, List, [], false, true, ℕ, ◌++◌, ◌+◌, ◌-◌, ◌<◌, ◌∷◌, ◌≡◌}

-- `taken` are the jobs that threads have taken off the queue, the oldest first. A thread waits (or is
-- about to), runs a job, or has returned.
pub record ThreadPool (J : Type 0) : Type 0 where
  pub task_queue : List J
  pub stop : Bool
  pub waiting : ℕ
  pub running : ℕ
  pub returned : ℕ
  pub taken : List J

module _ {J : Type 0} where
  abbrev pub new_pool : ℕ → ThreadPool J
  new_pool threads = record {
    task_queue = [];
    stop = false;
    waiting = threads;
    running = 0;
    returned = 0;
    taken = [];
  }

  -- `Enqueue`
  unfoldable pub enqueue : J → ThreadPool J → ThreadPool J
  enqueue job p = record p { task_queue = p.task_queue ++ (job ∷ []) }

  -- The destructor sets the flag.
  unfoldable pub set_stop : ThreadPool J → ThreadPool J
  set_stop p = record p { stop = true }

  abbrev pub return_if : Bool → ThreadPool J → ThreadPool J
  return_if true p = record p { waiting = p.waiting - 1; returned = p.returned + 1 }
  return_if false p = p

  -- A thread whose wait is over takes the front of the queue, or returns if there is nothing left and
  -- the pool is stopped; otherwise it goes on waiting.
  abbrev pub take_or_return : List J → ThreadPool J → ThreadPool J
  take_or_return [] p = return_if p.stop p
  take_or_return (job ∷ jobs) p = record p {
    task_queue = jobs;
    waiting = p.waiting - 1;
    running = p.running + 1;
    taken = p.taken ++ (job ∷ []);
  }

  unfoldable pub wake_up : ThreadPool J → ThreadPool J
  wake_up p = take_or_return p.task_queue p

  -- A job ends, and its thread goes back to wait.
  unfoldable pub job_done : ThreadPool J → ThreadPool J
  job_done p = record p { running = p.running - 1; waiting = p.waiting + 1 }

  -- The states of a pool of so many threads, with the jobs enqueued so far. Nothing is enqueued once the
  -- destructor runs.
  pub data PoolReachable (threads : ℕ) : List J → ThreadPool J → Type 0 where
    new : PoolReachable threads [] (new_pool threads)
    enqueued :
        {jobs : List J} {p : ThreadPool J} (job : J)
        → PoolReachable threads jobs p
        → p.stop ≡ false
        → PoolReachable threads (jobs ++ (job ∷ [])) (enqueue job p)
    stopped :
        {jobs : List J} {p : ThreadPool J}
        → PoolReachable threads jobs p
        → PoolReachable threads jobs (set_stop p)
    woken :
        {jobs : List J} {p : ThreadPool J}
        → PoolReachable threads jobs p
        → 0 < p.waiting
        → PoolReachable threads jobs (wake_up p)
    ended :
        {jobs : List J} {p : ThreadPool J}
        → PoolReachable threads jobs p
        → 0 < p.running
        → PoolReachable threads jobs (job_done p)
