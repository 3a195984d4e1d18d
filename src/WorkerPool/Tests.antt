-- ===== src/WorkerPool/Tests.antt =====
-- A run of the worker pool with one worker and one task, and the theorems on it.
use seda_framework.Base.{ℕ, ◌+◌, ◌≡◌, ◌≤◌, refl, true, false, [], ◌∷◌, arith}
use seda_framework.TaskQueue.{task_queue, push_locked, pop_locked}
use seda_framework.WorkerPool.{
  counted, Pool, worker_pool, start, run, tests, pops, counts, Reach, here, next, AllEnded,
}
use seda_framework.WorkerPool.Counting.{is_busy, total, Reach-running_num, Reach-AllEnded}
use seda_framework.WorkerPool.Tasks.{weigh, held, Reach-weigh}

-- The worker has taken the task and counted itself.
abbrev one_running : Pool ℕ
one_running = record {
  worker_num = 1;
  running = true;
  worker_init_callback = false;
  running_num = 1;
  jq = task_queue;
  threads = counted 7 ∷ [];
  submitted = 7 ∷ [];
  taken = 7 ∷ [];
  executed = [];
}

one_run : Reach (start (worker_pool 1 false)) one_running
unfolding worker_pool start push_locked pop_locked
one_run =
    let submitted = next here (run 7 refl) in
    let tested = next submitted (tests [] [] refl) in
    let popped = next tested (pops [] [] 7 task_queue false refl refl refl) in
    next popped (counts [] [] 7 refl)

Reach-running_num_example :
    (one_running.running_num ≡ total is_busy one_running.threads) × (one_running.running_num ≤ 1)
Reach-running_num_example = Reach-running_num 1 false one_run

Reach-AllEnded_example : AllEnded one_running.threads → ⊥
Reach-AllEnded_example = Reach-AllEnded 1 false (omega arith) one_run

Reach-weigh_example :
    weigh (λ n. n) (7 ∷ [])
    ≡ weigh (λ n. n) [] + total (held (λ n. n)) one_running.threads + weigh (λ n. n) []
Reach-weigh_example = Reach-weigh (λ n. n) 1 false one_run
