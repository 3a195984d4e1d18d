-- ===== src/WorkerPool.antt =====
-- worker_pool.h and worker_pool.cpp: a pool of threads over the queue of job_queue.cpp. The threads
-- are a list, of which `pthread_create` appends one for each worker.
use seda_framework.Base.{
  ℕ, zero, suc, ◌+◌, ◌-◌, ◌≡◌, Bool, true, false, Option, none, some, List, [], ◌∷◌, ◌++◌,
  replicate, if◌then◌else◌,
}
use seda_framework.TaskQueue.{TaskQueue, task_queue, push_locked, pop_locked}
pub mod Counting
pub mod Tasks
mod Tests

-- Where a worker stands in per_worker_task: at the test of its `while`, in `pop`, before the count,
-- before the call, behind it, and behind the loop.
pub data WorkerPc {ℓ} (A : Type ℓ) : Type ℓ where
  testing popping ran ended : WorkerPc A
  popped counted : A → WorkerPc A

-- class worker_pool; `worker_init_callback` says whether it is set. `submitted`, `taken` and
-- `executed` record the tasks that went through `run`, were popped, and were called.
pub record Pool {ℓ} (A : Type ℓ) : Type ℓ where
  pub worker_num : ℕ
  pub running : Bool
  pub worker_init_callback : Bool
  pub running_num : ℕ
  pub jq : TaskQueue A
  pub threads : List (WorkerPc A)
  pub submitted : List A
  pub taken : List A
  pub executed : List A

-- DEFAULT_WORKER_NUM
abbrev pub default_worker_num : ℕ
default_worker_num = 20

module _ {ℓ} {A : Type ℓ} where
  -- worker_pool::worker_pool with init: a callback that is given is overwritten. `running` is not set
  -- before `start`.
  unfoldable pub worker_pool : ℕ → Bool → Pool A
  worker_pool worker_num callback = record {
    worker_num = worker_num;
    running = false;
    worker_init_callback = false;
    running_num = 0;
    jq = task_queue;
    threads = [];
    submitted = [];
    taken = [];
    executed = [];
  }

  -- worker_pool::set_task_queue
  abbrev pub set_task_queue : TaskQueue A → Pool A → Pool A
  set_task_queue _jq wp = record wp { jq = _jq }

  -- thread_worker_pool::start
  unfoldable pub start : Pool A → Pool A
  start wp = record wp { running = true; threads = replicate wp.worker_num testing }

  -- worker_pool::getRunnningWorkerNum
  abbrev pub get_runnning_worker_num : Pool A → ℕ
  get_runnning_worker_num wp = wp.running_num

  -- One step of a thread: a call of `run` by any thread that passes the wait of `push`, or what the
  -- worker between `before` and `after` does next. A worker in `pop` goes on once the queue is not
  -- empty; how it is woken is the matter of the queue.
  pub data Step (wp : Pool A) : Pool A → Type ℓ where
    run :
        (qe : A)
        → wp.jq.full ≡ false
        → Step wp (record wp { jq = (push_locked qe wp.jq).0; submitted = wp.submitted ++ qe ∷ [] })
    tests :
        (before after : List (WorkerPc A))
        → wp.threads ≡ before ++ testing ∷ after
        → Step wp
            (record wp { threads = before ++ (if wp.running then popping else ended) ∷ after })
    pops :
        (before after : List (WorkerPc A)) (qe : A) (jq : TaskQueue A) (signal : Bool)
        → wp.threads ≡ before ++ popping ∷ after
        → wp.jq.empty ≡ false
        → pop_locked wp.jq ≡ some (qe, jq, signal)
        → Step wp (record wp {
          jq = jq;
          threads = before ++ popped qe ∷ after;
          taken = wp.taken ++ qe ∷ [];
        })
    counts :
        (before after : List (WorkerPc A)) (qe : A)
        → wp.threads ≡ before ++ popped qe ∷ after
        → Step wp
            (record wp { threads = before ++ counted qe ∷ after; running_num = wp.running_num + 1 })
    calls :
        (before after : List (WorkerPc A)) (qe : A)
        → wp.threads ≡ before ++ counted qe ∷ after
        → Step wp (record wp {
          threads = before ++ ran ∷ after;
          executed = if wp.worker_init_callback then wp.executed else wp.executed ++ qe ∷ [];
        })
    discounts :
        (before after : List (WorkerPc A))
        → wp.threads ≡ before ++ ran ∷ after
        → Step wp
            (record wp { threads = before ++ testing ∷ after; running_num = wp.running_num - 1 })

  pub data Reach (wp : Pool A) : Pool A → Type ℓ where
    here : Reach wp wp
    next : {wp' wp'' : Pool A} → Reach wp wp' → Step wp' wp'' → Reach wp wp''

  -- What `stop` waits for in pthread_join: every worker has come to the end of per_worker_task.
  abbrev pub AllEnded : List (WorkerPc A) → Type 0
  AllEnded [] = Unit
  AllEnded (ended ∷ threads) = AllEnded threads
  AllEnded (_ ∷ threads) = ⊥
