-- ===== src/TaskQueue/Tests.antt =====
-- Runs of the task queue, and the theorems on them.
use seda_framework.Base.{ℕ, ◌≡◌, refl, true, false, [], ◌∷◌, ◌==◌, if◌then◌else◌, arith}
use seda_framework.TaskQueue.{TaskQueue, task_queue, push_locked}
use seda_framework.TaskQueue.Threads.{
  System, outside, pushing, empty_wait, update, silent, unheard, call_push, push, Reach, begins,
  after, waits_empty,
}
use seda_framework.TaskQueue.Fifo.{IsFifo, Reach-IsFifo}
use seda_framework.TaskQueue.Wakeups.{IsStuck, Unpopped, stays, goes_on}

abbrev one_task : TaskQueue ℕ
one_task = (push_locked 7 task_queue).0

-- One thread has pushed a task.
abbrev pushed_one : System ℕ
pushed_one = record {
  queue = one_task;
  pc = update (update (λ _. outside) 2 (pushing 7)) 2 outside;
  pushed = 7 ∷ [];
  popped = [];
}

none_sleeps :
    (j : ℕ) → waits_empty {A = ℕ} (update (update (λ _. outside) 2 (pushing 7)) 2 outside j) ≡ false
none_sleeps j = ground arith

one_run : Reach true pushed_one
unfolding push_locked
one_run =
    after (after begins (call_push 2 7 refl)) (push 2 7 refl refl (unheard refl none_sleeps refl))

-- A task is queued, and thread 1 is asleep.
abbrev stuck : System ℕ
stuck = record {
  queue = one_task;
  pc = λ i. if i == 1 then empty_wait else outside;
  pushed = 7 ∷ [];
  popped = [];
}

stuck-IsStuck : IsStuck stuck
unfolding push_locked
stuck-IsStuck = record { nonempty = refl; asleep = λ i. ground arith }

-- Another task is pushed.
abbrev stuck_again : System ℕ
stuck_again = record {
  queue = (push_locked 8 one_task).0;
  pc = update (update stuck.pc 2 (pushing 8)) 2 outside;
  pushed = 7 ∷ 8 ∷ [];
  popped = [];
}

stuck_run : Unpopped stuck stuck_again
unfolding push_locked
stuck_run =
    goes_on (goes_on stays (call_push 2 8 refl) refl) (push 2 8 refl refl (silent refl refl)) refl

Reach-IsFifo_example : IsFifo pushed_one
Reach-IsFifo_example = Reach-IsFifo one_run
