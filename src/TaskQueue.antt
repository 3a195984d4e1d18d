-- ===== src/TaskQueue.antt =====
-- job_queue.h and job_queue.cpp: the bounded queue of tasks, and the threads that call it.
use seda_framework.Base.{
  ℕ, suc, ◌+◌, ◌≡◌, Bool, true, false, Option, none, some, List, [], ◌∷◌, ◌++◌, length, ◌==◌,
  if◌then◌else◌,
}
pub mod Locked
pub mod Threads
pub mod Fifo
pub mod Wakeups
mod Tests

-- class task_queue with the `std::queue` that `get_queue` returns, oldest entry first.
pub record TaskQueue {ℓ} (A : Type ℓ) : Type ℓ where
  pub items : List A
  pub empty : Bool
  pub full : Bool
  pub max_queue_size : ℕ

module _ {ℓ} {A : Type ℓ} where
  -- task_queue::task_queue
  abbrev pub task_queue : TaskQueue A
  task_queue = record { items = []; empty = true; full = false; max_queue_size = 2000 }

  -- task_queue::is_full and task_queue::is_empty
  abbrev pub is_full : TaskQueue A → Bool
  is_full q = q.full

  abbrev pub is_empty : TaskQueue A → Bool
  is_empty q = q.empty

  -- mutex_task_queue::push from the end of its wait to the unlock: the queue, and whether
  -- `not_empty` is signalled.
  unfoldable pub push_locked : A → TaskQueue A → TaskQueue A × Bool
  push_locked x q =
      let items = q.items ++ x ∷ [] in
      (
        record q {
          items = items;
          empty = false;
          full = if length items == q.max_queue_size then true else q.full;
        },
        q.empty,
      )

  -- mutex_task_queue::pop from the end of its wait to the unlock: the front, the queue, and whether
  -- `not_full` is signalled. `front` of an empty `std::queue` is undefined: `none`.
  unfoldable pub pop_items : List A → TaskQueue A → Option (A × TaskQueue A × Bool)
  pop_items [] q = none
  pop_items (x ∷ rest) q = some (
    x,
    record q { items = rest; empty = if length rest == 0 then true else q.empty; full = false },
    q.full,
  )

  unfoldable pub pop_locked : TaskQueue A → Option (A × TaskQueue A × Bool)
  unfolding pop_items
  pop_locked q = pop_items q.items q
