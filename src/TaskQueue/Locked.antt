-- ===== src/TaskQueue/Locked.antt =====
-- job_queue.cpp: what the flags say of the queue, and what a call under the lock does to them.
use seda_framework.Base.{
  ◌≤◌, ◌<◌, ◌≡◌, refl, Bool, false, some, List, [], ◌∷◌, length, length-append, ◌==◌, arith,
}
use seda_framework.TaskQueue.{TaskQueue, task_queue, push_locked, pop_items, pop_locked}

module _ {ℓ} {A : Type ℓ} where
  -- The flags are those of the length, which stays within the limit.
  pub record IsFlagged (q : TaskQueue A) : Type 0 where
    pub limit : 0 < q.max_queue_size
    pub bounded : length q.items ≤ q.max_queue_size
    pub empty_flag : q.empty ≡ (length q.items == 0)
    pub full_flag : q.full ≡ (length q.items == q.max_queue_size)

  pub task_queue-IsFlagged : IsFlagged task_queue
  task_queue-IsFlagged = record {
    limit = omega arith;
    bounded = omega arith;
    empty_flag = refl;
    full_flag = refl;
  }

  -- A push that has passed its wait keeps the flags and the limit.
  pub push_locked-IsFlagged :
      (x : A) (q : TaskQueue A) → IsFlagged q → q.full ≡ false → IsFlagged (push_locked x q).0
  unfolding push_locked
  push_locked-IsFlagged x q f open_ = ground (arith, length-append q.items (x ∷ []))

  pop_items-IsFlagged :
      (items : List A) (q : TaskQueue A)
      → IsFlagged (record q { items = items })
      → 0 < length items
      → (x : A) × (rest : List A) × (q' : TaskQueue A) × (signal : Bool) × (pop_items items q
          ≡ some (x, q', signal))
        × (items ≡ x ∷ rest)
        × (q'.items ≡ rest)
        × IsFlagged q'
  unfolding pop_items
  pop_items-IsFlagged [] q f h = absurd (omega arith)
  pop_items-IsFlagged (x ∷ rest) q f h = (
    x,
    rest,
    _,
    _,
    refl,
    refl,
    refl,
    ground (arith, f.limit, f.bounded, f.empty_flag, f.full_flag),
  )

  -- A pop that has passed its wait never meets an empty `std::queue`: it takes the oldest entry,
  -- and keeps the flags and the limit.
  pub pop_locked-IsFlagged :
      (q : TaskQueue A)
      → IsFlagged q
      → q.empty ≡ false
      → (x : A) × (rest : List A) × (q' : TaskQueue A) × (signal : Bool) × (pop_locked q
          ≡ some (x, q', signal))
        × (q.items ≡ x ∷ rest)
        × (q'.items ≡ rest)
        × IsFlagged q'
  unfolding pop_locked
  pop_locked-IsFlagged q f nonempty = pop_items-IsFlagged q.items q f (ground (arith, f.empty_flag))
