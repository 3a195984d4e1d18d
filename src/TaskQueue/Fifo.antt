-- ===== src/TaskQueue/Fifo.antt =====
-- job_queue.cpp: what holds of the queue in every state that threads can bring about.
use mathlib.Core.Option.{some-injective}
use seda_framework.Base.{
  ℕ, ◌≡◌, refl, sym, ap, ◌∙◌, subst, Bool, false, some, List, [], ◌∷◌, ◌++◌, append_assoc,
}
use seda_framework.TaskQueue.{TaskQueue, push_locked, pop_locked}
use seda_framework.TaskQueue.Locked.{
  IsFlagged, task_queue-IsFlagged, push_locked-IsFlagged, pop_locked-IsFlagged,
}
use seda_framework.TaskQueue.Threads.{
  System, Pc, Step, call_push, call_pop, wait_full, wait_empty, push, pop, stray, Reach, begins,
  after,
}

module _ {ℓ} {A : Type ℓ} where
  -- The flags are right, and what was pushed is what was popped and then what is queued, in order.
  pub record IsFifo (s : System A) : Type ℓ where
    pub flagged : IsFlagged s.queue
    pub in_order : s.pushed ≡ s.popped ++ s.queue.items

  push-IsFifo :
      (s : System A) (x : A) (pc : ℕ → Pc A)
      → IsFifo s
      → s.queue.full ≡ false
      → IsFifo
          (record s { queue = (push_locked x s.queue).0; pc = pc; pushed = s.pushed ++ x ∷ [] })
  unfolding push_locked
  push-IsFifo s x pc f h = record {
    flagged = push_locked-IsFlagged x s.queue f.flagged h;
    in_order = ap (λ xs. xs ++ x ∷ []) f.in_order ∙ append_assoc s.popped s.queue.items (x ∷ []);
  }

  pop-IsFifo :
      (s : System A) (x : A) (q : TaskQueue A) (signal : Bool) (pc : ℕ → Pc A)
      → IsFifo s
      → s.queue.empty ≡ false
      → pop_locked s.queue ≡ some (x, q, signal)
      → IsFifo (record s { queue = q; pc = pc; popped = s.popped ++ x ∷ [] })
  pop-IsFifo s x q signal pc f h e =
      let (y, rest, q', signal', e', items, items', flagged) =
        pop_locked-IsFlagged s.queue f.flagged h in
      let same = some-injective _ _ (sym e ∙ e') in
      let x_is_y : x ≡ y = ap (λ r. r.0) same in
      let q_is_q' : q ≡ q' = ap (λ r. r.1) same in
      record {
        flagged = subst IsFlagged (sym q_is_q') flagged;
        in_order =
            f.in_order ∙ cc (items, items', x_is_y, q_is_q', append_assoc s.popped (x ∷ []) rest);
      }

  -- A step of any thread keeps this.
  pub Step-IsFifo : {strict : Bool} {s t : System A} → Step strict s t → IsFifo s → IsFifo t
  Step-IsFifo (call_push i x e) f = record { flagged = f.flagged; in_order = f.in_order }
  Step-IsFifo (call_pop i e) f = record { flagged = f.flagged; in_order = f.in_order }
  Step-IsFifo (wait_full i x e h) f = record { flagged = f.flagged; in_order = f.in_order }
  Step-IsFifo (wait_empty i e h) f = record { flagged = f.flagged; in_order = f.in_order }
  Step-IsFifo {s} (push i x {pc'} e h w) f = push-IsFifo s x pc' f h
  Step-IsFifo {s} (pop i x q signal {pc'} e h r w) f = pop-IsFifo s x q signal pc' f h r
  Step-IsFifo (stray i e) f = record { flagged = f.flagged; in_order = f.in_order }

  -- In every state that threads reach, whatever their number and order, also with spurious wake-ups:
  -- the flags say whether the queue is empty and whether it is full, it is within its limit, and the
  -- tasks leave in the order in which they came, none lost and none twice.
  pub Reach-IsFifo : {strict : Bool} {s : System A} → Reach strict s → IsFifo s
  Reach-IsFifo begins = record { flagged = task_queue-IsFlagged; in_order = refl }
  Reach-IsFifo (after r st) = Step-IsFifo st (Reach-IsFifo r)

  -- In every state that threads reach, a thread that has passed the wait of `pop` finds a front: the
  -- oldest task not yet popped.
  pub Reach-pop_locked :
      {strict : Bool} {s : System A}
      → Reach strict s
      → s.queue.empty ≡ false
      → (x : A) × (rest : List A) × (q : TaskQueue A) × (signal : Bool) × (pop_locked s.queue
          ≡ some (x, q, signal))
        × (s.pushed ≡ s.popped ++ x ∷ rest)
        × (q.items ≡ rest)
  Reach-pop_locked {s} r h =
      let f = Reach-IsFifo r in
      let (x, rest, q, signal, e, items, items', _) = pop_locked-IsFlagged s.queue f.flagged h in
      (x, rest, q, signal, e, f.in_order ∙ ap (◌++◌ s.popped) items, items')
