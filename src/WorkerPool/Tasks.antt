-- ===== src/WorkerPool/Tasks.antt =====
-- worker_pool.cpp: what becomes of the tasks.
use mathlib.Core.Option.{some-injective}
use seda_framework.Base.{
  ℕ, zero, suc, ◌+◌, ◌≡◌, refl, ap, sym, ◌∙◌, subst, Bool, true, false, List, [], ◌∷◌, ◌++◌,
  replicate, arith, if◌then◌else◌,
}
use seda_framework.TaskQueue.{TaskQueue, push_locked}
use seda_framework.TaskQueue.Locked.{
  IsFlagged, task_queue-IsFlagged, push_locked-IsFlagged, pop_locked-IsFlagged,
}
use seda_framework.WorkerPool.{
  WorkerPc, testing, popping, ran, ended, popped, counted, Pool, worker_pool, start, Step, run,
  tests, pops, counts, calls, discounts, Reach, here, next,
}
use seda_framework.WorkerPool.Counting.{total, total_moves}

module _ {ℓ} {A : Type ℓ} (weight : A → ℕ) where
  -- The weights of some tasks, and of the one that a worker holds.
  abbrev pub weigh : List A → ℕ
  weigh [] = 0
  weigh (qe ∷ tasks) = weight qe + weigh tasks

  abbrev pub held : WorkerPc A → ℕ
  held testing = 0
  held popping = 0
  held ran = 0
  held ended = 0
  held (popped qe) = weight qe
  held (counted qe) = weight qe

  weigh-append : (xs ys : List A) → weigh (xs ++ ys) ≡ weigh xs + weigh ys
  weigh-append [] ys = omega arith
  weigh-append (x ∷ xs) ys = omega (arith, weigh-append xs ys)

  -- What was submitted is, as often, queued, held by a worker, or executed.
  pub record IsKept (wp : Pool A) : Type ℓ where
    pub flagged : IsFlagged wp.jq
    pub no_callback : wp.worker_init_callback ≡ false
    pub none_lost :
        weigh wp.submitted ≡ weigh wp.executed + total held wp.threads + weigh wp.jq.items

  push_locked-items :
      (qe : A) (jq : TaskQueue A) → (push_locked qe jq).0.items ≡ jq.items ++ qe ∷ []
  unfolding push_locked
  push_locked-items qe jq = refl

  pub Step-IsKept : {wp wp' : Pool A} → Step wp wp' → IsKept wp → IsKept wp'
  Step-IsKept {wp} (run qe open_) k = record {
    flagged = push_locked-IsFlagged qe wp.jq k.flagged open_;
    no_callback = k.no_callback;
    none_lost =
        let pushed = ap weigh (push_locked-items qe wp.jq) in
        omega (
          arith,
          k.none_lost,
          pushed,
          weigh-append wp.submitted (qe ∷ []),
          weigh-append wp.jq.items (qe ∷ []),
        );
  }
  Step-IsKept {wp} (tests before after e) k =
      let goes : (b : Bool)
          → total held (before ++ (if b then popping else ended) ∷ after) ≡ total held wp.threads =
        λ b.
          elim b
            as (λ c.
              total held (before ++ (if c then popping else ended) ∷ after)
              ≡ total held wp.threads) [
                | true ↦ omega (arith, total_moves held before after wp.threads testing popping e)
                | false ↦ omega (arith, total_moves held before after wp.threads testing ended e)
              ] in
      record {
        flagged = k.flagged;
        no_callback = k.no_callback;
        none_lost = omega (arith, k.none_lost, goes wp.running);
      }
  Step-IsKept {wp} (pops before after qe jq signal e nonempty r) k =
      let (x, rest, jq', signal', r', items, items', flagged) =
        pop_locked-IsFlagged wp.jq k.flagged nonempty in
      let same = some-injective _ _ (sym r ∙ r') in
      let x_is : qe ≡ x = ap (λ p. p.0) same in
      let jq_is : jq ≡ jq' = ap (λ p. p.1) same in
      let left : weigh wp.jq.items ≡ weight qe + weigh jq.items =
        ap weigh items ∙ cc (x_is, jq_is, items') in
      record {
        flagged = subst IsFlagged (sym jq_is) flagged;
        no_callback = k.no_callback;
        none_lost = omega (
          arith,
          k.none_lost,
          left,
          total_moves held before after wp.threads popping (popped qe) e,
        );
      }
  Step-IsKept {wp} (counts before after qe e) k = record {
    flagged = k.flagged;
    no_callback = k.no_callback;
    none_lost =
        omega
          (arith, k.none_lost, total_moves held before after wp.threads (popped qe) (counted qe) e);
  }
  Step-IsKept {wp} (calls before after qe e) k =
      let called : weigh (if wp.worker_init_callback then wp.executed else wp.executed ++ qe ∷ [])
          ≡ weigh wp.executed + weight qe =
        ap (λ (b : Bool). weigh (if b then wp.executed else wp.executed ++ qe ∷ [])) k.no_callback
        ∙ omega (arith, weigh-append wp.executed (qe ∷ [])) in
      record {
        flagged = k.flagged;
        no_callback = k.no_callback;
        none_lost = omega (
          arith,
          k.none_lost,
          called,
          total_moves held before after wp.threads (counted qe) ran e,
        );
      }
  Step-IsKept {wp} (discounts before after e) k = record {
    flagged = k.flagged;
    no_callback = k.no_callback;
    none_lost = omega (arith, k.none_lost, total_moves held before after wp.threads ran testing e);
  }

  total-held : (n : ℕ) → total held (replicate n testing) ≡ 0
  total-held zero = refl
  total-held (suc n) = omega (arith, total-held n)

  start-IsKept : (n : ℕ) (callback : Bool) → IsKept (start (worker_pool n callback))
  unfolding start worker_pool
  start-IsKept n callback = record {
    flagged = task_queue-IsFlagged;
    no_callback = refl;
    none_lost = omega (arith, total-held n);
  }

  Reach-IsKept :
      (n : ℕ) (callback : Bool) {wp : Pool A}
      → Reach (start (worker_pool n callback)) wp
      → IsKept wp
  Reach-IsKept n callback here = start-IsKept n callback
  Reach-IsKept n callback (next r st) = Step-IsKept st (Reach-IsKept n callback r)

  -- In every state that a started pool reaches, each task that was submitted is, exactly as often,
  -- queued, held by a worker, or executed, for whatever the tasks are weighed by.
  pub Reach-weigh :
      (n : ℕ) (callback : Bool) {wp : Pool A}
      → Reach (start (worker_pool n callback)) wp
      → weigh wp.submitted ≡ weigh wp.executed + total held wp.threads + weigh wp.jq.items
  Reach-weigh n callback r = (Reach-IsKept n callback r).none_lost
