-- ===== src/WorkerPool/Counting.antt =====
-- worker_pool.cpp, per_worker_task: the count of running workers, and the end of the pool.
use seda_framework.Base.{
  ℕ, zero, suc, ◌+◌, ◌-◌, ◌≤◌, ◌<◌, ◌≡◌, refl, ap, sym, ◌∙◌, subst, Bool, true, false, List, [],
  ◌∷◌, ◌++◌, replicate, length, length-append, length-replicate, arith, if◌then◌else◌,
}
use seda_framework.TaskQueue.{TaskQueue}
use seda_framework.WorkerPool.{
  WorkerPc, testing, popping, ran, ended, popped, counted, Pool, worker_pool, start, Step, run,
  tests, pops, counts, calls, discounts, Reach, here, next, AllEnded, get_runnning_worker_num,
}

module _ {ℓ} {A : Type ℓ} where
  -- A worker between the two changes of `running_num`.
  abbrev pub is_busy : WorkerPc A → ℕ
  is_busy testing = 0
  is_busy popping = 0
  is_busy ended = 0
  is_busy (popped qe) = 0
  is_busy (counted qe) = 1
  is_busy ran = 1

  -- What a measure of one worker comes to over all of them.
  abbrev pub total : (WorkerPc A → ℕ) → List (WorkerPc A) → ℕ
  total f [] = 0
  total f (pc ∷ threads) = f pc + total f threads

  pub total-append :
      (f : WorkerPc A → ℕ) (before : List (WorkerPc A)) (pc : WorkerPc A)
      (after : List (WorkerPc A))
      → total f (before ++ pc ∷ after) ≡ total f before + f pc + total f after
  total-append f [] pc after = omega arith
  total-append f (x ∷ before) pc after = omega (arith, total-append f before pc after)

  total-le-length :
      (f : WorkerPc A → ℕ)
      → ((pc : WorkerPc A) → f pc ≤ 1)
      → (threads : List (WorkerPc A)) → total f threads ≤ length threads
  total-le-length f small [] = omega arith
  total-le-length f small (pc ∷ threads) = omega (arith, small pc, total-le-length f small threads)

  is_busy-le-one : (pc : WorkerPc A) → is_busy pc ≤ 1
  is_busy-le-one testing = omega arith
  is_busy-le-one popping = omega arith
  is_busy-le-one ended = omega arith
  is_busy-le-one (popped qe) = omega arith
  is_busy-le-one (counted qe) = omega arith
  is_busy-le-one ran = omega arith

  abbrev pub is_ended : WorkerPc A → ℕ
  is_ended testing = 0
  is_ended popping = 0
  is_ended ended = 1
  is_ended (popped qe) = 0
  is_ended (counted qe) = 0
  is_ended ran = 0

  -- `running_num` counts the busy workers, of which there are `n` at most, and none has ended.
  pub record IsCounted (n : ℕ) (wp : Pool A) : Type 0 where
    pub counts_busy : wp.running_num ≡ total is_busy wp.threads
    pub all_threads : length wp.threads ≡ n
    pub keeps_running : wp.running ≡ true
    pub none_ended : total is_ended wp.threads ≡ 0
    pub no_callback : wp.worker_init_callback ≡ false

  -- How a measure changes when one worker moves.
  pub total_moves :
      (f : WorkerPc A → ℕ) (before after threads : List (WorkerPc A)) (pc pc' : WorkerPc A)
      → threads ≡ before ++ pc ∷ after
      → total f (before ++ pc' ∷ after) + f pc ≡ total f threads + f pc'
  total_moves f before after threads pc pc' e =
      let old = ap (total f) e ∙ total-append f before pc after in
      omega (arith, old, total-append f before pc' after)

  length_moves :
      (before after threads : List (WorkerPc A)) (pc pc' : WorkerPc A)
      → threads ≡ before ++ pc ∷ after
      → length (before ++ pc' ∷ after) ≡ length threads
  length_moves before after threads pc pc' e =
      let old = ap length e ∙ length-append before (pc ∷ after) in
      omega (arith, old, length-append before (pc' ∷ after))

  -- A worker moves, and the count moves with it.
  IsCounted-moves :
      (n : ℕ) (wp : Pool A) (jq : TaskQueue A) (before after : List (WorkerPc A))
      (pc pc' : WorkerPc A) (running_num : ℕ) (taken executed : List A)
      → IsCounted n wp
      → wp.threads ≡ before ++ pc ∷ after
      → running_num + is_busy pc ≡ wp.running_num + is_busy pc'
      → is_ended pc' ≡ 0
      → IsCounted n (record wp {
        jq = jq;
        threads = before ++ pc' ∷ after;
        running_num = running_num;
        taken = taken;
        executed = executed;
      })
  IsCounted-moves n wp jq before after pc pc' running_num taken executed c e count live =
      let busy = total_moves is_busy before after wp.threads pc pc' e in
      let fin = total_moves is_ended before after wp.threads pc pc' e in
      record {
        counts_busy = omega (arith, busy, c.counts_busy, count);
        all_threads = length_moves before after wp.threads pc pc' e ∙ c.all_threads;
        keeps_running = c.keeps_running;
        none_ended = omega (arith, fin, c.none_ended, live);
        no_callback = c.no_callback;
      }

  busy_positive :
      (before after threads : List (WorkerPc A))
      → threads ≡ before ++ ran ∷ after
      → 0 < total is_busy threads
  busy_positive before after threads e =
      let old = ap (total is_busy) e ∙ total-append is_busy before ran after in omega (arith, old)

  pub Step-IsCounted : (n : ℕ) {wp wp' : Pool A} → Step wp wp' → IsCounted n wp → IsCounted n wp'
  Step-IsCounted n {wp} (run qe open_) c = record {
    counts_busy = c.counts_busy;
    all_threads = c.all_threads;
    keeps_running = c.keeps_running;
    none_ended = c.none_ended;
    no_callback = c.no_callback;
  }
  Step-IsCounted n {wp} (tests before after e) c =
      subst
        (λ (b : Bool).
          IsCounted n (record wp { threads = before ++ (if b then popping else ended) ∷ after }))
        (sym c.keeps_running)
        (IsCounted-moves n wp wp.jq before after testing popping wp.running_num wp.taken wp.executed
          c e refl refl)
  Step-IsCounted n {wp} (pops before after qe jq signal e q r) c =
      IsCounted-moves n wp jq before after popping (popped qe) wp.running_num (wp.taken ++ qe ∷ [])
        wp.executed c e refl refl
  Step-IsCounted n {wp} (counts before after qe e) c =
      IsCounted-moves n wp wp.jq before after (popped qe) (counted qe) (wp.running_num + 1) wp.taken
        wp.executed c e (omega arith) refl
  Step-IsCounted n {wp} (calls before after qe e) c =
      IsCounted-moves n wp wp.jq before after (counted qe) ran wp.running_num wp.taken
        (if wp.worker_init_callback then wp.executed else wp.executed ++ qe ∷ []) c e refl refl
  Step-IsCounted n {wp} (discounts before after e) c =
      IsCounted-moves n wp wp.jq before after ran testing (wp.running_num - 1) wp.taken wp.executed
        c e (omega (arith, busy_positive before after wp.threads e, c.counts_busy)) refl

  total-replicate :
      (f : WorkerPc A → ℕ) → f testing ≡ 0 → (n : ℕ) → total f (replicate n testing) ≡ 0
  total-replicate f none_yet zero = refl
  total-replicate f none_yet (suc n) = omega (arith, none_yet, total-replicate f none_yet n)

  pub start-IsCounted : (n : ℕ) (callback : Bool) → IsCounted n (start (worker_pool n callback))
  unfolding start worker_pool
  start-IsCounted n callback = record {
    counts_busy = sym (total-replicate is_busy refl n);
    all_threads = length-replicate n testing;
    keeps_running = refl;
    none_ended = total-replicate is_ended refl n;
    no_callback = refl;
  }

  Reach-IsCounted : (n : ℕ) {wp wp' : Pool A} → Reach wp wp' → IsCounted n wp → IsCounted n wp'
  Reach-IsCounted n here c = c
  Reach-IsCounted n (next r st) c = Step-IsCounted n st (Reach-IsCounted n r c)

  -- In every state that a started pool of `n` workers reaches, getRunnningWorkerNum gives the number of
  -- workers between the two changes of the count, and that is at most `n`.
  pub Reach-running_num :
      (n : ℕ) (callback : Bool) {wp : Pool A}
      → Reach (start (worker_pool n callback)) wp
      → (get_runnning_worker_num wp ≡ total is_busy wp.threads) × (get_runnning_worker_num wp ≤ n)
  Reach-running_num n callback {wp} r =
      let c = Reach-IsCounted n r (start-IsCounted n callback) in
      (
        c.counts_busy,
        omega (
          arith,
          c.counts_busy,
          c.all_threads,
          total-le-length is_busy is_busy-le-one wp.threads,
        ),
      )

  ended_all :
      (threads : List (WorkerPc A)) → AllEnded threads → total is_ended threads ≡ length threads
  ended_all [] h = refl
  ended_all (testing ∷ threads) h = absurd h
  ended_all (popping ∷ threads) h = absurd h
  ended_all (ran ∷ threads) h = absurd h
  ended_all (ended ∷ threads) h = omega (arith, ended_all threads h)
  ended_all (popped qe ∷ threads) h = absurd h
  ended_all (counted qe ∷ threads) h = absurd h

  -- A started pool with at least one worker never reaches a state in which `stop`, and with it the
  -- destructor, could return: nothing clears `running`, so no worker ends.
  pub Reach-AllEnded :
      (n : ℕ) (callback : Bool) {wp : Pool A}
      → 0 < n
      → Reach (start (worker_pool n callback)) wp
      → AllEnded wp.threads
      → ⊥
  Reach-AllEnded n callback {wp} some_worker r done =
      let c = Reach-IsCounted n r (start-IsCounted n callback) in
      absurd (omega (arith, some_worker, c.all_threads, c.none_ended, ended_all wp.threads done))
