-- ===== src/Stage/Init.antt =====
-- stage.cpp, init: the pool is started and given its three tasks, none of which returns. The workers
-- are the threads 0 to `workers - 1` of the task queue; the caller of init is another thread.
use seda_framework.Base.{
  ℕ, zero, suc, ◌≤◌, ◌<◌, ◌≡◌, ◌≢◌, refl, ap, sym, ◌∙◌, true, false, List, [], ◌∷◌, ◌++◌, arith,
  ltb, inl, inr, Bool-cases,
}
use seda_framework.TaskQueue.{task_queue, push_locked, pop_locked}
use seda_framework.TaskQueue.Threads.{
  Pc, resumed, waits_empty, System, outside, pushing, popping, empty_wait, update, silent, wakes,
  call_push, call_pop, wait_empty, push, pop, Reach, begins, after,
}
use seda_framework.TaskQueue.Wakeups.{Unpopped, Unpopped-IsStuck}

-- The functions that init hands to the pool, in its order.
pub data StageTask : Type 0 where
  receiver_run stage_control_run stage_handler_run : StageTask

abbrev pub init_tasks : List StageTask
init_tasks = receiver_run ∷ stage_control_run ∷ stage_handler_run ∷ []

-- A system whose queue nobody has touched.
abbrev fresh : (ℕ → Pc StageTask) → System StageTask
fresh pc = record { queue = task_queue; pc = pc; pushed = []; popped = [] }

-- The first `n` threads sleep in `pop`, and the others are outside.
record AllAsleep (n : ℕ) (pc : ℕ → Pc StageTask) : Type 0 where
  asleep : (i : ℕ) → i < n → pc i ≡ empty_wait
  others : (i : ℕ) → n ≤ i → pc i ≡ outside

update_at : (pc : ℕ → Pc StageTask) (i : ℕ) (p : Pc StageTask) → update pc i p i ≡ p
update_at pc i p = ground arith

update_away : (pc : ℕ → Pc StageTask) (i j : ℕ) (p : Pc StageTask) → i ≢ j → update pc i p j ≡ pc j
update_away pc i j p away = ground arith

workers_asleep : (n : ℕ) → (pc : ℕ → Pc StageTask) × Reach true (fresh pc) × AllAsleep n pc
workers_asleep zero =
    (_, begins, record { asleep = λ i h. absurd (omega arith); others = λ i h. refl })
workers_asleep (suc n) =
    let (pc, r, a) = workers_asleep n in
    let called = after r (call_pop n (a.others n (omega arith))) in
    let waits = after called (wait_empty n (update_at pc n popping) refl) in
    (
      _,
      waits,
      record {
        asleep = λ i h. ground (arith, a.asleep i);
        others = λ i h. ground (arith, a.others i);
      },
    )

-- A push by a thread that is outside, silent since the queue is not empty.
push_silent :
    {s : System StageTask} (c : ℕ) (x : StageTask)
    → Reach true s
    → s.pc c ≡ outside
    → s.queue.full ≡ false
    → (push_locked x s.queue).1 ≡ false
    → Reach true (record s {
      queue = (push_locked x s.queue).0;
      pc = update (update s.pc c (pushing x)) c outside;
      pushed = s.pushed ++ x ∷ [];
    })
push_silent {s} c x r at_c open_ quiet =
    after (after r (call_push c x at_c))
      (push c x (update_at s.pc c (pushing x)) open_ (silent quiet refl))

-- The first thread is about to take a task, the next `n` sleep, and the others are outside.
record IsWoken (n : ℕ) (pc : ℕ → Pc StageTask) : Type 0 where
  first : pc 0 ≡ popping
  asleep : (i : ℕ) → 0 < i → i ≤ n → pc i ≡ empty_wait
  others : (i : ℕ) → n < i → pc i ≡ outside

-- A push by thread `suc n` leaves it where it was.
IsWoken-update :
    (n : ℕ) (pc : ℕ → Pc StageTask) (p : Pc StageTask)
    → IsWoken n pc
    → IsWoken n (update (update pc (suc n) p) (suc n) outside)
IsWoken-update n pc p w = record {
  first = ground (arith, w.first);
  asleep = λ i lt le. ground (arith, w.asleep i lt le);
  others = λ i lt. ground (arith, w.others i lt);
}

-- The first push wakes the first worker.
first_worker_wakes :
    (n : ℕ)
    → (pc : ℕ → Pc StageTask) × Reach true (record {
      queue = (push_locked receiver_run task_queue).0;
      pc = pc;
      pushed = receiver_run ∷ [];
      popped = [];
    })
      × IsWoken n pc
unfolding push_locked
first_worker_wakes n =
    let (pc, r, a) = workers_asleep (suc n) in
    let called = after r (call_push (suc n) receiver_run (a.others (suc n) (omega arith))) in
    let left = update (update pc (suc n) (pushing receiver_run)) (suc n) outside in
    let sleeps : left 0 ≡ empty_wait = ground (arith, a.asleep 0) in
    let pushed = after called (
      push (suc n) receiver_run (update_at pc (suc n) (pushing receiver_run)) refl
        (wakes 0 refl (ap waits_empty sleeps) refl)) in
    (
      _,
      pushed,
      record {
        first = ap resumed sleeps;
        asleep = λ i lt le. ground (arith, a.asleep i);
        others = λ i lt. ground (arith, a.others i);
      },
    )

-- Once the first has taken its task, no thread is awake in `pop`.
none_popping :
    (n : ℕ) (pc : ℕ → Pc StageTask) → IsWoken n pc → (i : ℕ) → update pc 0 outside i ≢ popping
none_popping n pc w zero = cc
none_popping n pc w (suc i) =
    let kept = update_away pc 0 (suc i) outside (λ z. omega (arith, z)) in
    elim (Bool-cases (ltb i n)) [
      | inl sleeps ↦
          let e = kept ∙ w.asleep (suc i) (omega arith) (ground arith) in λ h. cc (sym e ∙ h)
      | inr away ↦ let e = kept ∙ w.others (suc i) (ground arith) in λ h. cc (sym e ∙ h)
    ]

-- For a pool of any positive size, `suc n`, a run of init is reached, without spurious wake-ups, after
-- which, without them and until a further thread calls `pop`, no task but receiver::run is ever taken,
-- whatever is pushed: stage_control::run and stage_handler::run wait in the queue, behind them all
-- workers sleep but the first, which runs receiver::run and does not come back.
pub init-IsStuck :
    (n : ℕ)
    → (s : System StageTask) × Reach true s
      × (s.pushed ≡ init_tasks)
      × (s.queue.items ≡ stage_control_run ∷ stage_handler_run ∷ [])
      × (s.pc 0 ≡ outside)
      × ((i : ℕ) → 0 < i → i ≤ n → s.pc i ≡ empty_wait)
      × ((t : System StageTask) → Unpopped s t → t.popped ≡ receiver_run ∷ [])
unfolding push_locked pop_locked
init-IsStuck n =
    let (pc, r, w) = first_worker_wakes n in
    let second =
      push_silent (suc n) stage_control_run r (w.others (suc n) (omega arith)) refl refl in
    let w' = IsWoken-update n pc (pushing stage_control_run) w in
    let pc' = update (update pc (suc n) (pushing stage_control_run)) (suc n) outside in
    let third =
      push_silent (suc n) stage_handler_run second (w'.others (suc n) (omega arith)) refl refl in
    let w'' = IsWoken-update n pc' (pushing stage_handler_run) w' in
    let pc'' = update (update pc' (suc n) (pushing stage_handler_run)) (suc n) outside in
    let taken = after third (pop 0 receiver_run _ _ w''.first refl refl (silent refl refl)) in
    (
      _,
      taken,
      refl,
      refl,
      refl,
      λ i lt le. update_away pc'' 0 i outside (λ e. omega (arith, e, lt)) ∙ w''.asleep i lt le,
      λ t u. (Unpopped-IsStuck (record { nonempty = refl; asleep = none_popping n pc'' w'' }) u).1,
    )
