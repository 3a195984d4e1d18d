-- ===== src/TaskQueue/Wakeups.antt =====
-- job_queue.cpp: `push` signals only when it finds the queue empty, so it can leave a thread asleep
-- beside a task.
use seda_framework.Base.{ℕ, ◌≡◌, ◌≢◌, refl, ◌∙◌, Bool, true, false, [], ◌∷◌, arith}
use seda_framework.TaskQueue.{TaskQueue, push_locked, pop_locked}
use seda_framework.TaskQueue.Threads.{
  System, outside, popping, empty_wait, silent, unheard, wakes, Step, call_push, call_pop,
  wait_full, wait_empty, push, pop, stray, Reach, begins, after,
}

module _ {ℓ} {A : Type ℓ} where
  -- Tasks are queued, and no thread stands inside `pop` awake.
  pub record IsStuck (s : System A) : Type ℓ where
    pub nonempty : s.queue.empty ≡ false
    pub asleep : (i : ℕ) → s.pc i ≢ popping

  -- A thread that was outside enters `pop`.
  abbrev pub calls_pop : {strict : Bool} {s t : System A} → Step strict s t → Bool
  calls_pop (call_pop i e) = true
  calls_pop _ = false

  -- A run without spurious wake-ups in which no thread enters `pop`; others may push.
  pub data Unpopped (s : System A) : System A → Type ℓ where
    stays : Unpopped s s
    goes_on :
        {t u : System A} → Unpopped s t → (st : Step true t u) → calls_pop st ≡ false → Unpopped s u

  Keeps : System A → System A → Type ℓ
  Keeps s t =
      IsStuck t × (t.popped ≡ s.popped) × ((i : ℕ) → s.pc i ≡ empty_wait → t.pc i ≡ empty_wait)

  push_quiet : (x : A) (q : TaskQueue A) → q.empty ≡ false → (push_locked x q).1 ≡ false
  unfolding push_locked
  push_quiet x q h = h

  push_nonempty : (x : A) (q : TaskQueue A) → (push_locked x q).0.empty ≡ false
  unfolding push_locked
  push_nonempty x q = refl

  Step-Keeps : {s t : System A} (st : Step true s t) → calls_pop st ≡ false → IsStuck s → Keeps s t
  unfolding Keeps
  Step-Keeps {s} (call_push i x e) c k = (
    record { nonempty = k.nonempty; asleep = λ j. ground (arith, k.asleep j) },
    refl,
    λ j w. ground arith,
  )
  Step-Keeps (call_pop i e) c k = cc
  Step-Keeps {s} (wait_full i x e h) c k = (
    record { nonempty = k.nonempty; asleep = λ j. ground (arith, k.asleep j) },
    refl,
    λ j w. ground arith,
  )
  Step-Keeps {s} (wait_empty i e h) c k = absurd (k.asleep i e)
  Step-Keeps {s} (push i x e h (silent q same)) c k = (
    record {
      nonempty = push_nonempty x s.queue;
      asleep = λ j. rw same (ground (arith, k.asleep j));
    },
    refl,
    λ j w. rw same (ground arith),
  )
  Step-Keeps {s} (push i x e h (unheard q none_waits same)) c k =
      absurd (cc (q, push_quiet x s.queue k.nonempty))
  Step-Keeps {s} (push i x e h (wakes j q waits same)) c k =
      absurd (cc (q, push_quiet x s.queue k.nonempty))
  Step-Keeps {s} (pop i x q signal e h r w) c k = absurd (k.asleep i e)
  Step-Keeps (stray i e) c k = absurd (cc e)

  -- From a state with a queued task and no thread awake inside `pop`, without spurious wake-ups, no
  -- sleeper wakes and no task is taken, however many tasks are pushed, until a thread that was outside
  -- calls `pop`.
  pub Unpopped-IsStuck :
      {s t : System A}
      → IsStuck s
      → Unpopped s t
      → IsStuck t × (t.popped ≡ s.popped) × ((i : ℕ) → s.pc i ≡ empty_wait → t.pc i ≡ empty_wait)
  unfolding Keeps Step-Keeps
  Unpopped-IsStuck k stays = (k, refl, λ i w. w)
  Unpopped-IsStuck k (goes_on r st c) =
      let (k', same, waits) = Unpopped-IsStuck k r in
      let (k'', same', waits') = Step-Keeps st c k' in
      (k'', same' ∙ same, λ i w. waits' i (waits i w))

  -- A lost wake-up is reached from the start, without spurious wake-ups, for any two tasks: two threads
  -- call `pop` and sleep, two tasks are pushed in a row, and the thread that was woken takes the
  -- first. The second task stays in the queue, with a thread asleep beside it.
  pub two_pushes-IsStuck :
      (x y : A)
      → (s : System A) × Reach true s
        × IsStuck s
        × (s.popped ≡ x ∷ [])
        × (s.queue.items ≡ y ∷ [])
        × (s.pc 0 ≡ outside)
        × (s.pc 1 ≡ empty_wait)
  unfolding push_locked pop_locked
  two_pushes-IsStuck x y =
      let asleep_0 = after (after begins (call_pop 0 refl)) (wait_empty 0 refl refl) in
      let asleep_1 = after (after asleep_0 (call_pop 1 refl)) (wait_empty 1 refl refl) in
      let first =
        after (after asleep_1 (call_push 2 x refl)) (push 2 x refl refl (wakes 0 refl refl refl)) in
      let second =
        after (after first (call_push 2 y refl)) (push 2 y refl refl (silent refl refl)) in
      let taken = after second (pop 0 x _ _ refl refl refl (silent refl refl)) in
      (_, taken, record { nonempty = refl; asleep = λ i. ground arith }, refl, refl, refl, refl)
