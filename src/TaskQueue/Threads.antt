-- ===== src/TaskQueue/Threads.antt =====
-- job_queue.cpp under threads: any number of them call `push` and `pop` on one mutex_task_queue. What
-- runs between two points where the mutex is free is one step, since every such stretch of `push` and
-- `pop` holds the mutex. A condition variable does what POSIX says: `pthread_cond_wait` frees the
-- mutex and sleeps, a signal wakes a sleeping thread if there is one, and a sleeper may wake without
-- a signal.
use seda_framework.Base.{ℕ, ◌≡◌, Bool, true, false, some, List, [], ◌∷◌, ◌++◌, ◌==◌, if◌then◌else◌}
use seda_framework.TaskQueue.{TaskQueue, task_queue, push_locked, pop_locked}

-- Where a thread stands: outside of both calls, before a test of their `while`, or asleep in one.
pub data Pc {ℓ} (A : Type ℓ) : Type ℓ where
  outside : Pc A
  pushing : A → Pc A
  full_wait : A → Pc A
  popping : Pc A
  empty_wait : Pc A

-- Threads are numbered. `pushed` and `popped` record what went through, oldest first.
pub record System {ℓ} (A : Type ℓ) : Type ℓ where
  pub queue : TaskQueue A
  pub pc : ℕ → Pc A
  pub pushed : List A
  pub popped : List A

module _ {ℓ} {A : Type ℓ} where
  abbrev pub update : (ℕ → Pc A) → ℕ → Pc A → ℕ → Pc A
  update pc i p j = if i == j then p else pc j

  -- A thread that wakes tests its condition again.
  abbrev pub resumed : Pc A → Pc A
  resumed (full_wait x) = pushing x
  resumed empty_wait = popping
  resumed p = p

  abbrev pub waits_full : Pc A → Bool
  waits_full (full_wait x) = true
  waits_full _ = false

  abbrev pub waits_empty : Pc A → Bool
  waits_empty empty_wait = true
  waits_empty _ = false

  -- What a signal does to the threads that `waits` finds asleep on the variable.
  pub data Signals (waits : Pc A → Bool) (signal : Bool) (pc pc' : ℕ → Pc A) : Type ℓ where
    silent : signal ≡ false → pc' ≡ pc → Signals waits signal pc pc'
    unheard :
        signal ≡ true → ((j : ℕ) → waits (pc j) ≡ false) → pc' ≡ pc → Signals waits signal pc pc'
    wakes :
        (j : ℕ)
        → signal ≡ true
        → waits (pc j) ≡ true
        → pc' ≡ update pc j (resumed (pc j))
        → Signals waits signal pc pc'

  -- With `strict` no thread wakes without a signal.
  pub data Step (strict : Bool) (s : System A) : System A → Type ℓ where
    call_push :
        (i : ℕ) (x : A)
        → s.pc i ≡ outside
        → Step strict s (record s { pc = update s.pc i (pushing x) })
    call_pop : (i : ℕ) → s.pc i ≡ outside → Step strict s (record s { pc = update s.pc i popping })
    wait_full :
        (i : ℕ) (x : A)
        → s.pc i ≡ pushing x
        → s.queue.full ≡ true
        → Step strict s (record s { pc = update s.pc i (full_wait x) })
    wait_empty :
        (i : ℕ)
        → s.pc i ≡ popping
        → s.queue.empty ≡ true
        → Step strict s (record s { pc = update s.pc i empty_wait })
    push :
        (i : ℕ) (x : A) {pc' : ℕ → Pc A}
        → s.pc i ≡ pushing x
        → s.queue.full ≡ false
        → Signals waits_empty (push_locked x s.queue).1 (update s.pc i outside) pc'
        → Step strict s
            (record s { queue = (push_locked x s.queue).0; pc = pc'; pushed = s.pushed ++ x ∷ [] })
    pop :
        (i : ℕ) (x : A) (q : TaskQueue A) (signal : Bool) {pc' : ℕ → Pc A}
        → s.pc i ≡ popping
        → s.queue.empty ≡ false
        → pop_locked s.queue ≡ some (x, q, signal)
        → Signals waits_full signal (update s.pc i outside) pc'
        → Step strict s (record s { queue = q; pc = pc'; popped = s.popped ++ x ∷ [] })
    stray :
        (i : ℕ)
        → strict ≡ false
        → Step strict s (record s { pc = update s.pc i (resumed (s.pc i)) })

  abbrev pub init : System A
  init = record { queue = task_queue; pc = λ _. outside; pushed = []; popped = [] }

  pub data Reach (strict : Bool) : System A → Type ℓ where
    begins : Reach strict init
    after : {s t : System A} → Reach strict s → Step strict s t → Reach strict t
