-- ===== src/Stage/Threads.antt =====
-- The threads of a stage: receiver::run, stage_handler::run with receiver::fetchOne, and the workers
-- that run stage_handler::handlerFunc. The queue is touched under one mutex, so a stretch that holds
-- it is one step. `sh->ie` has no lock: its assignment is a step of its own. A task of the pool is always
-- the pair of handlerFunc and the stage_handler, so the calls of handlerFunc that were given to the pool
-- and have not returned are a number. Such a call, which is given a pointer into `sh->ie` and sends its
-- answer, is one step, at its return: a call during which `sh->ie` is assigned may also read a mixture
-- of two elements, which is left out. Nothing clears `running` once a loop has been entered.
use seda_framework.Base.{ℕ, suc, ◌≡◌, Bool, true, false, Option, none, some, List, [], ◌∷◌, ◌++◌}
use seda_framework.Stage.{enqueue}

-- Where the thread of stage_handler::run stands: before fetchOne, at the test of its wait, asleep in
-- it, with the element that fetchOne returned, and before `wp->run`.
pub data HandlerPc {ℓ} (E : Type ℓ) : Type ℓ where
  looping testing asleep submitting : HandlerPc E
  fetched : E → HandlerPc E

-- `signalling` says that the receiver has released the mutex and still has to signal. `arrived`,
-- `taken` and `handled` record what the receiver queued, what fetchOne gave and what stood in `sh->ie` for
-- each call of handlerFunc that has returned, in the order of the returns; `jobs` are the calls that wait
-- for a worker or run.
pub record StageState {ℓ} (E : Type ℓ) : Type ℓ where
  pub elements : List E
  pub signalling : Bool
  pub handler : HandlerPc E
  pub ie : Option E
  pub jobs : ℕ
  pub arrived : List E
  pub taken : List E
  pub handled : List (Option E)

module _ {ℓ} {E : Type ℓ} where
  -- A signal wakes the one thread that can sleep.
  abbrev pub woken : HandlerPc E → HandlerPc E
  woken asleep = testing
  woken pc = pc

  pub data Step (s : StageState E) : StageState E → Type ℓ where
    queues :
        (e : E)
        → s.signalling ≡ false
        → Step s (record s {
          elements = (enqueue e s.elements).0;
          signalling = (enqueue e s.elements).1;
          arrived = s.arrived ++ e ∷ [];
        })
    signals :
        s.signalling ≡ true → Step s (record s { signalling = false; handler = woken s.handler })
    calls_fetch : s.handler ≡ looping → Step s (record s { handler = testing })
    waits : s.handler ≡ testing → s.elements ≡ [] → Step s (record s { handler = asleep })
    takes :
        (e : E) (elements : List E)
        → s.handler ≡ testing
        → s.elements ≡ e ∷ elements
        → Step s (record s { handler = fetched e; elements = elements; taken = s.taken ++ e ∷ [] })
    assigns :
        (e : E) → s.handler ≡ fetched e → Step s (record s { handler = submitting; ie = some e })
    submits : s.handler ≡ submitting → Step s (record s { handler = looping; jobs = suc s.jobs })
    handles :
        (n : ℕ) → s.jobs ≡ suc n → Step s (record s { jobs = n; handled = s.handled ++ s.ie ∷ [] })
    stray : s.handler ≡ asleep → Step s (record s { handler = testing })

  abbrev pub init : StageState E
  init = record {
    elements = [];
    signalling = false;
    handler = looping;
    ie = none;
    jobs = 0;
    arrived = [];
    taken = [];
    handled = [];
  }

  pub data Reach (s : StageState E) : StageState E → Type ℓ where
    here : Reach s s
    next : {t u : StageState E} → Reach s t → Step t u → Reach s u
