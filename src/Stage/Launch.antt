-- ===== src/Stage/Launch.antt =====
-- main.cpp, runStage, with the start of stage_handler::run in stage_handler.cpp: runStage sets the handler
-- after stage::init has given stage_handler::run to the pool. The constructor of Function leaves the
-- pointer as the memory is, which is given.
use seda_framework.Base.{◌≡◌, refl, ap, ◌∙◌, Option, none, some, [], ◌∷◌, ◌++◌}
use seda_framework.Stage.Threads.{
  looping, woken, StageState, init, Step, queues, signals, calls_fetch, waits, takes, assigns,
  submits, handles, stray,
}
use seda_framework.Stage.Fetching.{append-enqueue}

-- The member `fun` of the stage_handler, what stage_handler::run found there when it tested it, and the
-- threads of the stage.
pub record Launching {ℓ κ} (E : Type ℓ) (F : Type κ) : Type (ℓ ⊔ κ) where
  pub fun : Option F
  pub tested : Option (Option F)
  pub stage : StageState E

-- The steps of receiver::run.
abbrev pub IsReceiving {ℓ} : {E : Type ℓ} {s t : StageState E} → Step s t → Type 0
IsReceiving (queues e idle) = Unit
IsReceiving (signals busy) = Unit
IsReceiving _ = ⊥

module _ {ℓ κ} {E : Type ℓ} {F : Type κ} where
  -- runStage sets the handler; stage_handler::run tests it, once; the receiver goes on; and the threads
  -- behind the test go on where it found a handler.
  pub data Launches (s : Launching E F) : Launching E F → Type (ℓ ⊔ κ) where
    sets : (f : F) → Launches s (record s { fun = some f })
    tests : s.tested ≡ none → Launches s (record s { tested = some s.fun })
    receives :
        {stage : StageState E} (step : Step s.stage stage)
        → IsReceiving step
        → Launches s (record s { stage = stage })
    works :
        {stage : StageState E} (f : F)
        → s.tested ≡ some (some f)
        → Step s.stage stage
        → Launches s (record s { stage = stage })

  pub data Follows (s : Launching E F) : Launching E F → Type (ℓ ⊔ κ) where
    here : Follows s s
    next : {t u : Launching E F} → Follows s t → Launches t u → Follows s u

  -- A new stage_handler, given what the memory of the pointer holds: `none` is NULL.
  abbrev pub launched : Option F → Launching E F
  launched memory = record { fun = memory; tested = none; stage = init }

  -- The thread of stage_handler::run has ended, and nothing has been taken.
  record IsEnded (s : Launching E F) : Type (ℓ ⊔ κ) where
    found_none : s.tested ≡ some none
    at_start : s.stage.handler ≡ looping
    queued : s.stage.elements ≡ s.stage.arrived
    unhandled : s.stage.handled ≡ []

  receives-IsEnded :
      (s : Launching E F) {stage : StageState E} (step : Step s.stage stage)
      → IsReceiving step
      → IsEnded s
      → IsEnded (record s { stage = stage })
  receives-IsEnded s (queues e idle) r i = record {
    found_none = i.found_none;
    at_start = i.at_start;
    queued = append-enqueue e s.stage.elements ∙ ap (λ xs. xs ++ e ∷ []) i.queued;
    unhandled = i.unhandled;
  }
  receives-IsEnded s (signals busy) r i = record {
    found_none = i.found_none;
    at_start = ap woken i.at_start;
    queued = i.queued;
    unhandled = i.unhandled;
  }
  receives-IsEnded s (calls_fetch e) r i = absurd r
  receives-IsEnded s (waits e empty) r i = absurd r
  receives-IsEnded s (takes e elements at_test front) r i = absurd r
  receives-IsEnded s (assigns e at_fetched) r i = absurd r
  receives-IsEnded s (submits e) r i = absurd r
  receives-IsEnded s (handles n e) r i = absurd r
  receives-IsEnded s (stray e) r i = absurd r

  Launches-IsEnded : {s t : Launching E F} → Launches s t → IsEnded s → IsEnded t
  Launches-IsEnded (sets f) i = record {
    found_none = i.found_none;
    at_start = i.at_start;
    queued = i.queued;
    unhandled = i.unhandled;
  }
  Launches-IsEnded (tests e) i = absurd (cc (e, i.found_none))
  Launches-IsEnded {s} (receives step r) i = receives-IsEnded s step r i
  Launches-IsEnded (works f e step) i = absurd (cc (e, i.found_none))

  Follows-IsEnded : {s t : Launching E F} → Follows s t → IsEnded s → IsEnded t
  Follows-IsEnded here i = i
  Follows-IsEnded (next f step) i = Launches-IsEnded step (Follows-IsEnded f i)

  -- The worker has tested the handler before runStage has set it to `f`.
  abbrev pub tested_first : F → Launching E F
  tested_first f = record { fun = some f; tested = some none; stage = init }

  -- If the memory of the handler's pointer, which no constructor writes, happens to hold NULL, then a
  -- worker can test the pointer before runStage sets it, and from then on nothing is ever handled:
  -- whatever follows, each element that has arrived is still in the queue.
  pub Follows-unhandled :
      (f : F) (t : Launching E F)
      → Follows (tested_first f) t
      → Follows (launched none) (tested_first f)
        × (t.stage.elements ≡ t.stage.arrived)
        × (t.stage.handled ≡ [])
  Follows-unhandled f t follows =
      let i =
        Follows-IsEnded follows
          (record { found_none = refl; at_start = refl; queued = refl; unhandled = refl }) in
      (next (next here (tests refl)) (sets f), i.queued, i.unhandled)
