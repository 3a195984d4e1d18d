-- ===== src/Stage/Tests.antt =====
-- Runs of a stage, and the theorems on them.
use seda_framework.Base.{
  true, ℕ, zero, suc, ◌≤◌, ◌<◌, ◌≡◌, refl, false, Option, some, List, [], ◌∷◌, ◌++◌, replicate,
  arith, not, none, ◌==◌,
}
use seda_framework.Base.Memory.{NoZero}
use seda_framework.Base.Dictionary.{Text}
use seda_framework.Stage.{Element, enqueue}
use seda_framework.Stage.Threads.{
  fetched, looping, StageState, queues, signals, calls_fetch, waits, takes, assigns, submits,
  handles, init, Reach, here, next,
}
use seda_framework.Stage.Fetching.{IsFetching, Reach-IsFetching}
use seda_framework.Stage.Handling.{two_elements_lost}
use seda_framework.Stage.Calm.{Calm, begins, after}
use seda_framework.Stage.Startup.{
  Zmq, done, sender_init, receiver_start, stage_start, stage_start_lem,
}
use seda_framework.Stage.Init.{
  StageTask, receiver_run, stage_control_run, stage_handler_run, init_tasks, init-IsStuck,
}
use seda_framework.Stage.Launch.{
  Launching, receives, Follows, launched, tested_first, Follows-unhandled, here as here_at_launch,
  next as next_launch,
}
use seda_framework.TaskQueue.Threads.{System, outside, empty_wait, Reach as PoolReach}
use seda_framework.TaskQueue.Wakeups.{Unpopped}

-- An element that holds "hi" and one message that is longer than the buffer.
abbrev greeting : Element
greeting = record { element = 104 ∷ 105 ∷ replicate 254 0; len = some 2 }

abbrev long_message : List ℕ
long_message = replicate 300 65

-- A handler that doubles its text, and one whose answer is too long.
abbrev twice : Text → Option Text
twice text = some (text ++ text)

abbrev endless : Text → Option Text
endless _ = some long_message

NoZero-replicate : (n : ℕ) → NoZero (replicate n 65)
NoZero-replicate zero = tt
NoZero-replicate (suc n) = (λ z. ground arith, NoZero-replicate n)

-- The first of two elements was handled; the second is at hand.
abbrev second_fetched : StageState ℕ
second_fetched = record {
  elements = [];
  signalling = false;
  handler = fetched 8;
  ie = some 7;
  jobs = 0;
  arrived = 7 ∷ 8 ∷ [];
  taken = 7 ∷ 8 ∷ [];
  handled = some 7 ∷ [];
}

second_run : Reach init second_fetched
unfolding enqueue
second_run =
    let slept = next (next here (calls_fetch refl)) (waits refl refl) in
    let came = next (next slept (queues 7 refl)) (signals refl) in
    let job = next (next (next came (takes 7 [] refl refl)) (assigns 7 refl)) (submits refl) in
    let done = next job (handles 0 refl) in
    let again = next (next (next done (queues 8 refl)) (signals refl)) (calls_fetch refl) in
    next again (takes 8 [] refl refl)

Reach-IsFetching_example : IsFetching second_fetched
Reach-IsFetching_example = Reach-IsFetching second_run

two_elements_lost_example :
    (s : StageState ℕ) × Reach init s
    × (s.arrived ≡ 7 ∷ 8 ∷ [])
    × (s.elements ≡ [])
    × (s.jobs ≡ 0)
    × (s.handler ≡ looping)
    × (s.handled ≡ some 8 ∷ some 8 ∷ [])
two_elements_lost_example = two_elements_lost 7 8

unhurried_run : Calm init second_fetched
unfolding enqueue
unhurried_run =
    let slept = after (after begins (calls_fetch refl) refl) (waits refl refl) refl in
    let came = after (after slept (queues 7 refl) refl) (signals refl) refl in
    let taken = after (after came (takes 7 [] refl refl) refl) (assigns 7 refl) refl in
    let done = after (after taken (submits refl) refl) (handles 0 refl) refl in
    let again = after (after done (queues 8 refl) refl) (signals refl) refl in
    after (after again (calls_fetch refl) refl) (takes 8 [] refl refl) refl

init-IsStuck_example :
    (s : System StageTask) × PoolReach true s
    × (s.pushed ≡ init_tasks)
    × (s.queue.items ≡ stage_control_run ∷ stage_handler_run ∷ [])
    × (s.pc 0 ≡ outside)
    × ((i : ℕ) → 0 < i → i ≤ 19 → s.pc i ≡ empty_wait)
    × ((t : System StageTask) → Unpopped s t → t.popped ≡ receiver_run ∷ [])
init-IsStuck_example = init-IsStuck 19

-- A handler that answers its text, and one that always answers "ok".
abbrev echo : Text → Option Text
echo text = some text

abbrev reply : Text → Option Text
reply _ = some (111 ∷ 107 ∷ [])

-- The handler is set too late, and an element arrives.
abbrev set_late : Launching Element (Text → Option Text)
set_late = tested_first twice

abbrev greeted : Launching Element (Text → Option Text)
greeted = record set_late {
  stage = record set_late.stage {
    elements = greeting ∷ [];
    signalling = true;
    arrived = greeting ∷ [];
  };
}

greeted-Follows : Follows set_late greeted
unfolding enqueue
greeted-Follows = next_launch here_at_launch (receives (queues greeting refl) tt)

Follows-unhandled_example :
    Follows (launched none) set_late
    × (greeted.stage.elements ≡ greeting ∷ [])
    × (greeted.stage.handled ≡ [])
Follows-unhandled_example = Follows-unhandled twice greeted greeted-Follows

-- "hi" as it is received, and a run in which it is handled.
abbrev hi : Text
hi = 104 ∷ 105 ∷ []

abbrev hi_element : Element
hi_element = record { element = hi ++ replicate 254 0; len = some 3 }

abbrev hi_handled : StageState Element
hi_handled = record {
  elements = [];
  signalling = false;
  handler = looping;
  ie = some hi_element;
  jobs = 0;
  arrived = hi_element ∷ [];
  taken = hi_element ∷ [];
  handled = some hi_element ∷ [];
}

-- Sockets that work, but for the address 9, which cannot be connected to.
abbrev sockets : Zmq ℕ
sockets = record {
  makes = true;
  binds = λ a. true;
  connects = λ a. not (a == 9);
  subscribes = true;
}

second_resource_unheard : stage_start sockets (9 ∷ 5 ∷ []) 7 ≡ some (done (7, none))
second_resource_unheard = stage_start_lem sockets 9 (5 ∷ []) 7

nothing_to_hear : stage_start sockets [] 7 ≡ none
unfolding stage_start sender_init receiver_start
nothing_to_hear = refl
