-- ===== src/Programs/Flow.antt =====
-- main.cpp with stage.cpp: a message that runs through the two stages of the program.
use seda_framework.Base.{
  ℕ, ◌≡◌, Bool, true, false, Option, none, some, List, [], ◌∷◌, drop, ◌==◌, if◌then◌else◌, All,
}
use seda_framework.Base.Memory.{◌>>=◌}
use seda_framework.Base.Dictionary.{Text}
use seda_framework.Stage.{receive, handler_func}
use seda_framework.Stage.Startup.{Zmq, Starting, aborted, exited, done, stage_start}
use seda_framework.Stage.Pipeline.{all_messages}
use seda_framework.Programs.{
  Endpoint, localhost, any_host, nowhere, Launch, first_stage, second_stage, Handler,
  receive_and_response, search_cache,
}
use seda_framework.Programs.Handlers.{Reply, logged_str}
use seda_framework.Programs.Handlers
use seda_framework.Redis.{Connected, no_memory, with_error, without_error}

-- receiver::run and handlerFunc of a stage on one message, with a handler that is given the block of
-- the element: the messages that are sent.
unfoldable pub stage_message : (List ℕ → Option (Option Text)) → List ℕ → Option (List (List ℕ))
unfolding receive handler_func
stage_message handler msg = do
  e ← receive msg
  res_msg ← handler e.element
  handler_func (λ _. res_msg) e

-- Whether a subscriber hears what a publisher sends on an address of the same machine.
abbrev pub hears : Endpoint → Option Endpoint → Bool
hears (any_host port) (some (localhost port')) = port == port'
hears addr heard = false

-- The functions that the handlers are, where a command to Redis is answered as given.
abbrev pub called : Connected → Reply → Handler → List ℕ → Option (Option Text)
called connected reply receive_and_response = Handlers.receive_and_response
called connected reply search_cache = Handlers.search_cache connected reply

-- What a run of a stage depends on: what ZeroMQ gives; whether runStage, which sets the handler after
-- stage::init has given stage_handler::run to the pool, sets it before that tests it; and how many
-- messages are published before the receiver has subscribed, which it does not get.
pub record Conditions : Type 0 where
  pub sockets : Zmq Endpoint
  pub handler_set : Bool
  pub missed : ℕ

-- A stage that is started by runStage, on messages that are published on an address, one of them after
-- the other has been handled: what it publishes on, if it runs, and the messages that it sends. `none`
-- is undefined: a read out of bounds, or a test of the handler's pointer before anything is written to
-- it.
unfoldable pub run_stage :
    Conditions
    → Connected
    → Reply
    → Launch
    → Endpoint
    → List (List ℕ)
    → Option (Starting (Endpoint × List (List ℕ)))
unfolding stage_start stage_message Handlers.receive_and_response Handlers.search_cache
run_stage z connected reply launch from msgs =
    stage_start z.sockets launch.res launch.des >>= λ start. elim start [
      | aborted ↦ some aborted
      | exited ↦ some exited
      | done (addr, heard) ↦
          if z.handler_set
          then (all_messages (stage_message (called connected reply launch.handler))
                (if hears from heard then drop z.missed msgs else [])
              >>= λ out. some (done (addr, out)))
          else none
    ]

-- The two processes of main that run a stage, on messages that another program publishes on port 5666.
unfoldable pub two_stages :
    Conditions
    → Conditions
    → Connected
    → Reply
    → List (List ℕ)
    → Option (Starting (Endpoint × List (List ℕ)))
unfolding run_stage
two_stages z z' connected reply msgs =
    run_stage z connected reply first_stage (any_host 5666) msgs >>= λ first. elim first [
      | aborted ↦ run_stage z' connected reply second_stage nowhere []
      | exited ↦ run_stage z' connected reply second_stage nowhere []
      | done (addr, out) ↦ run_stage z' connected reply second_stage addr out
    ]

-- The sockets can be made, bound, connected and subscribed to, the handler is set before it is tested,
-- and the receiver has subscribed before anything is published.
abbrev pub Usable : Conditions → Launch → Type 0
Usable z launch =
    (z.sockets.makes ≡ true)
    × (z.sockets.binds launch.des ≡ true)
    × All (λ r. z.sockets.connects r ≡ true) launch.res
    × (z.sockets.subscribes ≡ true)
    × (z.handler_set ≡ true)
    × (z.missed ≡ 0)

-- The answer of the second stage to a text.
abbrev pub cache_answer : Connected → Reply → Text → Option (List Text)
cache_answer no_memory reply text = some []
cache_answer with_error reply text = some []
cache_answer without_error reply text = logged_str reply >>= λ str. some (drop 1 text ∷ [])

-- The second stage runs, and has sent these messages.
abbrev pub published : List Text → Option (Starting (Endpoint × List Text))
published out = some (done (any_host 5668, out))
