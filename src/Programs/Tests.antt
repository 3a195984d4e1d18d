-- ===== src/Programs/Tests.antt =====
-- main on calls of fork, and its stages on a message.
use seda_framework.Base.Memory.{c_string}
use seda_framework.Base.{◌≡◌, refl, false, [], ◌∷◌, true, ℕ, List, ◌++◌, some, none, replicate}
use seda_framework.Redis.{without_error}
use seda_framework.Stage.Startup.{done, stage_start}
use seda_framework.Programs.Handlers.{with_text, receive_and_response}
use seda_framework.Programs.Flow.{Conditions, run_stage, two_stages}
use seda_framework.Programs.{
  any_host, runs_stage, first_stage, main, processes, second_stage, returns,
}

-- A fork that fails is taken for the parent's.
failing : processes false false 100 101 ≡ runs_stage first_stage ∷ []
unfolding main
failing = refl

working :
    processes true true 100 101 ≡ runs_stage first_stage ∷ runs_stage second_stage ∷ returns ∷ []
unfolding main
working = refl

-- Sockets that work, a handler that is set in time, and the text "\x01hi".
abbrev in_time : Conditions
in_time = record {
  sockets = record { makes = true; binds = λ a. true; connects = λ a. true; subscribes = true };
  handler_set = true;
  missed = 0;
}

abbrev hi : List ℕ
hi = 1 ∷ 104 ∷ 105 ∷ []

-- 32 bytes fill the struct to its end.
full_struct : receive_and_response (replicate 32 65 ++ replicate 224 0) ≡ none
unfolding receive_and_response c_string
full_struct = refl

-- A message that is published before the receiver has subscribed is lost.
late :
    two_stages (record in_time { missed = 1 }) in_time without_error (with_text hi) (hi ∷ [])
    ≡ some (done (any_host 5668, []))
unfolding two_stages run_stage stage_start
late = refl
