-- ===== src/Programs.antt =====
-- main.cpp: the program with two stages. A process id is a 32-bit pattern; an address of ZeroMQ is
-- given by its kind and its port.
use seda_framework.Base.{
  ℕ, ◌-◌, ◌^◌, Bool, true, false, not, List, [], ◌∷◌, ◌++◌, leb, ◌==◌, if◌then◌else◌,
}
pub mod Forks
pub mod Handlers
pub mod Flow
mod Tests

-- "tcp://localhost:<port>", "tcp://*:<port>" and ""
pub data Endpoint : Type 0 where
  localhost any_host : ℕ → Endpoint
  nowhere : Endpoint

pub data Handler : Type 0 where
  receive_and_response search_cache : Handler

-- The arguments of runStage; `receive_response` and `search_cache` are the names of the handlers.
pub record Launch : Type 0 where
  pub res : List Endpoint
  pub des : Endpoint
  pub handler : Handler

-- How a process of main ends: in runStage, which does not return, in exit(-1), or with 0.
pub data Ending : Type 0 where
  runs_stage : Launch → Ending
  fork_error returns : Ending

-- The elements of `res` and `_des` that are used
abbrev pub first_stage : Launch
first_stage = record {
  res = localhost 5666 ∷ [];
  des = any_host 5667;
  handler = receive_and_response;
}

abbrev pub second_stage : Launch
second_stage = record { res = localhost 5667 ∷ []; des = any_host 5668; handler = search_cache }

abbrev pub is_true : ℕ → Bool
is_true pid = not (pid == 0)

abbrev pub is_negative : ℕ → Bool
is_negative pid = leb (2 ^ 31) pid

-- main, on what its two calls of fork return.
unfoldable pub main : ℕ → ℕ → Ending
main pid pid' =
    if is_true pid
    then runs_stage first_stage
    else if is_negative pid
    then fork_error
    else if is_true pid'
    then runs_stage second_stage
    else if is_negative pid'
    then fork_error
    else returns

-- fork(2) as documented: -1 where it fails, and else 0 in the child and the child's id, which is
-- positive, in the parent. The processes that main becomes, each with how it ends, by whether the two
-- calls succeed.
abbrev pub failure : ℕ
failure = 2 ^ 32 - 1

abbrev pub second_processes : Bool → ℕ → List Ending
second_processes false child = main 0 failure ∷ []
second_processes true child = main 0 child ∷ main 0 0 ∷ []

abbrev pub processes : Bool → Bool → (child child' : ℕ) → List Ending
processes false ok' child child' = main failure 0 ∷ []
processes true ok' child child' = main child 0 ∷ second_processes ok' child'
