-- ===== src/Seda.antt =====
-- seda.cpp: the stages of a program and the edges between them. A stage and a message are the
-- addresses that `new` gives, numbers here. Log lines are left out.
use seda_framework.Base.{
  ℕ, Bool, true, false, not, ◌&&◌, Option, some, none, List, [], ◌∷◌, ◌++◌, ◌==◌, if◌then◌else◌,
}
use seda_framework.Base.Memory.{◌>>=◌}
use seda_framework.Base.Dictionary.{Text, find, assign}
pub mod Edges
mod Tests

-- class SEDA; `msg_relat` is a std::map from the address of a message. `messages` is not used.
pub record Seda : Type 0 where
  pub stages : List (Text × ℕ)
  pub stages_v : List ℕ
  pub msg_relat : List (ℕ × (Option ℕ × Option ℕ))

abbrev pub new_seda : Seda
new_seda = record { stages = []; stages_v = []; msg_relat = [] }

-- SEDA::create_stage, where `new` gives `sg`; `none` is NULL.
unfoldable pub create_stage : Text → ℕ → Seda → Option ℕ × Seda
unfolding find
create_stage stage_name sg s = elim (find stage_name s.stages) [
  | some old ↦ (none, s)
  | none ↦ (
    some sg,
    record s { stages = assign stage_name sg s.stages; stages_v = s.stages_v ++ sg ∷ [] },
  )
]

-- `msg_relat.find`
unfoldable pub find_msg : ℕ → List (ℕ × (Option ℕ × Option ℕ)) → Option (Option ℕ × Option ℕ)
find_msg sm [] = none
find_msg sm ((m, edge) ∷ relat) = if m == sm then some edge else find_msg sm relat

-- `==` of two pointers to stages
abbrev pub is_stage : Option ℕ → Option ℕ → Bool
is_stage none none = true
is_stage none (some to) = false
is_stage (some from) none = false
is_stage (some from) (some to) = from == to

-- SEDA::msgExist2Stages, where a stage is `none` if it is NULL
unfoldable pub msg_exist_2_stages : Option ℕ → Option ℕ → ℕ → Seda → Bool
unfolding find_msg
msg_exist_2_stages from to sm s = elim (find_msg sm s.msg_relat) [
  | none ↦ true
  | some edge ↦ if is_stage edge.0 from && is_stage edge.1 to then false else true
]

-- SEDA::addSM: `insert` of a key that is there changes nothing.
unfoldable pub add_sm : Option ℕ → Option ℕ → ℕ → Seda → Seda
unfolding find_msg
add_sm from to sm s = elim (find_msg sm s.msg_relat) [
  | none ↦ record s { msg_relat = (sm, (from, to)) ∷ s.msg_relat }
  | some edge ↦ s
]

-- The calls of get_stage_name in the log line of SEDA::add_msg_edge: `none` if a stage is NULL.
abbrev pub stage_names : Option ℕ → Option ℕ → Option (ℕ × ℕ)
stage_names none to = none
stage_names (some from) none = none
stage_names (some from) (some to) = some (from, to)

-- SEDA::add_msg_edge, where `new` gives `sm`: `none` where the log line reads the name of a stage that
-- is NULL, which ends the program.
unfoldable pub add_msg_edge : Option ℕ → Option ℕ → ℕ → Seda → Option (Bool × Seda)
unfolding msg_exist_2_stages add_sm
add_msg_edge from to sm s =
    if msg_exist_2_stages from to sm s
    then (stage_names from to >>= λ names. some (false, s))
    else some (true, add_sm from to sm s)

-- The `for` of SEDA::run, given which stages run: whether all do, and the stages that were told to.
unfoldable pub run_stages : (ℕ → Bool) → List ℕ → Bool × List ℕ
run_stages runs [] = (true, [])
run_stages runs (sg ∷ sgs) =
    let rest = run_stages runs sgs in
    if not (runs sg) then (false, sg ∷ []) else (rest.0, sg ∷ rest.1)

-- SEDA::run
unfoldable pub run : (ℕ → Bool) → Seda → Bool × List ℕ
unfolding run_stages
run runs s = run_stages runs s.stages_v
