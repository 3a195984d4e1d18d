-- ===== src/Seda/Edges.antt =====
-- seda.cpp, create_stage and add_msg_edge: sequences of calls of the two.
use seda_framework.Base.{ℕ, Bool, false, List, [], ◌∷◌, Option, some, none}
use seda_framework.Base.Memory.{◌>>=◌}
use seda_framework.Base.Dictionary.{Text}
use seda_framework.Seda.{Seda, create_stage, add_msg_edge}

-- A call of create_stage with what `new` gives, or of add_msg_edge, where a stage is `none` if it is NULL.
pub data Call : Type 0 where
  creates : Text → ℕ → Call
  adds_edge : (from to : Option ℕ) (sm : ℕ) → Call

-- The state after some calls, and what each add_msg_edge among them returned: `none` if a call ends the
-- program.
unfoldable pub calls : List Call → Seda → Option (Seda × List Bool)
unfolding create_stage add_msg_edge
calls [] s = some (s, [])
calls (creates stage_name sg ∷ cs) s = calls cs (create_stage stage_name sg s).1
calls (adds_edge from to sm ∷ cs) s = add_msg_edge from to sm s >>= λ added.
    calls cs added.1 >>= λ rest. some (rest.0, added.0 ∷ rest.1)

-- A `false` for each call of add_msg_edge.
abbrev pub refusals : List Call → List Bool
refusals [] = []
refusals (creates stage_name sg ∷ cs) = refusals cs
refusals (adds_edge from to sm ∷ cs) = false ∷ refusals cs

-- Some add_msg_edge is called with a stage that is NULL.
abbrev pub NamesNull : List Call → Type 0
NamesNull [] = ⊥
NamesNull (creates stage_name sg ∷ cs) = NamesNull cs
NamesNull (adds_edge none to sm ∷ cs) = Unit
NamesNull (adds_edge (some from) none sm ∷ cs) = Unit
NamesNull (adds_edge (some from) (some to) sm ∷ cs) = NamesNull cs
