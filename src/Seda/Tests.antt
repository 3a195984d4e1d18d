-- ===== src/Seda/Tests.antt =====
-- A run of the stage graph, and the theorem on it.
use seda_framework.Base.{◌≡◌, refl, List, [], ◌∷◌, some, none}
use seda_framework.Seda.{Seda, new_seda, create_stage, find_msg, msg_exist_2_stages, add_msg_edge}
use seda_framework.Base.Dictionary.{find, assign}
use seda_framework.Seda.Edges.{Call, creates, adds_edge, calls}

-- Two stages, and an edge between them.
abbrev three_calls : List Call
three_calls = creates (b'a' ∷ []) 1 ∷ creates (b'b' ∷ []) 2 ∷ adds_edge (some 1) (some 2) 3 ∷ []

-- create_stage of a known name gives NULL, and an edge from it ends the program.
abbrev null_edge : List Call
null_edge = creates (b'a' ∷ []) 1 ∷ adds_edge none (some 1) 3 ∷ []

null_edge-ends : calls null_edge new_seda ≡ none
unfolding calls add_msg_edge msg_exist_2_stages find_msg create_stage find assign
null_edge-ends = refl
