-- ===== src/Programs/Forks.antt =====
-- main.cpp: which processes run which stage.
use seda_framework.Base.{ℕ, ◌<◌, ◌≡◌, refl, Bool, true, false, [], ◌∷◌, if◌then◌else◌, arith}
use seda_framework.Programs.{runs_stage, returns, first_stage, second_stage, main, processes}

main_parent : (pid pid' : ℕ) → 0 < pid → main pid pid' ≡ runs_stage first_stage
unfolding main
main_parent pid pid' h = ground arith

main_child : (pid' : ℕ) → 0 < pid' → main 0 pid' ≡ runs_stage second_stage
unfolding main
main_child pid' h = ground arith

-- Whether the calls of fork succeed or not, some process runs the first stage and none ends with the
-- error; where the first call succeeds, one more runs the second stage, also if the second call fails,
-- and where both succeed a third returns at once.
pub processes_lem :
    (ok ok' : Bool) (child child' : ℕ)
    → 0 < child
    → 0 < child'
    → processes ok ok' child child'
      ≡ runs_stage first_stage
        ∷ (if ok then runs_stage second_stage ∷ (if ok' then returns ∷ [] else []) else [])
unfolding main
processes_lem false ok' child child' h h' = refl
processes_lem true false child child' h h' = rw (main_parent child 0 h) refl
processes_lem true true child child' h h' = rw (main_parent child 0 h, main_child child' h') refl
