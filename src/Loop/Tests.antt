-- ===== src/Loop/Tests.antt =====
-- Reads of the event loop.
use seda_framework.Base.{ℕ, ◌≡◌, refl, true, Option, none, some, List, [], ◌∷◌, take}
use seda_framework.Acceptor.{Action, ctl_del, close_fd}
use seda_framework.Loop.{read_conn}

-- Three reads, the client's closing behind them: the block starts with the last of the three, over the
-- start of the one before.
starts_with_last : Option (List ℕ × List Action) → Option (List ℕ × List Action)
starts_with_last none = none
starts_with_last (some (block, actions)) = some (take 4 block, actions)

three_reads :
    starts_with_last (read_conn 5 ((1 ∷ 2 ∷ []) ∷ (3 ∷ 4 ∷ 5 ∷ []) ∷ (6 ∷ []) ∷ []) true)
    ≡ some (6 ∷ 4 ∷ 5 ∷ 0 ∷ [], ctl_del 5 ∷ close_fd 5 ∷ [])
unfolding read_conn starts_with_last
three_reads = refl
