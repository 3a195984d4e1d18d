-- ===== src/Redis/Tests.antt =====
-- A client of Redis on outcomes of its calls.
use seda_framework.Base.{◌≡◌, refl, true, false, none, some, [], ◌∷◌}
use seda_framework.Redis.{with_error, without_error, connect, command, destroy}
use seda_framework.Redis.Usage.{lifetime, lifetime_lem}

lifetime_lem_example : lifetime without_error (true ∷ false ∷ true ∷ true ∷ []) ≡ some 2
lifetime_lem_example = lifetime_lem without_error (true ∷ false ∷ true ∷ true ∷ [])

refused : lifetime with_error [] ≡ none
unfolding lifetime connect command destroy
refused = refl
