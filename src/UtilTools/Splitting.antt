-- ===== src/UtilTools/Splitting.antt =====
-- utiltools.cpp, split_string.
use seda_framework.Base.{ℕ, zero, suc, ◌≡◌, refl, none, List, ◌∷◌}
use seda_framework.UtilTools.{split_string}

-- On a text that is not empty no number of rounds brings the loop to its end: nothing moves `t_src`.
pub split_string-endless : (rounds c : ℕ) (text : List ℕ) → split_string rounds (c ∷ text) ≡ none
unfolding split_string
split_string-endless zero c text = refl
split_string-endless (suc rounds) c text = split_string-endless rounds c text
