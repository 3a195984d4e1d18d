-- ===== src/UtilTools.antt =====
-- utiltools.cpp: the string hash, and split_string, which nothing calls.
use seda_framework.Base.{
  ℕ, zero, suc, Option, none, some, ◌+◌, ◌-◌, ◌*◌, ◌%◌, ◌^◌, List, [], ◌∷◌, ltb, if◌then◌else◌,
  take,
}
use seda_framework.Base.Word.{add32, sub32}
pub mod Hash
pub mod Splitting
mod Tests

-- A `char` as an `unsigned int`: one from 128 on is negative.
abbrev pub char32 : ℕ → ℕ
char32 c = if ltb c 128 then c else c + (2 ^ 32 - 256)

-- `hash = (*str++) + (hash << 6) + (hash << 16) - hash;`
unfoldable pub hash_step : ℕ → ℕ → ℕ
hash_step hash c =
    sub32 (add32 (add32 (char32 c) (hash * 2 ^ 6 % 2 ^ 32)) (hash * 2 ^ 16 % 2 ^ 32)) hash

unfoldable pub hash_loop : List ℕ → ℕ → ℕ
unfolding hash_step
hash_loop [] hash = hash
hash_loop (c ∷ str) hash = hash_loop str (hash_step hash c)

-- utiltool::hash; `hash & 0x7FFFFFFF` is the remainder by 2 ^ 31.
unfoldable pub hash : List ℕ → ℕ → ℕ
unfolding hash_loop
hash str len = hash_loop (take len str) 0 % 2 ^ 31

-- split_string on the characters from `t_src` to `tail`, with a bound on its rounds: the list of the
-- pieces. `none` is more rounds than are given. What a round finds at `t_src` changes nothing.
unfoldable pub split_string : ℕ → List ℕ → Option (List (List ℕ))
split_string zero text = none
split_string (suc rounds) [] = some []
split_string (suc rounds) (c ∷ text) = split_string rounds (c ∷ text)
