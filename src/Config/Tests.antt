-- ===== src/Config/Tests.antt =====
-- config.cpp on files.
use seda_framework.Base.{◌≡◌, refl, some, List, [], ◌∷◌, All, arith}
use seda_framework.Base.Dictionary.{Text}
use seda_framework.Config.{Outcome, crashed, exited, goes_on, read_config}
use seda_framework.Config.Lines.{read_config-some}
use seda_framework.Config.Files.{
  Item, remark, stage, printed, read_stages, between, IsItem, read_config-printed,
}

-- "# 1", "a" and "b"
abbrev title : Text
title = b' ' ∷ b'1' ∷ []

abbrev two_stages : List Item
two_stages = remark title ∷ stage (b'a' ∷ []) (b'b' ∷ []) ∷ stage (b'b' ∷ []) (b'c' ∷ []) ∷ []

two_stages-IsItem : All IsItem two_stages
two_stages-IsItem = omega arith

read_config-printed_example :
    (read_config (printed two_stages []) ≡ some (goes_on (between (read_stages two_stages))))
    × (read_config (printed two_stages (10 ∷ 35 ∷ [])) ≡ some crashed)
read_config-printed_example = read_config-printed two_stages (35 ∷ []) two_stages-IsItem

read_config-some_example : (r : Outcome) × (read_config (printed two_stages (10 ∷ [])) ≡ some r)
read_config-some_example = read_config-some (printed two_stages (10 ∷ []))

-- A line without `=` in it, one that starts with another word, and a file that ends within a stage.
no_sign : read_config (b'a' ∷ 10 ∷ []) ≡ some crashed
unfolding read_config
no_sign = refl

other_word : read_config (b'a' ∷ b'=' ∷ 10 ∷ []) ≡ some exited
unfolding read_config
other_word = refl

half_stage :
    read_config (b'r' ∷ b'e' ∷ b's' ∷ b'o' ∷ b'u' ∷ b'r' ∷ b'c' ∷ b'e' ∷ b'=' ∷ 10 ∷ [])
    ≡ some exited
unfolding read_config
half_stage = refl
