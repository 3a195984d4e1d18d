-- ===== src/Config.antt =====
-- config.h and config.cpp: the stages that a file describes. The constructor returns before it reads
-- anything; `read_config` is what stands behind that `return`.
use seda_framework.Base.{
  ℕ, zero, suc, Bool, true, false, not, ◌&&◌, ◌||◌, Option, none, some, List, [], ◌∷◌, ◌++◌, length,
  ◌==◌, if◌then◌else◌,
}
use seda_framework.Base.Memory.{shown}
use seda_framework.Base.Dictionary.{Text}
use seda_framework.Base.Texts.{starts_with, split_once}
pub mod Lines
pub mod Files
mod Tests

-- class stage_config
pub record StageConfig : Type 0 where
  pub res : Text
  pub des : Text

-- Config::Config, on the bytes of the file: the member `config` stays empty.
abbrev pub config : List ℕ → List StageConfig
config file = []

-- fgets with room for `n` bytes in front of the zero byte: the line, or what fits of it, and the rest.
unfoldable pub fgets : ℕ → List ℕ → List ℕ × List ℕ
fgets zero file = ([], file)
fgets (suc n) [] = ([], [])
fgets (suc n) (c ∷ file) =
    let (line, rest) = fgets n file in if c == 10 then (c ∷ [], file) else (c ∷ line, rest)

-- The local variables of the loop.
pub record Parsing : Type 0 where
  pub res : Text
  pub des : Text
  pub config : List StageConfig

-- A write through the null pointer that strchr gave, exit(-1), or the variables.
pub data Outcome : Type 0 where
  crashed exited : Outcome
  goes_on : Parsing → Outcome

-- "resource" and "destination"
abbrev pub resource_word : Text
resource_word = b'r' ∷ b'e' ∷ b's' ∷ b'o' ∷ b'u' ∷ b'r' ∷ b'c' ∷ b'e' ∷ []

abbrev pub destination_word : Text
destination_word = b'd' ∷ b'e' ∷ b's' ∷ b't' ∷ b'i' ∷ b'n' ∷ b'a' ∷ b't' ∷ b'i' ∷ b'o' ∷ b'n' ∷ []

-- What stands in front of the `=` picks the variable; only its start is compared.
unfoldable pub set_field : Text → Text → Parsing → Outcome
unfolding starts_with
set_field key value c =
    if starts_with resource_word key
    then goes_on (record c { res = value })
    else if starts_with destination_word key
    then goes_on (record c { des = value })
    else exited

abbrev pub is_empty : Text → Bool
is_empty [] = true
is_empty (c ∷ cs) = false

-- Once both are there, they are a stage.
abbrev pub push_stage : Parsing → Parsing
push_stage c = if is_empty c.res || is_empty c.des then c else record {
  res = [];
  des = [];
  config = c.config ++ record { res = c.res; des = c.des } ∷ [];
}

abbrev pub continue_with : Outcome → (Parsing → Outcome) → Outcome
continue_with crashed f = crashed
continue_with exited f = exited
continue_with (goes_on c) f = f c

-- Behind strchr: the text in front of the `=` and the text behind it.
abbrev pub field_line : Option (Text × Text) → Parsing → Outcome
unfolding set_field
field_line none c = crashed
field_line (some (key, value)) c =
    continue_with (set_field key value c) (λ c'. goes_on (push_stage c'))

-- A round of the loop on the C string in `buf`.
unfoldable pub config_line : Text → Parsing → Outcome
unfolding split_once set_field
config_line [] c = goes_on c
config_line (b ∷ text) c =
    if b == b'#' then goes_on c else field_line (split_once b'=' (b ∷ text)) c

-- Behind the loop
abbrev pub finish : Parsing → Outcome
finish c = if not (is_empty c.res) || not (is_empty c.des) then exited else goes_on c

-- What a round leaves to the rounds behind it.
abbrev pub then_read : Outcome → (Parsing → Option Outcome) → Option Outcome
then_read crashed f = some crashed
then_read exited f = some exited
then_read (goes_on c) f = f c

-- The loop, with a bound on its rounds; `none` is more rounds than are given.
unfoldable pub config_loop : ℕ → List ℕ → Parsing → Option Outcome
unfolding config_line fgets
config_loop zero file c = none
config_loop (suc rounds) [] c = some (finish c)
config_loop (suc rounds) (b ∷ file) c =
    let (line, rest) = fgets 255 (b ∷ file) in
    then_read (config_line (shown line) c) (λ c'. config_loop rounds rest c')

abbrev pub start : Parsing
start = record { res = []; des = []; config = [] }

unfoldable pub read_config : List ℕ → Option Outcome
unfolding config_loop
read_config file = config_loop (suc (length file)) file start
