-- ===== src/Stage/Objects.antt =====
-- function.h, stage.cpp and stage_handler.cpp: the objects of a stage as their constructors leave them.
-- A constructor whose body names a class makes a temporary of it, and leaves its own members as they
-- are: `none` is a member that is not written.
use seda_framework.Base.{
  ℕ, zero, suc, Bool, true, false, Option, none, some, List, [], ◌∷◌, replicate, ◌+◌, ◌≡◌, refl, ap,
}
use seda_framework.Base.Memory.{◌>>=◌}
use seda_framework.Base.Dictionary.{Text}

-- class Function; a pointer to a function is NULL or not.
pub record Function {ℓ} (F : Type ℓ) : Type ℓ where
  pub f : Option (Option F)

-- REG_MEM
abbrev pub reg_mem_size : ℕ
reg_mem_size = 16

-- class stage, as far as the constructors go: for each slot of `reg_mem`, whether it is a block.
pub record StageObject : Type 0 where
  pub stage_name : Text
  pub reg_mem : Option (List Bool)

-- class stage_handler: its receiver, queue and pool, given by numbers, and its sender.
pub record HandlerObject {ℓ} (F : Type ℓ) : Type ℓ where
  pub rec_ : Option ℕ
  pub sq : Option ℕ
  pub wp : Option ℕ
  pub sd : ℕ
  pub fun : Function F

module _ {ℓ} {F : Type ℓ} where
  -- Function::Function, and with its first argument
  abbrev pub new_function : Function F
  new_function = record { f = none }

  abbrev pub function_of : Option F → Function F
  function_of fun = record { f = some fun }

  -- Function::setFunction and Function::getFunction, where `none` is a member that is not written.
  abbrev pub set_function : Option F → Function F → Function F
  set_function _f fun = record { f = some _f }

  abbrev pub get_function : Function F → Option (Option F)
  get_function fun = fun.f

  -- stage_handler::stage_handler with three arguments, for the sender that it makes, and with four
  abbrev pub stage_handler : ℕ → ℕ → ℕ → ℕ → HandlerObject F
  stage_handler made _rec _sq _wp = record {
    rec_ = some _rec;
    sq = some _sq;
    wp = some _wp;
    sd = made;
    fun = new_function;
  }

  abbrev pub stage_handler_with : ℕ → ℕ → ℕ → ℕ → HandlerObject F
  stage_handler_with _rec _sq _wp _sd = record {
    rec_ = none;
    sq = none;
    wp = none;
    sd = _sd;
    fun = new_function;
  }

-- stage::stage with a name, and without
abbrev pub named_stage : Text → StageObject
named_stage stage_name = record {
  stage_name = stage_name;
  reg_mem = some (replicate reg_mem_size false);
}

abbrev pub new_stage : StageObject
new_stage = record { stage_name = []; reg_mem = none }

-- stage::~stage: how many blocks it frees; `none` is a use of a pointer that is not written.
unfoldable pub slots_freed : List Bool → ℕ
slots_freed [] = 0
slots_freed (true ∷ slots) = suc (slots_freed slots)
slots_freed (false ∷ slots) = slots_freed slots

unfoldable pub destroy_stage : StageObject → Option ℕ
unfolding slots_freed
destroy_stage s = s.reg_mem >>= λ slots. some (slots_freed slots + 1)

no_slots : (n : ℕ) → slots_freed (replicate n false) ≡ 0
unfolding slots_freed
no_slots zero = refl
no_slots (suc n) = no_slots n

-- A stage with a name frees its one block; one without a name is not fit to be destroyed.
pub destroy_stage_lem :
    (name : Text) → (destroy_stage (named_stage name) ≡ some 1) × (destroy_stage new_stage ≡ none)
unfolding destroy_stage
destroy_stage_lem name = (ap (λ n. some (n + 1)) (no_slots reg_mem_size), refl)
