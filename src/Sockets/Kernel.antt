-- ===== src/Sockets/Kernel.antt =====
-- socket(2), bind(2) and listen(2) as documented: what the calls that were made leave a descriptor in.
use seda_framework.Base.{ℕ, Bool, true, false, none, some, List, [], ◌∷◌, ◌==◌, if◌then◌else◌}
use seda_framework.Sockets.{Address, Descriptor, Call, opens, binds, listens, connects}

pub data Mode : Type 0 where
  not_open : Mode
  fresh : Mode
  bound listening connected : Address → Mode

-- A socket that is bound listens; listen on another one is not needed here.
abbrev listened : Mode → Mode
listened (bound addr) = listening addr
listened m = m

abbrev names : ℕ → Descriptor → Bool
names fd none = false
names fd (some n) = n == fd

abbrev pub after : ℕ → Mode → Call → Mode
after fd m (opens d) = if names fd d then fresh else m
after fd m (binds d addr true) = if names fd d then bound addr else m
after fd m (listens d backlog true) = if names fd d then listened m else m
after fd m (connects d addr true) = if names fd d then connected addr else m
after fd m _ = m

abbrev pub mode_from : ℕ → Mode → List Call → Mode
mode_from fd m [] = m
mode_from fd m (call ∷ calls) = mode_from fd (after fd m call) calls

-- Nothing is open before the calls.
abbrev pub mode : Descriptor → List Call → Mode
mode none calls = not_open
mode (some fd) calls = mode_from fd not_open calls
