-- ===== src/Logger/Tests.antt =====
-- Runs of the logger, and the theorems on them.
use seda_framework.Base.{
  ℕ, ◌+◌, ◌-◌, ◌≡◌, ◌≤◌, refl, true, false, Option, some, [], ◌∷◌, ◌++◌, length, take, replicate,
}
use seda_framework.Base.Dictionary.{Text}
use seda_framework.TaskQueue.{task_queue, push_locked}
use seda_framework.Logger.{
  testing, popping, ended, Logger, init, debug_loop, stops, tests, Reach, here, next, deletes,
}
use seda_framework.Logger.Formats.{debug_loop_lem}
use seda_framework.Logger.Stopping.{left_to, Reach-written, Reach-popping}

-- vsnprintf for a text.
abbrev print : Text → ℕ → Option (Text × ℕ)
print text size = some (take (size - 1) text, length text)

abbrev long_text : Text
long_text = replicate 150 65

debug_loop_lem_example : debug_loop (print long_text) 2 100 ≡ some (some long_text)
debug_loop_lem_example = debug_loop_lem (print long_text) long_text 0 (λ size positive. refl)

-- A line is queued while the thread waits, and `stop` is called.
abbrev line : Text
line = 104 ∷ 105 ∷ []

abbrev waiting : Logger
waiting = record init { pc = popping }

abbrev one_line : Logger
one_line = record waiting {
  tq = (push_locked (line ++ replicate 254 0) task_queue).0;
  lines = line ∷ [];
}

-- `stop` finds the thread at its test with a line queued, joins it, and deletes the queue with the line.
abbrev at_test : Logger
at_test = record one_line { pc = testing }

abbrev line_lost : Logger
line_lost = record at_test { running = false; pc = ended; deleted = true }

lost_run : Reach at_test line_lost
lost_run = next (next (next here stops) (tests refl)) (deletes refl (λ m. refl) refl)

-- `stop` is called again, and the thread is at its test.
abbrev stopped : Logger
stopped = record init { running = false }

Reach-written_example : 0 + left_to ended ≤ 0 + left_to testing
Reach-written_example = Reach-written {s = stopped} refl (next here (tests refl))

Reach-popping_example : (waiting.pc ≡ popping) × (waiting.tq.empty ≡ true)
Reach-popping_example = Reach-popping {s = waiting} refl refl (next here stops) refl
