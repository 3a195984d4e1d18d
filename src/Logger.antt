-- ===== src/Logger.antt =====
-- log.h and log.cpp: lines that are formatted by the caller and written by the caller or by the
-- logger's own thread. `vsnprintf` is the C library's, with its format and arguments given: for a
-- size, the C string that it leaves and the length that it returns, or `none` for an error.
use seda_framework.Base.{
  ℕ, zero, suc, ◌+◌, ◌≡◌, Bool, true, false, Option, none, some, List, [], ◌∷◌, ◌++◌, take,
  replicate, ltb, if◌then◌else◌, ◌^◌, ◌-◌,
}
use seda_framework.Base.Memory.{◌>>=◌, memcpy, c_string, NoZero}
use seda_framework.Base.Dictionary.{Text}
use seda_framework.TaskQueue.{TaskQueue, task_queue, push_locked, pop_locked}
pub mod Formats
pub mod Lines
pub mod Stopping
mod Tests

-- LOG_LEN, and "DEBUG : "
abbrev pub log_len : ℕ
log_len = 256

abbrev pub debug_head : Text
debug_head = 68 ∷ 69 ∷ 66 ∷ 85 ∷ 71 ∷ 32 ∷ 58 ∷ 32 ∷ []

-- Where the thread of log_from_queue stands: at its test, in `pop`, and behind the loop.
pub data LogPc : Type 0 where
  testing popping ended : LogPc

-- class LogUtil; `output` is what stands in the file. `lines` records what write_log was called with,
-- `written` counts the blocks that the thread wrote, and `deleted` is what stop's `delete tq` sets.
pub record Logger : Type 0 where
  pub is_async : Bool
  pub running : Bool
  pub tq : TaskQueue (List ℕ)
  pub pc : LogPc
  pub output : List ℕ
  pub lines : List Text
  pub written : ℕ
  pub deleted : Bool

-- The static members, and the thread that LogUtil::init creates.
abbrev pub init : Logger
init = record {
  is_async = true;
  running = true;
  tq = task_queue;
  pc = testing;
  output = [];
  lines = [];
  written = 0;
  deleted = false;
}

-- The name of the file that LogUtil::init opens, where `sprintf` gives the text of log_output, the id of
-- the process and ".log"; `none` is a text beyond `char[128]`.
unfoldable pub log_name : (Text → ℕ → Text) → Text → ℕ → Option Text
unfolding memcpy c_string
log_name sprintf log_output pid =
    memcpy (replicate 128 0) 0 (sprintf log_output pid ++ 0 ∷ []) >>= c_string

-- What LogUtil::init returns, as the 32-bit pattern of an int, by whether the file could be opened, the
-- mode, and whether the thread could be created.
unfoldable pub init_result : Bool → Bool → Bool → ℕ
init_result false async created = 2 ^ 32 - 1
init_result true true true = 1
init_result true true false = 0
init_result true false created = 0

-- LogUtil::set_async
abbrev pub set_async : Bool → Logger → Logger
set_async async s = record s { is_async = async }

-- LogUtil::write_log, of which a push has passed its wait.
unfoldable pub write_log : Text → Logger → Option Logger
unfolding push_locked memcpy
write_log log s =
    if s.is_async
    then (memcpy (replicate log_len 0) 0 log >>= λ log_content.
        some (record s { tq = (push_locked log_content s.tq).0 }))
    else some (record s { output = s.output ++ log })

-- A round of the loop of LogUtil::debug, by what vsnprintf gives for `size`; a further round has the
-- size `n + 1`.
abbrev pub debug_round : Option (Text × ℕ) → ℕ → (ℕ → Option (Option Text)) → Option (Option Text)
debug_round none size again = some none
debug_round (some (p, n)) size again = if ltb n size then some (some p) else again (n + 1)

-- The loop: the string that is printed, if vsnprintf does not fail. `none` is more rounds than are
-- given.
unfoldable pub debug_loop : (ℕ → Option (Text × ℕ)) → ℕ → ℕ → Option (Option Text)
debug_loop vsnprintf zero size = none
debug_loop vsnprintf (suc rounds) size =
    debug_round (vsnprintf size) size (λ n. debug_loop vsnprintf rounds n)

-- What LogUtil::debug makes of that string.
unfoldable pub debug_line : Text → Option Text
unfolding memcpy c_string
debug_line p = memcpy (replicate 128 0) 0 (debug_head ++ p ++ 10 ∷ 0 ∷ []) >>= c_string

-- LogUtil::debug
unfoldable pub debug : (ℕ → Option (Text × ℕ)) → ℕ → Logger → Option Logger
unfolding debug_loop debug_line write_log
debug vsnprintf rounds s = debug_loop vsnprintf rounds 100 >>= λ printed. elim printed [
  | none ↦ some s
  | some p ↦ debug_line p >>= λ log. write_log log s
]

-- A step of some thread: a call of write_log on a C string whose push, if any, has passed its wait,
-- the two halves of LogUtil::stop, or what log_from_queue does next. `stop` joins the thread, in the
-- asynchronous mode, before it deletes the queue; a use of the deleted queue is undefined and no step.
pub data Step (s : Logger) : Logger → Type 0 where
  logs :
      (log : Text) (s' : Logger)
      → NoZero log
      → s.tq.full ≡ false
      → (s.is_async ≡ true → s.deleted ≡ false)
      → write_log log s ≡ some s'
      → Step s (record s' { lines = s.lines ++ log ∷ [] })
  stops : Step s (record s { running = false })
  deletes :
      s.running ≡ false
      → (s.is_async ≡ true → s.pc ≡ ended)
      → s.deleted ≡ false
      → Step s (record s { deleted = true })
  tests : s.pc ≡ testing → Step s (record s { pc = if s.running then popping else ended })
  pops :
      (lc : List ℕ) (tq : TaskQueue (List ℕ)) (signal : Bool)
      → s.pc ≡ popping
      → s.tq.empty ≡ false
      → s.deleted ≡ false
      → pop_locked s.tq ≡ some (lc, tq, signal)
      → Step s (record s {
        tq = tq;
        pc = testing;
        output = s.output ++ take log_len lc;
        written = suc s.written;
      })

pub data Reach (s : Logger) : Logger → Type 0 where
  here : Reach s s
  next : {t u : Logger} → Reach s t → Step t u → Reach s u
