-- ===== src/Acceptor/Answering.antt =====
-- acceptor.cpp, epoll_loop with read_conn and write_conn: an answer is sent to a whole request only.
use seda_framework.Base.{
  ◌≡◌, Bool, true, false, ◌||◌, Option, none, some, List, [], ◌∷◌, length, ltb, ◌≤◌,
}
use seda_framework.Http.{read_http_finish}
use seda_framework.Acceptor.{Connection, Interest, epoll_out, Task, writes}
use seda_framework.Acceptor.Oneshot.{Polling, Step}

abbrev is_out : Option Interest → Bool
is_out (some epoll_out) = true
is_out _ = false

abbrev has_writes : List Task → Bool
has_writes [] = false
has_writes (writes ∷ tasks) = true
has_writes (_ ∷ tasks) = has_writes tasks

-- The connection is armed for output, or its answer waits for a worker, or a worker is in write_conn.
abbrev pub is_answering : Polling → Bool
is_answering s = is_out s.armed || has_writes s.tasks || ltb 0 s.writers

-- It is deleted, or its request is whole.
abbrev pub IsFinished : Option Connection → Type 0
IsFinished none = Unit
IsFinished (some conn) = conn.req.rhs ≡ read_http_finish

pub record IsDue (s : Polling) : Type 0 where
  pub due : is_answering s ≡ true → IsFinished s.conn

-- The runs in which one worker at most is in read_conn.
pub data Alone (s : Polling) : Polling → Type 0 where
  begins : Alone s s
  after : {t u : Polling} → Alone s t → Step t u → length u.readers ≤ 1 → Alone s u
