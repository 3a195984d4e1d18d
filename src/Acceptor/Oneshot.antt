-- ===== src/Acceptor/Oneshot.antt =====
-- acceptor.cpp: one connection under epoll_loop and the workers. The descriptor is armed with
-- EPOLLONESHOT: an event disarms it until the next EPOLL_CTL_MOD, as documented. A task and a running
-- read_conn or write_conn hold the pointer to the connection. A call of write_conn is one step, on the
-- file system that it finds. A round of read_conn is one step too, which is the code as long as one
-- worker at most is in read_conn: nothing locks the connection, and of two workers one may store what it
-- read before the other's round.
use seda_framework.Base.{
  ℕ, suc, ◌≡◌, refl, Option, none, some, List, [], ◌∷◌, ◌++◌, length, drop, replicate,
}
use seda_framework.Base.Dictionary.{Text}
use seda_framework.Buffer.{buf_size}
use seda_framework.Acceptor.{
  Connection, Interest, epoll_in, epoll_out, Action, ctl_add, ctl_mod, ctl_del, close_fd,
  read_round, Task, reads, writes, file_name, write_conn, use_sendfile, force_close,
}

-- The connection, which is `none` once it is deleted; what it is armed for; the tasks that wait for a
-- worker; the `_buf` of each worker in the loop of read_conn; and how many workers are in write_conn.
pub record Polling : Type 0 where
  pub conn : Option Connection
  pub armed : Option Interest
  pub tasks : List Task
  pub readers : List (List ℕ)
  pub writers : ℕ

-- What stands in `_buf` after a read.
abbrev pub filled : List ℕ → List ℕ → List ℕ
filled bytes _buf = bytes ++ drop (length bytes) _buf

-- What a descriptor is armed for after calls on epoll.
abbrev pub armed_by : List Action → Option Interest → Option Interest
armed_by [] armed = armed
armed_by (ctl_add fd interest ∷ actions) armed = armed_by actions (some interest)
armed_by (ctl_mod fd interest ∷ actions) armed = armed_by actions (some interest)
armed_by (ctl_del fd ∷ actions) armed = armed_by actions none
armed_by (close_fd fd ∷ actions) armed = armed_by actions none

-- epoll_loop hands an event on; a worker starts read_conn, makes a round of its loop on some bytes, or
-- leaves the loop because there is nothing to read or because the client has closed; or it runs
-- write_conn.
pub data Step (s : Polling) : Polling → Type 0 where
  fires_in :
      s.armed ≡ some epoll_in → Step s (record s { armed = none; tasks = s.tasks ++ reads ∷ [] })
  fires_out :
      s.armed ≡ some epoll_out → Step s (record s { armed = none; tasks = s.tasks ++ writes ∷ [] })
  starts :
      (tasks : List Task)
      → s.tasks ≡ reads ∷ tasks
      → Step s (record s { tasks = tasks; readers = s.readers ++ replicate buf_size 0 ∷ [] })
  round :
      (before after : List (List ℕ)) (_buf bytes : List ℕ) (conn conn' : Connection)
      (interest : Interest)
      → s.readers ≡ before ++ _buf ∷ after
      → s.conn ≡ some conn
      → read_round (filled bytes _buf) (length bytes) conn ≡ some (conn', ctl_mod conn.fd interest)
      → Step s (record s {
        conn = some conn';
        armed = some interest;
        readers = before ++ filled bytes _buf ∷ after;
      })
  leaves :
      (before after : List (List ℕ)) (_buf : List ℕ)
      → s.readers ≡ before ++ _buf ∷ after
      → Step s (record s { readers = before ++ after })
  closes :
      (before after : List (List ℕ)) (_buf : List ℕ) (conn : Connection)
      → s.readers ≡ before ++ _buf ∷ after
      → s.conn ≡ some conn
      → Step s (record s { conn = none; armed = none; readers = before ++ after })
  starts_write :
      (tasks : List Task)
      → s.tasks ≡ writes ∷ tasks
      → Step s (record s { tasks = tasks; writers = suc s.writers })
  runs_write :
      (n : ℕ) (conn : Connection) (to_string : ℕ → Text) (fopen : Text → Option (List ℕ))
      (nwrites : List (Option ℕ)) (sent : ℕ) (left : Option Connection) (actions : List Action)
      (out : List (List ℕ))
      → s.writers ≡ suc n
      → s.conn ≡ some conn
      → write_conn use_sendfile force_close to_string fopen nwrites sent conn
        ≡ some (left, actions, out)
      → Step s (record s { conn = left; armed = armed_by actions s.armed; writers = n })

pub data Reach (s : Polling) : Polling → Type 0 where
  here : Reach s s
  next : {t u : Polling} → Reach s t → Step t u → Reach s u

-- After accept_conn.
abbrev pub accepted : Connection → Polling
accepted conn = record {
  conn = some conn;
  armed = some epoll_in;
  tasks = [];
  readers = [];
  writers = 0;
}

-- After the first round: read_conn has armed the descriptor and is still in its loop.
first_round :
    (conn conn' : Connection) (bytes : List ℕ) (interest : Interest)
    → read_round (filled bytes (replicate buf_size 0)) (length bytes) conn
      ≡ some (conn', ctl_mod conn.fd interest)
    → Reach (accepted conn) (record {
      conn = some conn';
      armed = some interest;
      tasks = [];
      readers = filled bytes (replicate buf_size 0) ∷ [];
      writers = 0;
    })
first_round conn conn' bytes interest e =
    next (next (next here (fires_in refl)) (starts [] refl))
      (round [] [] (replicate buf_size 0) bytes conn conn' interest refl refl e)

-- On any connection whose first bytes do not finish a request, two workers can be in read_conn at
-- once: the loop arms the descriptor before it has read what is left.
pub two_readers :
    (conn conn' : Connection) (bytes : List ℕ)
    → read_round (filled bytes (replicate buf_size 0)) (length bytes) conn
      ≡ some (conn', ctl_mod conn.fd epoll_in)
    → (s : Polling) × Reach (accepted conn) s × (s.conn ≡ some conn') × (length s.readers ≡ 2)
two_readers conn conn' bytes e = (
  _,
  next (next (first_round conn conn' bytes epoll_in e) (fires_in refl)) (starts [] refl),
  refl,
  refl,
)

-- On any connection whose first bytes do not finish a request: if the client closes it then, a state is
-- reached in which the connection is deleted and a task of read_conn waits that holds it.
pub task_outlives :
    (conn conn' : Connection) (bytes : List ℕ)
    → read_round (filled bytes (replicate buf_size 0)) (length bytes) conn
      ≡ some (conn', ctl_mod conn.fd epoll_in)
    → (s : Polling) × Reach (accepted conn) s × (s.conn ≡ none) × (s.tasks ≡ reads ∷ [])
task_outlives conn conn' bytes e = (
  _,
  next (next (first_round conn conn' bytes epoll_in e) (fires_in refl))
      (closes [] [] _ conn' refl refl),
  refl,
  refl,
)

-- write_conn on a file that cannot be opened.
write_conn_unopened :
    (conn : Connection) (name : Text) (fopen : Text → Option (List ℕ))
    → file_name conn.req ≡ some name
    → fopen name ≡ none
    → write_conn use_sendfile force_close (λ n. []) fopen [] 0 conn ≡ some (some conn, [], [])
unfolding write_conn
write_conn_unopened conn name fopen named missing = rw (named, missing) refl

-- Nothing can happen any more.
abbrev pub IsStuck : Polling → Type 0
IsStuck s = (t : Polling) → Step s t → ⊥

idle-IsStuck :
    (conn : Option Connection) (t : Polling)
    → Step (record { conn = conn; armed = none; tasks = []; readers = []; writers = 0 }) t
    → ⊥
idle-IsStuck conn t (fires_in e) = cc
idle-IsStuck conn t (fires_out e) = cc
idle-IsStuck conn t (starts tasks e) = cc
idle-IsStuck conn t (round [] after _buf bytes c c' interest e at_c ran) = cc
idle-IsStuck conn t (round (b ∷ before) after _buf bytes c c' interest e at_c ran) = cc
idle-IsStuck conn t (leaves [] after _buf e) = cc
idle-IsStuck conn t (leaves (b ∷ before) after _buf e) = cc
idle-IsStuck conn t (closes [] after _buf c e at_c) = cc
idle-IsStuck conn t (closes (b ∷ before) after _buf c e at_c) = cc
idle-IsStuck conn t (starts_write tasks e) = cc
idle-IsStuck conn t (runs_write n c to_string fopen nwrites sent left actions out e at_c ran) = cc

-- On any connection whose first bytes finish a request for a file that cannot be opened, a state is
-- reached in which the connection is open, and nothing can happen any more: the descriptor is not
-- armed, no task waits and no worker is at it, so that neither what the client sends later nor its
-- closing is seen.
pub unopened-IsStuck :
    (conn conn' : Connection) (bytes name : List ℕ) (fopen : Text → Option (List ℕ))
    → read_round (filled bytes (replicate buf_size 0)) (length bytes) conn
      ≡ some (conn', ctl_mod conn.fd epoll_out)
    → file_name conn'.req ≡ some name
    → fopen name ≡ none
    → (s : Polling) × Reach (accepted conn) s × (s.conn ≡ some conn') × IsStuck s
unopened-IsStuck conn conn' bytes name fopen e named missing =
    let read = next (first_round conn conn' bytes epoll_out e) (leaves [] [] _ refl) in
    let writing = next (next read (fires_out refl)) (starts_write [] refl) in
    (
      _,
      next writing (
          runs_write 0 conn' _ fopen [] 0 _ _ _ refl refl
            (write_conn_unopened conn' name fopen named missing)),
      refl,
      idle-IsStuck (some conn'),
    )
