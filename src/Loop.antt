-- ===== src/Loop.antt =====
-- loop.cpp: the event loop of a stage. What `accept` and `read` give is a list, in the order of the
-- calls; the calls on epoll and the descriptors are the result. Log lines are left out.
use seda_framework.Base.{
  ℕ, Bool, true, false, Option, some, none, List, [], ◌∷◌, map, if◌then◌else◌,
}
use seda_framework.Base.Memory.{◌>>=◌}
use seda_framework.Buffer.{Buffer, new_buffer, push_back, ptr}
use seda_framework.Acceptor.{Interest, epoll_in, Action, ctl_add, ctl_del, close_fd}
pub mod Reading
mod Tests

-- Loop::accept_conn over the descriptors that `accept` returns
abbrev pub accept_conn : List ℕ → List Action
accept_conn = map (λ peer_sock. ctl_add peer_sock epoll_in)

-- The `while` of Loop::read_conn over what `read` returns, 1 to 1023 bytes at a time.
unfoldable pub read_loop : List (List ℕ) → Buffer → Option Buffer
unfolding push_back
read_loop [] buf = some buf
read_loop (bytes ∷ more) buf = push_back bytes buf >>= λ pushed. read_loop more pushed

-- Loop::read_conn: the block of which an element is made and queued, and the calls at the end;
-- `last_zero` tells whether the last `read` returned 0.
unfoldable pub read_conn : ℕ → List (List ℕ) → Bool → Option (List ℕ × List Action)
unfolding read_loop
read_conn peer_fd reads last_zero = read_loop reads new_buffer >>= λ buf.
    some (ptr buf, if last_zero then ctl_del peer_fd ∷ close_fd peer_fd ∷ [] else [])

-- What Loop::loop does for an event: whether it is on the listening descriptor, EPOLLIN, EPOLLOUT.
pub data Handling : Type 0 where
  accepts reads nothing : Handling

unfoldable pub on_event : Bool → Bool → Bool → Handling
on_event true is_in is_out = accepts
on_event false true is_out = reads
on_event false false is_out = nothing
