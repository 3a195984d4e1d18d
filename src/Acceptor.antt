-- ===== src/Acceptor.antt =====
-- acceptor.cpp and connect.cpp: the HTTP connections. What the operating system answers is given to a
-- handler as a list, in the order of the calls: the peers of `accept`, the bytes of `read`, the
-- counts of `write`. The calls on epoll and the descriptors are the result. Log lines are left out.
use seda_framework.Base.{
  ℕ, zero, suc, ◌+◌, ◌-◌, Bool, true, false, Option, some, none, List, [], ◌∷◌, ◌++◌, length, take,
  drop, replicate, ltb, ◌==◌, if◌then◌else◌, map,
}
use seda_framework.Base.Memory.{◌>>=◌, memcpy, c_string}
use seda_framework.Base.Dictionary.{Text, get}
use seda_framework.Buffer.{Buffer, buf_size, new_buffer, push_back}
use seda_framework.Http.{Status, read_http_finish, Request, new_request, read_http_status_machine}
use seda_framework.WorkerPool
use seda_framework.WorkerPool.{Pool, worker_pool, default_worker_num}
pub mod Reading
pub mod Requests
pub mod Writing
pub mod Oneshot
pub mod Answering
pub mod Finishing
pub mod Serving
mod Tests

-- class connection, with the `username` and `password` of its handle_info, and the buffer of its
-- request.
pub record Connection : Type 0 where
  pub fd : ℕ
  pub req : Request
  pub buf : Buffer
  pub username : Text
  pub password : Text

-- What a connection is armed for: EPOLLIN or EPOLLOUT, always with EPOLLET and EPOLLONESHOT.
pub data Interest : Type 0 where
  epoll_in epoll_out : Interest

-- epoll_ctl with EPOLL_CTL_ADD, EPOLL_CTL_MOD and EPOLL_CTL_DEL, and close.
pub data Action : Type 0 where
  ctl_add ctl_mod : ℕ → Interest → Action
  ctl_del close_fd : ℕ → Action

abbrev pub connection : ℕ → Connection
connection fd = record {
  fd = fd;
  req = new_request;
  buf = new_buffer;
  username = [];
  password = [];
}

-- acceptor::accept_conn over the descriptors that `accept` returns
unfoldable pub accept_conn : List ℕ → List Connection × List Action
accept_conn peers = (map connection peers, map (λ fd. ctl_add fd epoll_in) peers)

-- connection::set_user_info_to_handle; `content[...]` is on a copy of the map.
unfoldable pub set_user_info_to_handle : Connection → Connection
set_user_info_to_handle conn = record conn {
  username = get (b'u' ∷ b's' ∷ b'e' ∷ b'r' ∷ b'n' ∷ b'a' ∷ b'm' ∷ b'e' ∷ []) [] conn.req.content;
  password = get (b'p' ∷ b'a' ∷ b's' ∷ b's' ∷ b'w' ∷ b'o' ∷ b'r' ∷ b'd' ∷ []) [] conn.req.content;
}

abbrev pub is_finish : Status → Bool
is_finish read_http_finish = true
is_finish _ = false

-- One round of read_conn, on the first `nread` bytes of `_buf`.
unfoldable pub read_round : List ℕ → ℕ → Connection → Option (Connection × Action)
unfolding push_back read_http_status_machine set_user_info_to_handle
read_round _buf nread conn = do
  buf ← push_back (take nread _buf) conn.buf
  req ← read_http_status_machine _buf nread conn.req
  let read = record conn { buf = buf; req = req }
  some (
      if is_finish req.rhs
      then (set_user_info_to_handle read, ctl_mod conn.fd epoll_out)
      else (read, ctl_mod conn.fd epoll_in))

-- The `while` of read_conn over what `read` returns, 1 to 1023 bytes at a time. What stood in `_buf`
-- behind them stays.
unfoldable pub read_loop : List (List ℕ) → List ℕ → Connection → Option (Connection × List Action)
unfolding read_round
read_loop [] _buf conn = some (conn, [])
read_loop (bytes ∷ more) _buf conn = do
  let filled = bytes ++ drop (length bytes) _buf
  r ← read_round filled (length bytes) conn
  rest ← read_loop more filled r.0
  some (rest.0, r.1 ∷ rest.1)

-- acceptor::read_conn; `last_zero` tells whether the last `read` returned 0, and the connection is
-- deleted then.
unfoldable pub read_conn :
    List (List ℕ) → Bool → Connection → Option (Option Connection × List Action)
unfolding read_loop
read_conn reads last_zero conn = do
  r ← read_loop reads (replicate buf_size 0) conn
  some (
      if last_zero then (none, r.1 ++ ctl_del conn.fd ∷ close_fd conn.fd ∷ []) else (some r.0, r.1))

-- "/var/www/html" and "/index.html"
abbrev pub html_root : Text
html_root =
    b'/' ∷ b'v' ∷ b'a' ∷ b'r' ∷ b'/' ∷ b'w' ∷ b'w' ∷ b'w' ∷ b'/' ∷ b'h' ∷ b't' ∷ b'm' ∷ b'l' ∷ []

abbrev pub index_page : Text
index_page = b'/' ∷ b'i' ∷ b'n' ∷ b'd' ∷ b'e' ∷ b'x' ∷ b'.' ∷ b'h' ∷ b't' ∷ b'm' ∷ b'l' ∷ []

-- `char filename[64] = {0}; sprintf(filename, ...)`: the name, if it fits.
unfoldable pub file_name : Request → Option Text
unfolding c_string memcpy
file_name req = do
  url ← c_string req.url
  filename ←
      memcpy (replicate 64 0) 0
        (html_root ++ (if length url == 1 then index_page else url) ++ 0 ∷ [])
  c_string filename

-- The `while` of writeBody, with the file's bytes that are left and a bound on its rounds: `fread`
-- puts at most 1023 of them at the start of `buf`, whose C string is added to the content.
unfoldable pub body_loop : ℕ → List ℕ → List ℕ → List ℕ → Option (List ℕ)
unfolding c_string
body_loop zero rest buf rsp_content = some rsp_content
body_loop (suc rounds) [] buf rsp_content = some rsp_content
body_loop (suc rounds) (c ∷ rest) buf rsp_content = do
  let chunk = take 1023 (c ∷ rest)
  let filled = chunk ++ drop (length chunk) buf
  text ← c_string filled
  body_loop rounds (drop 1023 (c ∷ rest)) filled (rsp_content ++ text)

-- acceptor::writeBody, for the file system `fopen`. Each round takes a byte at least.
unfoldable pub write_body : (Text → Option (List ℕ)) → List ℕ → Request → Option (List ℕ)
unfolding file_name body_loop
write_body fopen rsp_content req = do
  filename ← file_name req
  elim (fopen filename) [
    | none ↦ some rsp_content
    | some file ↦ body_loop (length file) file (replicate 1024 0) rsp_content
  ]

-- The `while` of write_conn over what `write` returns, `none` for -1: the bytes taken, in order.
unfoldable pub write_loop : List (Option ℕ) → List ℕ → ℕ → List (List ℕ)
write_loop [] rsp len = []
write_loop (none ∷ more) rsp len = []
write_loop (some nwrite ∷ more) rsp len =
    let rest = write_loop more rsp (len - nwrite) in
    if ltb 0 len then take nwrite (drop (length rsp - len) rsp) ∷ rest else []

-- What write_conn ends with: FORCE_CLOSE deletes the connection, else it is armed for input again.
unfoldable pub finish_write : Bool → Connection → Option Connection × List Action
finish_write true conn = (none, ctl_del conn.fd ∷ close_fd conn.fd ∷ [])
finish_write false conn = (some conn, ctl_mod conn.fd epoll_in ∷ [])

-- "I have already receive your request. please wait..."
abbrev pub wait_text : Text
wait_text =
    b'I' ∷ b' ' ∷ b'h' ∷ b'a' ∷ b'v' ∷ b'e' ∷ b' ' ∷ b'a' ∷ b'l' ∷ b'r' ∷ b'e' ∷ b'a' ∷ b'd' ∷ b'y'
    ∷ b' ' ∷ b'r' ∷ b'e' ∷ b'c' ∷ b'e' ∷ b'i' ∷ b'v' ∷ b'e' ∷ b' ' ∷ b'y' ∷ b'o' ∷ b'u' ∷ b'r'
    ∷ b' ' ∷ b'r' ∷ b'e' ∷ b'q' ∷ b'u' ∷ b'e' ∷ b's' ∷ b't' ∷ b'.' ∷ b' ' ∷ b'p' ∷ b'l' ∷ b'e'
    ∷ b'a' ∷ b's' ∷ b'e' ∷ b' ' ∷ b'w' ∷ b'a' ∷ b'i' ∷ b't' ∷ b'.' ∷ b'.' ∷ b'.' ∷ []

-- "HTTP/1.1 200 OK\r\nContent-Type: text/html\r\nContent-Length: "
abbrev pub head_text : Text
head_text =
    b'H' ∷ b'T' ∷ b'T' ∷ b'P' ∷ b'/' ∷ b'1' ∷ b'.' ∷ b'1' ∷ b' ' ∷ b'2' ∷ b'0' ∷ b'0' ∷ b' ' ∷ b'O'
    ∷ b'K' ∷ 13 ∷ 10 ∷ b'C' ∷ b'o' ∷ b'n' ∷ b't' ∷ b'e' ∷ b'n' ∷ b't' ∷ b'-' ∷ b'T' ∷ b'y' ∷ b'p'
    ∷ b'e' ∷ b':' ∷ b' ' ∷ b't' ∷ b'e' ∷ b'x' ∷ b't' ∷ b'/' ∷ b'h' ∷ b't' ∷ b'm' ∷ b'l' ∷ 13 ∷ 10
    ∷ b'C' ∷ b'o' ∷ b'n' ∷ b't' ∷ b'e' ∷ b'n' ∷ b't' ∷ b'-' ∷ b'L' ∷ b'e' ∷ b'n' ∷ b'g' ∷ b't'
    ∷ b'h' ∷ b':' ∷ b' ' ∷ []

-- write_conn without sendfile: the head, the length of the content and the content, for `to_string`
-- of the standard library.
unfoldable pub response : (ℕ → Text) → (Text → Option (List ℕ)) → Request → Option (List ℕ)
unfolding write_body
response to_string fopen req = do
  rsp_content ← write_body fopen wait_text req
  let rsp_head = head_text ++ to_string (length rsp_content) ++ 13 ∷ 10 ∷ 13 ∷ 10 ∷ []
  some (rsp_head ++ rsp_content)

-- acceptor::write_conn, for the flags USE_SENDFILE and FORCE_CLOSE, what the calls of `write` return,
-- and how much of a file `sendfile` takes: the connection, the calls and the bytes taken. With
-- USE_SENDFILE a file that is not opened ends it at once.
unfoldable pub write_conn :
    Bool
    → Bool
    → (ℕ → Text)
    → (Text → Option (List ℕ))
    → List (Option ℕ)
    → ℕ
    → Connection
    → Option (Option Connection × List Action × List (List ℕ))
unfolding response write_loop file_name finish_write
write_conn false force_close to_string fopen nwrites sent conn = do
  rsp ← response to_string fopen conn.req
  let r = finish_write force_close conn
  some (r.0, r.1, write_loop nwrites rsp (length rsp))
write_conn true force_close to_string fopen nwrites sent conn = do
  filename ← file_name conn.req
  let r = finish_write force_close conn
  some (elim (fopen filename) [
    | none ↦ (some conn, [], [])
    | some file ↦ (r.0, r.1, take sent file ∷ [])
  ])

-- #define USE_SENDFILE 1 and #define FORCE_CLOSE 0 (marcos.h)
abbrev pub use_sendfile : Bool
use_sendfile = true

abbrev pub force_close : Bool
force_close = false

-- A task that epoll_loop gives to the workers, or what it does itself, for one event: whether it is
-- on the listening descriptor, and whether it holds EPOLLIN and EPOLLOUT.
pub data Task : Type 0 where
  accepts reads writes nothing : Task

unfoldable pub on_event : Bool → Bool → Bool → Task
on_event true is_in is_out = accepts
on_event false true is_out = reads
on_event false false true = writes
on_event false false false = nothing

-- acceptor::init_worker_pool
unfoldable pub init_worker_pool {ℓ} : {A : Type ℓ} → Pool A × Bool
unfolding worker_pool WorkerPool.start
init_worker_pool = (WorkerPool.start (worker_pool default_worker_num false), true)
