-- ===== src/Sockets.antt =====
-- socket.cpp and the places that repeat its set-up: init_acceptor and the start of epoll_loop in
-- acceptor.cpp, init_poller and the start of poller in message_queue/message_queue_server.cpp, connect in
-- message_queue/message_queue_client.cpp, and the start of loop in loop.cpp. What the operating system
-- answers is an argument; a descriptor is `none` for -1. Every descriptor is set up for IPv4 streams.
use seda_framework.Base.{
  ℕ, ◌+◌, ◌-◌, ◌^◌, ◌%◌, Bool, true, false, not, Option, none, some, List, [], ◌∷◌, ◌++◌,
  if◌then◌else◌,
}
use seda_framework.Base.Memory.{◌>>=◌}
use seda_framework.Base.Dictionary.{Text}
use seda_framework.MessageQueue.Client.{get_ip_port}
pub mod Kernel
pub mod Servers
mod Tests

abbrev pub Descriptor : Type 0
Descriptor = Option ℕ

-- struct sockaddr_in: the IPv4 address as its four bytes, and the port that sin_port stands for.
pub record Address : Type 0 where
  pub host : List ℕ
  pub port : ℕ

-- A call and what it gave: socket, fcntl with SOCK_NONBLOCK, setsockopt with SO_REUSEADDR, bind, listen,
-- connect, epoll_create1, and EPOLL_CTL_ADD for EPOLLIN and EPOLLET.
pub data Call : Type 0 where
  opens : Descriptor → Call
  unblocks : Descriptor → Call
  reuses : Descriptor → Call
  binds : Descriptor → Address → Bool → Call
  listens : Descriptor → ℕ → Bool → Call
  connects : Descriptor → Address → Bool → Call
  creates : Descriptor → Call
  watches : Descriptor → Descriptor → Call

-- htons takes the low 16 bits.
abbrev pub htons : ℕ → ℕ
htons port = port % 2 ^ 16

-- INADDR_ANY
abbrev pub any_host : List ℕ
any_host = 0 ∷ 0 ∷ 0 ∷ 0 ∷ []

-- What a set-up returns, the descriptor that it leaves in `listenfd` and the calls that it makes.
pub record Setup : Type 0 where
  pub ret : Bool
  pub listenfd : Descriptor
  pub calls : List Call

-- Socket::initServer. `binds_it` tells whether bind succeeds on a descriptor, and `listens_it` whether
-- listen does, whose result is not looked at.
unfoldable pub init_server : ℕ → Descriptor → (Descriptor → Bool) → Bool → Setup
init_server listen_port none binds_it listens_it = record {
  ret = false;
  listenfd = none;
  calls = opens none ∷ [];
}
init_server listen_port (some fd) binds_it listens_it =
    let addr : Address = record { host = any_host; port = htons listen_port } in
    let calls =
      opens (some fd)
      ∷ unblocks (some fd)
      ∷ reuses (some fd)
      ∷ binds (some fd) addr (binds_it (some fd))
      ∷ [] in
    if binds_it (some fd)
    then record {
      ret = true;
      listenfd = some fd;
      calls = calls ++ listens (some fd) 50 listens_it ∷ [];
    }
    else record { ret = false; listenfd = some fd; calls = calls }

-- class Socket; `epfd` is `none` as long as nothing is written there.
pub record Socket : Type 0 where
  pub listen_port : ℕ
  pub listenfd : Descriptor
  pub epfd : Option Descriptor

-- Socket::Socket(int): the object, whether it reports an error, and the calls.
unfoldable pub socket_server :
    ℕ → Descriptor → (Descriptor → Bool) → Bool → Socket × Bool × List Call
unfolding init_server
socket_server listen_port opened binds_it listens_it =
    let s = init_server listen_port opened binds_it listens_it in
    (record { listen_port = listen_port; listenfd = s.listenfd; epfd = none }, s.ret, s.calls)

-- acceptor::init_acceptor, which has the lines of initServer
unfoldable pub init_acceptor : ℕ → Descriptor → (Descriptor → Bool) → Bool → Setup
unfolding init_server
init_acceptor port opened binds_it listens_it = init_server port opened binds_it listens_it

-- #define MQ_PORT 16667
abbrev pub mq_port : ℕ
mq_port = 16667

-- message_queue_server::init_poller: a failed bind ends the program in the assertion behind it, with
-- nothing returned; neither the descriptor nor what listen returns is looked at.
unfoldable pub init_poller :
    Descriptor → (Descriptor → Bool) → Bool → Option (Descriptor × List Call)
init_poller opened binds_it listens_it =
    let addr : Address = record { host = any_host; port = htons mq_port } in
    if binds_it opened
    then some (
      opened,
      opens opened
          ∷ unblocks opened
          ∷ reuses opened
          ∷ binds opened addr true
          ∷ listens opened 50 listens_it
          ∷ [],
    )
    else none

-- The start of epoll_loop, poller and Loop::loop, on what epoll_create1 gives. Only poller asserts that
-- it is a descriptor.
unfoldable pub watch_listenfd : Descriptor → Descriptor → List Call
watch_listenfd epfd listenfd = creates epfd ∷ watches epfd listenfd ∷ []

-- acceptor::acceptor(int) and acceptor::start, up to the loop: what init_acceptor returns is not looked
-- at.
unfoldable pub start_acceptor : ℕ → Descriptor → (Descriptor → Bool) → Bool → Descriptor → List Call
unfolding init_acceptor watch_listenfd
start_acceptor port opened binds_it listens_it epfd =
    let s = init_acceptor port opened binds_it listens_it in
    s.calls ++ watch_listenfd epfd s.listenfd

-- message_queue_server::init_mq, up to the loop
unfoldable pub start_poller :
    Descriptor → (Descriptor → Bool) → Bool → Descriptor → Option (List Call)
unfolding init_poller watch_listenfd
start_poller opened binds_it listens_it none = none
start_poller opened binds_it listens_it (some epfd) = do
  s ← init_poller opened binds_it listens_it
  some (s.1 ++ watch_listenfd (some epfd) s.0)

-- `inet_pton` gives the four bytes of a host, if it is one; they are zero otherwise.
abbrev pub sin_addr : Option (List ℕ) → List ℕ
sin_addr none = any_host
sin_addr (some host) = host

-- mq_client::connect behind get_ip_port, whose result `ret` is not looked at: whether it returns 0, and
-- the calls.
abbrev pub connect_to :
    (Text → Option (List ℕ))
    → Text × ℕ × Bool
    → Descriptor
    → (Descriptor → Address → Bool)
    → Bool × List Call
connect_to inet_pton (server_ip, server_port, ret) opened connects_it =
    let addr : Address = record {
      host = sin_addr (inet_pton server_ip);
      port = htons server_port;
    } in
    (connects_it opened addr, opens opened ∷ connects opened addr (connects_it opened addr) ∷ [])

unfoldable pub connect :
    (Text → ℕ)
    → (Text → Option (List ℕ))
    → Text
    → Descriptor
    → (Descriptor → Address → Bool)
    → Bool × List Call
connect atoi inet_pton server_ip_port opened connects_it =
    connect_to inet_pton (get_ip_port atoi server_ip_port) opened connects_it
