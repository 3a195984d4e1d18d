-- ===== src/MessageQueue/Server.antt =====
-- message_queue/message_queue_server.cpp: the handlers that a worker runs. One call of a handler is
-- one step on the server's maps: calls on different connections are not interleaved here, though the
-- code takes no lock. Log lines are left out.
use seda_framework.Base.{
  ℕ, ◌-◌, Bool, Option, some, none, List, [], ◌∷◌, ◌++◌, map, length, take, drop, replicate, ltb,
  ◌==◌, if◌then◌else◌, get_elem?, true, false,
}
use seda_framework.Base.Memory.{◌>>=◌, memcpy, c_string}
use seda_framework.Base.Dictionary.{Text, find, insert, assign, get, erase}
use seda_framework.Buffer.{buf_size}
use seda_framework.MessageQueue.{encode_mq_msg, decode_mq_msg, check_msg_crc}

-- The maps of message_queue_server that its handlers use.
pub record Server : Type 0 where
  pub relations : List (Text × List Text)
  pub publishers : List Text
  pub fd_addrs : List (Text × ℕ)
  pub cached_msg : List (Text × List Text)

-- class mq_conn
pub record Conn : Type 0 where
  pub fd : ℕ
  pub addr : Text

-- A call write(fd, p, count) where `bytes` stand at `p`, with a zero byte behind them. It is given
-- `count` bytes, so that a count above `length bytes + 1` reads beyond them; what it reads there is not
-- modelled.
pub record Write : Type 0 where
  pub fd : ℕ
  pub bytes : List ℕ
  pub count : ℕ

-- One round of the loop over the subscribers, by what `fd_addrs.find` gives: cache for one that is
-- away; else write what is cached for it, and the message, with the count of the bytes that came.
unfoldable pub deliver_by : Option ℕ → Conn → List ℕ → ℕ → Text → Server → Server × List Write
deliver_by none mc msg nread sub s =
    (record s { cached_msg = assign sub (get sub [] s.cached_msg ++ msg ∷ []) s.cached_msg }, [])
deliver_by (some sub_fd) mc msg nread sub s = (
  record s { cached_msg = insert sub [] s.cached_msg },
  map (λ m. record { fd = mc.fd; bytes = m; count = length m }) (get sub [] s.cached_msg)
      ++ record { fd = mc.fd; bytes = msg; count = nread } ∷ [],
)

unfoldable pub deliver : Conn → List ℕ → ℕ → Text → Server → Server × List Write
unfolding deliver_by
deliver mc msg nread sub s = deliver_by (find sub s.fd_addrs) mc msg nread sub s

unfoldable pub deliver_all : Conn → List ℕ → ℕ → List Text → Server → Server × List Write
unfolding deliver
deliver_all mc msg nread [] s = (s, [])
deliver_all mc msg nread (sub ∷ subs) s =
    let (s', out) = deliver mc msg nread sub s in
    let (s'', outs) = deliver_all mc msg nread subs s' in (s'', out ++ outs)

-- case 0x1
unfoldable pub publish : Conn → List ℕ → ℕ → Server → Option (Server × List Write)
unfolding deliver_all check_msg_crc encode_mq_msg decode_mq_msg
publish mc buf nread s = do
  right ← check_msg_crc buf nread
  let delivered = do
    recved_msg ← encode_mq_msg buf
    msg ← decode_mq_msg recved_msg
    let listed = record s { relations = insert mc.addr [] s.relations }
    some (deliver_all mc msg nread (get mc.addr [] s.relations) listed)
  if right then delivered else some (s, [])

-- case 0x2
unfoldable pub register_publisher : Conn → Server → Server
register_publisher mc s = record s {
  publishers = s.publishers ++ mc.addr ∷ [];
  fd_addrs = insert mc.addr mc.fd s.fd_addrs;
}

-- `char publisher_name[128] = {0}; memcpy(publisher_name, _buf + 1, nread - 2);` read as a string. A
-- negative count is huge as a `size_t`.
unfoldable pub publisher_name : List ℕ → ℕ → Option Text
publisher_name buf nread =
    if ltb nread 2
    then none
    else memcpy (replicate 128 0) 0 (take (nread - 2) (drop 1 buf)) >>= c_string

-- case 0x4 once the name is read, by what `fd_addrs.find` gives for it; `s` knows the connection.
unfoldable pub subscribe_by : Option ℕ → Conn → Text → Server → Server
subscribe_by none mc name s = s
subscribe_by (some fd) mc name s = record s {
  relations = assign name (get name [] s.relations ++ mc.addr ∷ []) s.relations;
}

unfoldable pub subscribe : Conn → List ℕ → ℕ → Server → Option Server
unfolding subscribe_by
subscribe mc buf nread s = do
  let known = record s { fd_addrs = insert mc.addr mc.fd s.fd_addrs }
  name ← publisher_name buf nread
  some (subscribe_by (find name known.fd_addrs) mc name known)

-- case 0x8
unfoldable pub unregister : Conn → Server → Option Server
unregister mc s = do
  fds ← erase mc.addr s.fd_addrs
  rels ← erase mc.addr s.relations
  some (record s { fd_addrs = fds; relations = rels })

-- The `switch` on the first byte.
unfoldable pub dispatch : ℕ → Conn → List ℕ → ℕ → Server → Option (Server × List Write)
unfolding publish register_publisher subscribe unregister publisher_name
dispatch kind mc buf nread s =
    if kind == 0x1
    then publish mc buf nread s
    else if kind == 0x2
    then some (register_publisher mc s, [])
    else if kind == 0x4
    then (subscribe mc buf nread s >>= λ s'. some (s', []))
    else if kind == 0x8
    then (unregister mc s >>= λ s'. some (s', []))
    else if kind == 0x16
    then (publisher_name buf nread >>= λ _. some (s, []))
    else some (s, [])

unfoldable pub handle_msg : Conn → List ℕ → ℕ → Server → Option (Server × List Write)
unfolding dispatch
handle_msg mc buf nread s = get_elem? buf 0 >>= λ kind. dispatch kind mc buf nread s

-- `read` puts its bytes at the start of `_buf`; what stood behind them stays.
abbrev pub read_into : List ℕ → List ℕ → List ℕ
read_into bytes buf = bytes ++ drop (length bytes) buf

-- The `while` of message_queue_server::recv_msg over what `read` returns, 1 to 1023 bytes at a time.
unfoldable pub recv_loop : Conn → List (List ℕ) → List ℕ → Server → Option (Server × List Write)
unfolding handle_msg
recv_loop mc [] buf s = some (s, [])
recv_loop mc (bytes ∷ more) buf s = do
  let filled = read_into bytes buf
  r ← handle_msg mc filled (length bytes) s
  rest ← recv_loop mc more filled r.0
  some (rest.0, r.1 ++ rest.1)

-- What `recv_msg` does at the end: nothing, or take the connection out of epoll, close and delete it.
pub data Ending : Type 0 where
  kept_open : Ending
  closed : (epfd_del : ℕ) → (close_fd : ℕ) → Ending

-- message_queue_server::recv_msg; `last_zero` tells whether the last `read` returned 0.
unfoldable pub recv_msg :
    Conn → List (List ℕ) → Bool → Server → Option (Server × List Write × Ending)
unfolding recv_loop
recv_msg mc reads last_zero s = do
  r ← recv_loop mc reads (replicate buf_size 0) s
  some (r.0, r.1, if last_zero then closed mc.fd mc.fd else kept_open)

-- message_queue_server::accept_conn over the peers that `accept` returns: their addresses, without
-- ports, and their descriptors. The connections are given to epoll.
unfoldable pub accept_conn : List (Text × ℕ) → Server → Server × List Conn
accept_conn [] s = (s, [])
accept_conn ((addr, peer_sock) ∷ peers) s =
    let s' = record s { fd_addrs = insert addr peer_sock s.fd_addrs } in
    let (s'', conns) = accept_conn peers s' in (s'', record { fd = peer_sock; addr = addr } ∷ conns)

-- What message_queue_server::poller pushes for an event: whether it is on the listening descriptor,
-- and EPOLLIN.
pub data Task : Type 0 where
  accepts receives nothing : Task

unfoldable pub on_event : Bool → Bool → Task
on_event true is_in = accepts
on_event false true = receives
on_event false false = nothing
