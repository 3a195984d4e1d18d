-- ===== src/MessageQueue/Interleaving.antt =====
-- message_queue/message_queue_server.cpp: poller and any number of workers. The descriptors stay armed
-- while they are handled (EPOLLET alone), so that the rounds of recv_msg on one connection or on several
-- come in any order. A round and a call of accept_conn are one step each, though the code takes no lock. A pointer to
-- an mq_conn is its place among the accepted connections.
use seda_framework.Base.{
  ℕ, ◌≡◌, ◌≢◌, refl, some, List, [], ◌∷◌, ◌++◌, map, length, replicate, get_elem?, All, All-append,
}
use seda_framework.Base.Dictionary.{Text, insert}
use seda_framework.Buffer.{buf_size}
use seda_framework.MessageQueue.Server.{Server, Conn, Write, read_into, handle_msg, accept_conn}
use seda_framework.MessageQueue.Rounds.{Caches, Caches-same, Caches-compose, handle_msg-Caches}

-- What the workers are to do: accept_conn, or recv_msg on a connection.
pub data Job : Type 0 where
  accepting : Job
  receiving : ℕ → Job

-- The server's maps; the accepted connections; the tasks that wait; the `_buf` of each worker in the loop
-- of recv_msg; the workers whose `read` returned 0, before they delete the connection; the deleted
-- connections; and what was written, with the connection on which the message came.
pub record Running : Type 0 where
  pub server : Server
  pub conns : List Conn
  pub tasks : List Job
  pub readers : List (ℕ × List ℕ)
  pub closers : List ℕ
  pub deleted : List ℕ
  pub sent : List (Conn × Write)

-- `p` points to a connection that is not deleted.
abbrev pub Points : ℕ → Conn → Running → Type 0
Points p mc s = (get_elem? s.conns p ≡ some mc) × All (λ q. q ≢ p) s.deleted

pub data Step (s : Running) : Running → Type 0 where
  event_accept : Step s (record s { tasks = s.tasks ++ accepting ∷ [] })
  event_in :
      (p : ℕ) (mc : Conn)
      → Points p mc s
      → Step s (record s { tasks = s.tasks ++ receiving p ∷ [] })
  accepts :
      (tasks : List Job) (peers : List (Text × ℕ))
      → s.tasks ≡ accepting ∷ tasks
      → Step s (record s {
        server = (accept_conn peers s.server).0;
        conns = s.conns ++ (accept_conn peers s.server).1;
        tasks = tasks;
      })
  starts :
      (p : ℕ) (tasks : List Job)
      → s.tasks ≡ receiving p ∷ tasks
      → Step s (record s { tasks = tasks; readers = s.readers ++ (p, replicate buf_size 0) ∷ [] })
  round :
      (before after : List (ℕ × List ℕ)) (p : ℕ) (_buf bytes : List ℕ) (mc : Conn) (server : Server)
      (out : List Write)
      → s.readers ≡ before ++ (p, _buf) ∷ after
      → Points p mc s
      → handle_msg mc (read_into bytes _buf) (length bytes) s.server ≡ some (server, out)
      → Step s (record s {
        server = server;
        readers = before ++ (p, read_into bytes _buf) ∷ after;
        sent = s.sent ++ map (λ w. (mc, w)) out;
      })
  leaves :
      (before after : List (ℕ × List ℕ)) (p : ℕ) (_buf : List ℕ) (mc : Conn)
      → s.readers ≡ before ++ (p, _buf) ∷ after
      → Points p mc s
      → Step s (record s { readers = before ++ after })
  read_zero :
      (before after : List (ℕ × List ℕ)) (p : ℕ) (_buf : List ℕ) (mc : Conn)
      → s.readers ≡ before ++ (p, _buf) ∷ after
      → Points p mc s
      → Step s (record s { readers = before ++ after; closers = s.closers ++ p ∷ [] })
  deletes :
      (before after : List ℕ) (p : ℕ)
      → s.closers ≡ before ++ p ∷ after
      → Step s (record s { closers = before ++ after; deleted = s.deleted ++ p ∷ [] })

pub data Reach (s : Running) : Running → Type 0 where
  here : Reach s s
  next : {t u : Running} → Reach s t → Step t u → Reach s u

-- A server whose one connection has just been accepted.
abbrev pub with_conn : Conn → Server → Running
with_conn mc server = record {
  server = server;
  conns = mc ∷ [];
  tasks = [];
  readers = [];
  closers = [];
  deleted = [];
  sent = [];
}

accept_conn-Caches : (peers : List (Text × ℕ)) (s : Server) → Caches s (accept_conn peers s).0
unfolding accept_conn
accept_conn-Caches [] s = Caches-same s s refl
accept_conn-Caches ((addr, peer_sock) ∷ peers) s =
    let s' : Server = record s { fd_addrs = insert addr peer_sock s.fd_addrs } in
    Caches-compose s s' (accept_conn peers s').0 (Caches-same s s' refl)
      (accept_conn-Caches peers s')

-- Each message that was written went to the descriptor of the connection on which its publisher sent it.
abbrev pub IsOwn : Conn × Write → Type 0
IsOwn (mc, w) = w.fd ≡ mc.fd

IsOwn-map :
    (mc : Conn) (out : List Write)
    → All (λ w. w.fd ≡ mc.fd) out
    → All IsOwn (map (λ w. (mc, w)) out)
IsOwn-map mc [] h = tt
IsOwn-map mc (w ∷ out) h = (h.0, IsOwn-map mc out h.1)

Step-Caches :
    {s t : Running} → Step s t → All IsOwn s.sent → Caches s.server t.server × All IsOwn t.sent
Step-Caches {s} event_accept own = (Caches-same s.server s.server refl, own)
Step-Caches {s} (event_in p mc points) own = (Caches-same s.server s.server refl, own)
Step-Caches {s} (accepts tasks peers e) own = (accept_conn-Caches peers s.server, own)
Step-Caches {s} (starts p tasks e) own = (Caches-same s.server s.server refl, own)
Step-Caches {s} (round before after p _buf bytes mc server out e points ran) own =
    let (kept, to_fd) =
      handle_msg-Caches mc (read_into bytes _buf) (length bytes) s.server (server, out) ran in
    (kept, All-append IsOwn s.sent (map (λ w. (mc, w)) out) own (IsOwn-map mc out to_fd))
Step-Caches {s} (leaves before after p _buf mc e points) own =
    (Caches-same s.server s.server refl, own)
Step-Caches {s} (read_zero before after p _buf mc e points) own =
    (Caches-same s.server s.server refl, own)
Step-Caches {s} (deletes before after p e) own = (Caches-same s.server s.server refl, own)

-- However the events, the rounds of the workers, accepted connections and closed ones come: what
-- is cached for an address is never taken out of the cache; and if every message so far was written
-- to the descriptor of the connection on which it came, so is every one later.
pub Reach-Caches :
    {s t : Running} → Reach s t → All IsOwn s.sent → Caches s.server t.server × All IsOwn t.sent
Reach-Caches {s} here own = (Caches-same s.server s.server refl, own)
Reach-Caches {s} {t = u} (next {t} r step) own =
    let (kept, own') = Reach-Caches r own in
    let (kept', own'') = Step-Caches step own' in
    (Caches-compose s.server t.server u.server kept kept', own'')

-- Two events before a worker has closed the connection.
two_readers :
    (mc : Conn) (server : Server)
    → Reach (with_conn mc server) (record (with_conn mc server) {
      readers = (0, replicate buf_size 0) ∷ (0, replicate buf_size 0) ∷ [];
    })
two_readers mc server =
    next
      (next (next (next here (event_in 0 mc (refl, tt))) (event_in 0 mc (refl, tt)))
        (starts 0 _ refl))
      (starts 0 _ refl)

-- On a server with any one connection, a state is reached in which that connection has been deleted
-- twice: two events come for it, and two workers read its end before one deletes it.
pub deleted_twice :
    (mc : Conn) (server : Server)
    → (s : Running) × Reach (with_conn mc server) s × (s.deleted ≡ 0 ∷ 0 ∷ [])
deleted_twice mc server =
    let both = two_readers mc server in
    let first = next both (read_zero [] _ 0 (replicate buf_size 0) mc refl (refl, tt)) in
    let second = next first (read_zero [] [] 0 (replicate buf_size 0) mc refl (refl, tt)) in
    (_, next (next second (deletes [] _ 0 refl)) (deletes [] [] 0 refl), refl)
