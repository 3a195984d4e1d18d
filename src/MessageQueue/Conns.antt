-- ===== src/MessageQueue/Conns.antt =====
-- message_queue/mq_conn.cpp: a connection of the message queue, as it is created, and the status that it
-- gives a message; and the server as it is created.
use seda_framework.Base.{
  ℕ, suc, ◌+◌, ◌-◌, ◌^◌, ◌≡◌, refl, false, Option, none, some, List, ◌∷◌, ◌++◌, length, get_elem?,
  get_elem?-append, ◌==◌, if◌then◌else◌, arith, [],
}
use seda_framework.Base.Memory.{◌>>=◌}
use seda_framework.TaskQueue.{task_queue}
use seda_framework.WorkerPool.{Pool, worker_pool, set_task_queue, default_worker_num}
use seda_framework.MessageQueue.Server.{Server}
use seda_framework.Buffer.{Buffer, new_buffer}

-- enum mq_status
pub data MqStatus : Type 0 where
  mq_read mq_finish mq_error : MqStatus

-- class mq_conn; `ms` is not written before a message has been read.
pub record MqConn : Type 0 where
  pub fd : ℕ
  pub epfd : ℕ
  pub buf : Buffer
  pub ms : Option MqStatus

-- mq_conn::mq_conn, with -1 as a 32-bit pattern
abbrev pub mq_conn : MqConn
mq_conn = record { fd = 2 ^ 32 - 1; epfd = 2 ^ 32 - 1; buf = new_buffer; ms = none }

-- mq_conn::read_mq_msg_status_machine; `none` is a read out of bounds.
unfoldable pub read_mq_msg_status_machine : List ℕ → ℕ → MqConn → Option MqConn
read_mq_msg_status_machine _buf len mc = do
  msg_style_begin ← get_elem? _buf 0
  msg_style_end ← (if len == 0 then none else get_elem? _buf (len - 1))
  some (record mc { ms = some (if msg_style_end == msg_style_begin then mq_finish else mq_error) })

-- A message of two bytes or more is finished exactly if its last byte is its first again.
pub read_mq_msg_status_machine_lem :
    (first last : ℕ) (mid rest : List ℕ) (mc : MqConn)
    → read_mq_msg_status_machine (first ∷ mid ++ last ∷ rest) (length mid + 2) mc
      ≡ some (record mc { ms = some (if last == first then mq_finish else mq_error) })
unfolding read_mq_msg_status_machine
read_mq_msg_status_machine_lem first last mid rest mc =
    let full : (length mid + 2 == 0) ≡ false = ground arith in
    let at : length mid + 2 - 1 ≡ suc (length mid) = omega arith in
    rw (full, at, get_elem?-append mid last rest) refl

-- message_queue_server::message_queue_server: empty maps, and a pool over a queue of the server's own
unfoldable pub message_queue_server {ℓ} : {A : Type ℓ} → Server × Pool A
unfolding worker_pool
message_queue_server = (
  record { relations = []; publishers = []; fd_addrs = []; cached_msg = [] },
  set_task_queue task_queue (worker_pool default_worker_num false),
)
