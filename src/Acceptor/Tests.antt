-- ===== src/Acceptor/Tests.antt =====
-- Runs of the connection handlers, and the theorems on them.
use seda_framework.Base.{
  ℕ, ◌≡◌, refl, Bool, true, false, Option, some, none, List, [], ◌∷◌, ◌++◌, length, replicate,
  arith,
}
use seda_framework.Base.Memory.{NoZero}
use seda_framework.Base.Dictionary.{Text}
use seda_framework.Buffer.{buf_size}
use seda_framework.Http.{get, read_http_finish, post, http, Request, new_request}
use seda_framework.Http.Heads.{IsLine}
use seda_framework.Http.Params.{field, fields, IsField, insert_all}
use seda_framework.Http.Requests.{request_bytes}
use seda_framework.Acceptor.Oneshot.{
  Polling, Reach, filled, accepted, task_outlives, IsStuck, unopened-IsStuck,
}
use seda_framework.Acceptor.{
  read_round, reads, Connection, Action, ctl_mod, epoll_out, connection, read_loop, read_conn,
  set_user_info_to_handle, file_name, html_root, write_conn, use_sendfile, force_close, epoll_in,
}
use seda_framework.Acceptor.Serving.{write_conn-read_conn}
use seda_framework.Acceptor.Reading.{new_buffer-IsRoomy, read_loop-finish}
use seda_framework.Acceptor.Requests.{read_conn-fields}

abbrev slash : Text
slash = b'/' ∷ []

abbrev host : Text
host = b'H' ∷ b':' ∷ []

host-IsLine : IsLine host
host-IsLine = ((λ e. omega (arith, e), (λ e. omega (arith, e), tt)), omega arith)

abbrev a_is_1 : Text × Text
a_is_1 = (b'a' ∷ [], b'1' ∷ [])

a-IsField : IsField a_is_1
a-IsField = (
  (λ e. omega (arith, e), tt),
  (λ e. omega (arith, e), (λ e. omega (arith, e), (λ e. omega (arith, e), tt))),
)

a-NoZero : NoZero (field a_is_1 ++ fields [])
a-NoZero = (λ e. omega (arith, e), (λ e. omega (arith, e), (λ e. omega (arith, e), tt)))

-- A request whose method comes in two pieces: the second piece is read as if it began with it, and
-- the method is lost.
split_method : Option (Option Connection × List Action) → Bool
split_method (some (some conn, _)) = elim conn.req.method [ none ↦ true | some m ↦ false ]
split_method _ = false

split_method_is_lost :
    split_method
      (read_conn ((b'G' ∷ b'E' ∷ []) ∷ (b'T' ∷ b' ' ∷ b'/' ∷ []) ∷ []) false (connection 5))
    ≡ true
unfolding read_conn split_method
split_method_is_lost = refl

abbrev finished : Connection
finished = record (connection 5) { req = record new_request { rhs = read_http_finish } }

request_stays :
    (conn' : Connection) × (read_loop ((b'G' ∷ []) ∷ []) [] finished
      ≡ some (conn', ctl_mod 5 epoll_out ∷ []))
    × (conn'.req ≡ finished.req)
request_stays =
    read_loop-finish ((b'G' ∷ []) ∷ []) [] finished new_buffer-IsRoomy refl (omega arith, tt)

read_conn-fields_example :
    (conn : Connection) × (read_conn
        (request_bytes post slash http slash (host ∷ []) (field a_is_1 ++ fields []) ∷ [])
        false
        (connection 5)
      ≡ some (some (set_user_info_to_handle conn), ctl_mod 5 epoll_out ∷ []))
    × (conn.req ≡ record {
      rhs = read_http_finish;
      method = some post;
      proto = some http;
      url = b'/' ∷ replicate 63 0;
      content = insert_all ((10 ∷ b'a' ∷ [], b'1' ∷ []) ∷ []) [];
    })
    × (conn.fd ≡ 5)
read_conn-fields_example =
    read_conn-fields post slash http slash host [] a_is_1 [] 5 (λ e. omega (arith, e), tt)
      (omega arith) (λ e. omega (arith, e), tt) host-IsLine tt a-IsField tt a-NoZero (omega arith)
      (omega arith)

abbrev asked : Request
asked = record new_request { url = b'/' ∷ b'a' ∷ replicate 62 0 }

asked_name : file_name asked ≡ some (html_root ++ b'/' ∷ b'a' ∷ [])
unfolding file_name
asked_name = refl

deleted_while_waiting :
    (s : Polling) × Reach (accepted (connection 5)) s × (s.conn ≡ none) × (s.tasks ≡ reads ∷ [])
unfolding read_round
deleted_while_waiting = task_outlives (connection 5) _ (b'G' ∷ []) refl

-- GET /a with one line of head
abbrev asks_a : List ℕ
asks_a = request_bytes get (b'/' ∷ b'a' ∷ []) http slash (host ∷ []) []

asks_a_round :
    (conn' : Connection) × (read_round
        (filled asks_a (replicate buf_size 0))
        (length asks_a)
        (connection 5)
      ≡ some (conn', ctl_mod 5 epoll_out))
    × (file_name conn'.req ≡ some (html_root ++ b'/' ∷ b'a' ∷ []))
unfolding read_round file_name
asks_a_round = (_, refl, refl)

unopened-IsStuck_example :
    (s : Polling) × Reach (accepted (connection 5)) s × (s.conn ≡ some asks_a_round.0) × IsStuck s
unopened-IsStuck_example =
    unopened-IsStuck (connection 5) asks_a_round.0 asks_a (html_root ++ b'/' ∷ b'a' ∷ [])
      (λ name. none) asks_a_round.1 asks_a_round.2 refl

write_conn-read_conn_example :
    (conn : Connection) × (read_conn (asks_a ∷ []) false (connection 5)
      ≡ some (some conn, ctl_mod 5 epoll_out ∷ []))
    × (write_conn use_sendfile force_close (λ n. []) (λ name. some (7 ∷ 8 ∷ 9 ∷ [])) [] 2 conn
        ≡ some (some conn, ctl_mod 5 epoll_in ∷ [], (7 ∷ 8 ∷ []) ∷ []))
write_conn-read_conn_example =
    write_conn-read_conn get (b'/' ∷ b'a' ∷ []) http slash host [] 5 (7 ∷ 8 ∷ 9 ∷ []) (λ n. [])
      (λ name. some (7 ∷ 8 ∷ 9 ∷ [])) [] 2 (λ e. omega (arith, e), (λ e. omega (arith, e), tt))
      (λ e. omega (arith, e), tt) host-IsLine tt (omega arith) (omega arith) (omega arith) refl
