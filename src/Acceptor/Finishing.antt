-- ===== src/Acceptor/Finishing.antt =====
-- acceptor.cpp: what a round of read_conn and a call of write_conn leave of the state of the request.
use seda_framework.Base.{
  ℕ, ◌≡◌, refl, sym, ap, ◌∙◌, inl, inr, true, Bool-cases, Option, some, some-injective,
  Option-cases, List, take, if◌then◌else◌,
}
use seda_framework.Base.Results.{Gives, Gives-bind, Gives-any, Gives-each}
use seda_framework.Base.Dictionary.{Text}
use seda_framework.Buffer.{push_back}
use seda_framework.Http.{
  Status, read_http_start, methord, url_state, proto_state, version, request_head, content_state,
  read_http_finish, read_http_error, Request, read_http_status_machine,
}
use seda_framework.Http.Machine.{scan_loop-finish}
use seda_framework.Acceptor.{
  Connection, epoll_in, epoll_out, Action, ctl_mod, is_finish, set_user_info_to_handle, read_round,
  file_name, finish_write, write_conn, use_sendfile, force_close,
}

is_finish_lem : (st : Status) → is_finish st ≡ true → st ≡ read_http_finish
is_finish_lem read_http_start e = cc
is_finish_lem methord e = cc
is_finish_lem url_state e = cc
is_finish_lem proto_state e = cc
is_finish_lem version e = cc
is_finish_lem request_head e = cc
is_finish_lem content_state e = cc
is_finish_lem read_http_finish e = refl
is_finish_lem read_http_error e = cc

-- A round that arms the connection for output has read a whole request, and so has every later one.
unfoldable pub Finishes : Connection → Connection × Action → Type 0
Finishes conn (conn', action) =
    (action ≡ ctl_mod conn.fd epoll_out → conn'.req.rhs ≡ read_http_finish)
    × (conn.req.rhs ≡ read_http_finish → conn'.req.rhs ≡ read_http_finish)

arming-Finishes :
    (conn read : Connection)
    → (conn.req.rhs ≡ read_http_finish → read.req.rhs ≡ read_http_finish)
    → Finishes conn (
        if is_finish read.req.rhs
        then (set_user_info_to_handle read, ctl_mod conn.fd epoll_out)
        else (read, ctl_mod conn.fd epoll_in))
unfolding set_user_info_to_handle Finishes
arming-Finishes conn read stays = elim (Bool-cases (is_finish read.req.rhs)) [
  | inl whole ↦
      rw whole ((λ e. is_finish_lem read.req.rhs whole), (λ e. is_finish_lem read.req.rhs whole))
  | inr part ↦ rw part ((λ e. cc), stays)
]

machine_stays :
    (buf : List ℕ) (nread : ℕ) (req : Request)
    → Gives
        (λ req'. req.rhs ≡ read_http_finish → req'.rhs ≡ read_http_finish)
        (read_http_status_machine buf nread req)
unfolding read_http_status_machine
machine_stays buf nread req =
    Gives-each (λ req'. req.rhs ≡ read_http_finish → req'.rhs ≡ read_http_finish)
      (read_http_status_machine buf nread req)
      (λ req' e st.
        ap (λ (q : Request). q.rhs)
          (some-injective _ _ (sym e ∙ scan_loop-finish nread buf nread 0 0 req st))
        ∙ st)

pub read_round-Finishes :
    (_buf : List ℕ) (nread : ℕ) (conn : Connection)
    → Gives (Finishes conn) (read_round _buf nread conn)
unfolding read_round
read_round-Finishes _buf nread conn =
    Gives-bind (λ _. Unit {0}) (Finishes conn) (push_back (take nread _buf) conn.buf) _
      (Gives-any _)
      (λ buf _.
        Gives-bind (λ req. conn.req.rhs ≡ read_http_finish → req.rhs ≡ read_http_finish)
          (Finishes conn) (read_http_status_machine _buf nread conn.req) _
          (machine_stays _buf nread conn.req)
          (λ req stays. arming-Finishes conn (record conn { buf = buf; req = req }) stays))

-- With the flags of marcos.h write_conn leaves the connection as it is.
pub write_conn-same :
    (to_string : ℕ → Text) (fopen : Text → Option (List ℕ)) (nwrites : List (Option ℕ)) (sent : ℕ)
    (conn : Connection)
    → Gives
        (λ r. r.0 ≡ some conn)
        (write_conn use_sendfile force_close to_string fopen nwrites sent conn)
unfolding write_conn finish_write
write_conn-same to_string fopen nwrites sent conn =
    Gives-bind (λ _. Unit {0}) (λ r. r.0 ≡ some conn) (file_name conn.req) _ (Gives-any _)
      (λ name _. elim (Option-cases (fopen name)) [
        | inl missing ↦ rw missing refl
        | inr (file, found) ↦ rw found refl
      ])
