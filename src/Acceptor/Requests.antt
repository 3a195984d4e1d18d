-- ===== src/Acceptor/Requests.antt =====
-- acceptor.cpp, read_conn on a request that one `read` returns whole.
use seda_framework.Base.{
  sym, ℕ, zero, suc, ◌≤◌, ◌<◌, ◌≡◌, refl, ap, ◌∙◌, false, some, List, [], ◌∷◌, ◌++◌, length,
  take-append, drop, replicate, arith, All,
}
use seda_framework.Base.Memory.{NoZero}
use seda_framework.Base.Dictionary.{Text}
use seda_framework.Buffer.{buf_size, new_buffer}
use seda_framework.Http.{
  Method, Proto, read_http_finish, Request, new_request, read_http_status_machine,
}
use seda_framework.Http.Words.{Without}
use seda_framework.Http.Heads.{IsLine}
use seda_framework.Http.Params.{field, fields, IsField, insert_all}
use seda_framework.Http.Requests.{
  request_bytes, request_bytes-append, read_http_status_machine-request_bytes,
  read_http_status_machine-fields,
}
use seda_framework.Acceptor.{
  Connection, ctl_mod, epoll_out, connection, read_round, read_loop, read_conn,
  set_user_info_to_handle,
}
use seda_framework.Acceptor.Reading.{new_buffer-IsRoomy, push_back-IsRoomy}

-- `read_conn` of a connection just accepted, on one piece that the parser finishes with `req`.
read_conn_once :
    (bytes : List ℕ) (fd : ℕ) (req : Request)
    → length bytes < buf_size
    → read_http_status_machine
        (bytes ++ drop (length bytes) (replicate buf_size 0))
        (length bytes)
        new_request
      ≡ some req
    → req.rhs ≡ read_http_finish
    → (conn : Connection) × (read_conn (bytes ∷ []) false (connection fd)
        ≡ some (some (set_user_info_to_handle conn), ctl_mod fd epoll_out ∷ []))
      × (conn.req ≡ req)
      × (conn.fd ≡ fd)
unfolding read_conn read_loop read_round
read_conn_once bytes fd req h e st =
    let (buf, pushed, _) = push_back-IsRoomy bytes new_buffer new_buffer-IsRoomy h in
    let conn = record (connection fd) { buf = buf; req = req } in
    (
      conn,
      rw (take-append bytes (drop (length bytes) (replicate buf_size 0)), pushed, e, st) refl,
      refl,
      refl,
    )

pub drop-zeros :
    (k n : ℕ) → n < k → drop {A = ℕ} n (replicate k 0) ≡ 0 ∷ drop (suc n) (replicate k 0)
drop-zeros zero n h = absurd (omega arith)
drop-zeros (suc k) zero h = refl
drop-zeros (suc k) (suc n) h = drop-zeros k n (omega arith)

-- A connection just accepted that reads a well-formed request with at least one line of head, a URL of
-- at most 64 bytes, none of them a space, and a form of fewer than 128 bytes, none of them zero, in one
-- piece of fewer than 1024 bytes: the request is finished with the form's parameters, the first of them behind a line
-- feed, the user's name and password are looked up among them, and it is armed for output.
pub read_conn-fields :
    (m : Method) (url : Text) (p : Proto) (v line : Text) (lines : List Text) (kv : Text × Text)
    (kvs : List (Text × Text)) (fd : ℕ)
    → Without b' ' url
    → length url ≤ 64
    → Without 13 v
    → IsLine line
    → All IsLine lines
    → IsField kv
    → All IsField kvs
    → NoZero (field kv ++ fields kvs)
    → length (field kv ++ fields kvs) < 128
    → length (request_bytes m url p v (line ∷ lines) (field kv ++ fields kvs)) < buf_size
    → (conn : Connection) × (read_conn
          (request_bytes m url p v (line ∷ lines) (field kv ++ fields kvs) ∷ [])
          false
          (connection fd)
        ≡ some (some (set_user_info_to_handle conn), ctl_mod fd epoll_out ∷ []))
      × (conn.req ≡ record {
        rhs = read_http_finish;
        method = some m;
        proto = some p;
        url = url ++ drop (length url) (replicate 64 0);
        content = insert_all ((10 ∷ kv.0, kv.1) ∷ kvs) [];
      })
      × (conn.fd ≡ fd)
read_conn-fields m url p v line lines kv kvs fd w fits wv wl wls h hs nz short small =
    let body = field kv ++ fields kvs in
    let bytes = request_bytes m url p v (line ∷ lines) body in
    let n = length bytes in
    let rest : List ℕ = drop (suc n) (replicate buf_size 0) in
    let whole =
      ap (◌++◌ bytes) (drop-zeros buf_size n small)
      ∙ sym (request_bytes-append m url p v (line ∷ lines) body (0 ∷ rest)) in
    read_conn_once bytes fd _ small
      (ap (λ buf. read_http_status_machine buf n new_request) whole
        ∙ read_http_status_machine-fields m url p v line lines kv kvs rest new_request refl w fits
            wv wl wls h hs nz short)
      refl

-- A connection just accepted that reads a well-formed request without a body in one piece of fewer
-- than 1024 bytes: the request is finished, and it is armed for output.
pub read_conn-request_bytes :
    (m : Method) (url : Text) (p : Proto) (v line : Text) (lines : List Text) (fd : ℕ)
    → Without b' ' url
    → length url ≤ 64
    → Without 13 v
    → IsLine line
    → All IsLine lines
    → length (request_bytes m url p v (line ∷ lines) []) < buf_size
    → (conn : Connection) × (read_conn
          (request_bytes m url p v (line ∷ lines) [] ∷ [])
          false
          (connection fd)
        ≡ some (some (set_user_info_to_handle conn), ctl_mod fd epoll_out ∷ []))
      × (conn.req ≡ record {
        rhs = read_http_finish;
        method = some m;
        proto = some p;
        url = url ++ drop (length url) (replicate 64 0);
        content = [];
      })
      × (conn.fd ≡ fd)
read_conn-request_bytes m url p v line lines fd w fits wv wl wls small =
    let bytes = request_bytes m url p v (line ∷ lines) [] in
    let rest : List ℕ = drop (length bytes) (replicate buf_size 0) in
    read_conn_once bytes fd _ small
      (ap (λ buf. read_http_status_machine buf (length bytes) new_request)
          (sym (request_bytes-append m url p v (line ∷ lines) [] rest))
        ∙ read_http_status_machine-request_bytes m url p v line lines [] rest new_request refl w
            fits wv wl wls)
      refl
