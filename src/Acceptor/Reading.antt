-- ===== src/Acceptor/Reading.antt =====
-- acceptor.cpp, read_conn: what the loop does whatever is read.
use seda_framework.Base.{
  ℕ, ◌≤◌, ◌<◌, ◌≡◌, refl, ap, ◌∙◌, some, List, [], ◌∷◌, ◌++◌, length, take-append, drop, arith, All,
  map,
}
use seda_framework.Buffer.{Buffer, buf_size, new_buffer, push_back}
use seda_framework.Buffer.Growth.{IsBuffer, new_buffer-IsBuffer, push_back-fits}
use seda_framework.Http.{read_http_finish, Request, read_http_status_machine}
use seda_framework.Http.Machine.{scan_loop-finish}
use seda_framework.Acceptor.{
  Connection, ctl_mod, epoll_out, read_round, read_loop, set_user_info_to_handle,
}

-- The buffer of a connection takes whatever one `read` gives.
pub record IsRoomy (b : Buffer) : Type 0 where
  pub valid : IsBuffer b
  pub unused : b.len ≡ 0
  pub roomy : buf_size ≤ b.size
  pub bounded : b.size < 4096

pub new_buffer-IsRoomy : IsRoomy new_buffer
new_buffer-IsRoomy = record {
  valid = new_buffer-IsBuffer;
  unused = refl;
  roomy = omega arith;
  bounded = omega arith;
}

pub push_back-IsRoomy :
    (bytes : List ℕ) (b : Buffer)
    → IsRoomy b
    → length bytes < buf_size
    → (b' : Buffer) × (push_back bytes b ≡ some b') × IsRoomy b'
push_back-IsRoomy bytes b r h =
    let (b', e, v, len', grown, _, _) =
      push_back-fits bytes b r.valid (omega (arith, r.bounded))
        (omega (arith, r.unused, r.roomy)) in
    (
      b',
      e,
      record {
        valid = v;
        unused = len' ∙ r.unused;
        roomy = ground (arith, grown, r.roomy);
        bounded = ground (arith, grown, r.bounded, r.unused, h);
      },
    )

read_round-finish :
    (bytes rest : List ℕ) (conn : Connection)
    → IsRoomy conn.buf
    → conn.req.rhs ≡ read_http_finish
    → length bytes < buf_size
    → (conn' : Connection) × (read_round (bytes ++ rest) (length bytes) conn
        ≡ some (conn', ctl_mod conn.fd epoll_out))
      × (conn'.req ≡ conn.req)
      × (conn'.fd ≡ conn.fd)
      × IsRoomy conn'.buf
unfolding read_round read_http_status_machine set_user_info_to_handle
read_round-finish bytes rest conn r st h =
    let (buf, pushed, r') = push_back-IsRoomy bytes conn.buf r h in
    let same = scan_loop-finish (length bytes) (bytes ++ rest) (length bytes) 0 0 conn.req st in
    (
      set_user_info_to_handle (record conn { buf = buf }),
      rw (take-append bytes rest, pushed, same, st) refl,
      refl,
      refl,
      r',
    )

-- Once a connection has read a whole request, `read_conn` keeps that request, whatever else comes in
-- and in however many pieces: it succeeds, and arms the connection for output at each piece.
pub read_loop-finish :
    (reads : List (List ℕ)) (_buf : List ℕ) (conn : Connection)
    → IsRoomy conn.buf
    → conn.req.rhs ≡ read_http_finish
    → All (λ (bytes : List ℕ). length bytes < buf_size) reads
    → (conn' : Connection) × (read_loop reads _buf conn
        ≡ some (conn', map (λ bytes. ctl_mod conn.fd epoll_out) reads))
      × (conn'.req ≡ conn.req)
unfolding read_loop
read_loop-finish [] _buf conn r st hs = (conn, refl, refl)
read_loop-finish (bytes ∷ more) _buf conn r st hs =
    let (conn', e, req', fd', r') =
      read_round-finish bytes (drop (length bytes) _buf) conn r st hs.0 in
    let (conn'', e', req'') =
      read_loop-finish more (bytes ++ drop (length bytes) _buf) conn' r'
        (ap (λ (q : Request). q.rhs) req' ∙ st) hs.1 in
    (conn'', rw (e, e', fd') refl, req'' ∙ req')
