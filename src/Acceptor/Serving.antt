-- ===== src/Acceptor/Serving.antt =====
-- acceptor.cpp, read_conn and write_conn in a row: a request for a file and its answer.
use seda_framework.Base.{
  ℕ, ◌-◌, ◌≤◌, ◌<◌, ◌≡◌, ◌≢◌, refl, ap, ◌∙◌, inl, inr, false, Bool-cases, Option, some, List, [],
  ◌∷◌, ◌++◌, append_assoc, length, length-append, take, drop, replicate, ◌==◌, if◌then◌else◌, arith,
  All, All-append,
}
use seda_framework.Base.Memory.{memcpy_start, c_string, c_string-append, c_string-replicate, NoZero}
use seda_framework.Base.Segments.{drop-replicate}
use seda_framework.Base.Dictionary.{Text}
use seda_framework.Buffer.{buf_size}
use seda_framework.Http.{Method, Proto, Request}
use seda_framework.Http.Words.{Without}
use seda_framework.Http.Heads.{IsLine}
use seda_framework.Http.Requests.{request_bytes}
use seda_framework.Acceptor.{
  Connection, ctl_mod, epoll_in, epoll_out, connection, read_conn, set_user_info_to_handle,
  html_root, index_page, file_name, finish_write, write_conn, use_sendfile, force_close,
}
use seda_framework.Acceptor.Requests.{read_conn-request_bytes}

-- The file that stands for a URL.
abbrev pub asked_path : Text → Text
asked_path url = html_root ++ (if length url == 1 then index_page else url)

length-asked_path : (url : Text) → length url ≤ 50 → length (asked_path url) ≤ 63
length-asked_path url h = elim (Bool-cases (length url == 1)) [
  | inl root ↦ rw root (omega arith)
  | inr other ↦ rw other (omega (arith, h, length-append html_root url))
]

asked_path-NoZero : (url : Text) → NoZero url → NoZero (asked_path url)
asked_path-NoZero url nz = elim (Bool-cases (length url == 1)) [
  | inl root ↦ rw root (omega arith)
  | inr other ↦ rw other (All-append (λ c. c ≢ 0) html_root url (omega arith) nz)
]

file_name_lem :
    (req : Request) (url : Text)
    → req.url ≡ url ++ drop (length url) (replicate 64 0)
    → NoZero url
    → length url ≤ 50
    → file_name req ≡ some (asked_path url)
unfolding file_name
file_name_lem req url e nz short =
    let path = asked_path url in
    let block : List ℕ = replicate 64 0 in
    let left : List ℕ = drop (length (path ++ 0 ∷ [])) block in
    let at_url : c_string req.url ≡ some url =
      ap c_string (e ∙ ap (◌++◌ url) (drop-replicate (length url) 64 0))
      ∙ c_string-replicate url (64 - length url) nz (omega (arith, short)) in
    let copied =
      memcpy_start block (path ++ 0 ∷ [])
        (omega (arith, length-append path (0 ∷ []), length-asked_path url short)) in
    rw (at_url, copied)
      (ap c_string (append_assoc path (0 ∷ []) left)
        ∙ c_string-append path left (asked_path-NoZero url nz))

-- With the flags of marcos.h, a file that can be opened.
write_conn_opened :
    (conn : Connection) (path file : List ℕ) (to_string : ℕ → Text) (fopen : Text → Option (List ℕ))
    (nwrites : List (Option ℕ)) (sent : ℕ)
    → file_name conn.req ≡ some path
    → fopen path ≡ some file
    → write_conn use_sendfile force_close to_string fopen nwrites sent conn
      ≡ some (some conn, ctl_mod conn.fd epoll_in ∷ [], take sent file ∷ [])
unfolding write_conn finish_write
write_conn_opened conn path file to_string fopen nwrites sent named found = rw (named, found) refl

-- A connection just accepted that reads a well-formed request with at least one line of head and
-- without a body, in one piece of fewer than 1024 bytes, for a URL of at most 50 bytes, none of them
-- zero and none a space, whose file can be opened: it is armed for output, and write_conn then sends what `sendfile` takes of that file, with no head in
-- front, and arms the connection for input again. The file for a URL of one byte is index.html.
pub write_conn-read_conn :
    (m : Method) (url : Text) (p : Proto) (v line : Text) (lines : List Text) (fd : ℕ)
    (file : List ℕ) (to_string : ℕ → Text) (fopen : Text → Option (List ℕ))
    (nwrites : List (Option ℕ)) (sent : ℕ)
    → Without b' ' url
    → Without 13 v
    → IsLine line
    → All IsLine lines
    → length (request_bytes m url p v (line ∷ lines) []) < buf_size
    → NoZero url
    → length url ≤ 50
    → fopen (asked_path url) ≡ some file
    → (conn : Connection) × (read_conn
          (request_bytes m url p v (line ∷ lines) [] ∷ [])
          false
          (connection fd)
        ≡ some (some conn, ctl_mod fd epoll_out ∷ []))
      × (write_conn use_sendfile force_close to_string fopen nwrites sent conn
          ≡ some (some conn, ctl_mod fd epoll_in ∷ [], take sent file ∷ []))
unfolding set_user_info_to_handle
write_conn-read_conn m url p v line lines fd file to_string fopen nwrites sent w wv wl wls small nz
      short found =
    let (conn, read, req_is, fd_is) =
      read_conn-request_bytes m url p v line lines fd w (omega (arith, short)) wv wl wls small in
    let named = file_name_lem conn.req url (ap (λ (q : Request). q.url) req_is) nz short in
    (
      set_user_info_to_handle conn,
      read,
      write_conn_opened (set_user_info_to_handle conn) (asked_path url) file to_string fopen nwrites
            sent named found
          ∙ ap
              (λ n.
                some (
                  some (set_user_info_to_handle conn),
                  ctl_mod n epoll_in ∷ [],
                  take sent file ∷ [],
                ))
              fd_is,
    )
