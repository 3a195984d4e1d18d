-- ===== src/Http/Server.antt =====
-- http_server.cpp, readHttpRequestStatusMachine: the machine of http_request.cpp over http_struct_t, on
-- a buffer that is a C string.
use seda_framework.Base.{
  ℕ, ◌<◌, ◌≡◌, refl, sym, ap, ◌∙◌, Option, some, List, [], ◌∷◌, ◌++◌, length, replicate, drop, All,
  none, ◌-◌, arith,
}
use seda_framework.Base.Memory.{◌>>=◌, c_string, c_string-append, NoZero, c_string-replicate}
use seda_framework.Base.Segments.{drop-replicate}
use seda_framework.Base.Dictionary.{Text}
use seda_framework.Http.{
  read_http_start, Method, Proto, Request, new_request, read_http_status_machine, read_http_finish,
  get, post,
}
use seda_framework.Http.Words.{Without}
use seda_framework.Http.Heads.{IsLine}
use seda_framework.Http.Params.{field, fields, IsField, insert_all}
use seda_framework.Http.Requests.{
  request_bytes, request_bytes-append, read_http_status_machine-fields,
}

-- `_head` with the `rhs` that it was made with.
abbrev at_start : Request → Request
at_start req = record req { rhs = read_http_start }

-- The URL of a GET is logged as a C string once it is copied. Nothing ends it in `url[64]` where it has
-- 64 bytes: `none` is that read out of bounds.
unfoldable pub logged_url : Request → Option Text
unfolding c_string
logged_url req = elim req.method [
  | none ↦ some []
  | some m ↦ elim m [ get ↦ c_string req.url | post ↦ some [] ]
]

-- What is put into the `_head` of a new http_struct_t. The machine's state is the local variable `rhs`:
-- `_head.rhs` stays what it was.
unfoldable pub read_http_request_status_machine : List ℕ → Option Request
read_http_request_status_machine buf = do
  text ← c_string buf
  req ← read_http_status_machine buf (length text) new_request
  url ← logged_url req
  some (at_start req)

logged_by :
    (o : Option Method) (m : Method) (block url : Text)
    → o ≡ some m
    → c_string block ≡ some url
    → (u : Text) × (elim o [
      | none ↦ some []
      | some m ↦ elim m [ get ↦ c_string block | post ↦ some [] ]
    ]
        ≡ some u)
logged_by none m block url e shown = absurd cc
logged_by (some get) m block url e shown = (url, shown)
logged_by (some post) m block url e shown = ([], refl)

logged :
    (req : Request) (m : Method) (url : Text)
    → req.method ≡ some m
    → c_string req.url ≡ some url
    → (logged_url req >>= λ u. some (at_start req)) ≡ some (at_start req)
unfolding logged_url
logged req m url e shown =
    let (u, at_u) = logged_by req.method m req.url url e shown in rw at_u refl

-- A well-formed request with at least one line of head, a URL of fewer than 64 bytes, none of them a
-- space, and for its body a form shorter than 128 bytes, in a buffer where a zero byte ends it and none
-- stands before: the method, the protocol, the URL and the parameters are in the struct, with a line
-- feed in front of the first key, but the state that is handed on is READ_HTTP_START, as before
-- anything was read.
pub read_http_request_status_machine-fields :
    (m : Method) (url : Text) (p : Proto) (v line : Text) (lines : List Text) (kv : Text × Text)
    (kvs : List (Text × Text)) (rest : List ℕ)
    → Without b' ' url
    → length url < 64
    → NoZero url
    → Without 13 v
    → IsLine line
    → All IsLine lines
    → IsField kv
    → All IsField kvs
    → NoZero (field kv ++ fields kvs)
    → length (field kv ++ fields kvs) < 128
    → NoZero (request_bytes m url p v (line ∷ lines) (field kv ++ fields kvs))
    → (read_http_request_status_machine
          (request_bytes m url p v (line ∷ lines) (field kv ++ fields kvs) ++ 0 ∷ rest)
        ≡ some (record {
          rhs = read_http_start;
          method = some m;
          proto = some p;
          url = url ++ drop (length url) (replicate 64 0);
          content = insert_all ((10 ∷ kv.0, kv.1) ∷ kvs) [];
        }))
unfolding read_http_request_status_machine
read_http_request_status_machine-fields m url p v line lines kv kvs rest w fits nz_url wv wl wls h
      hs nz short zero_free =
    let bytes = request_bytes m url p v (line ∷ lines) (field kv ++ fields kvs) in
    let same = request_bytes-append m url p v (line ∷ lines) (field kv ++ fields kvs) (0 ∷ rest) in
    rw (c_string-append bytes rest zero_free) (
      ap (λ r. r >>= λ req. logged_url req >>= λ u. some (at_start req))
        (ap (λ buf. read_http_status_machine buf (length bytes) new_request) (sym same)
          ∙ read_http_status_machine-fields m url p v line lines kv kvs rest new_request refl w
              (omega (arith, fits)) wv wl wls h hs nz short)
      ∙ logged filled m url refl (
          ap (λ zs. c_string (url ++ zs)) (drop-replicate (length url) 64 0)
          ∙ c_string-replicate url (64 - length url) nz_url (omega (arith, fits))))
  where
    filled : Request
    filled = record {
      rhs = read_http_finish;
      method = some m;
      proto = some p;
      url = url ++ drop (length url) (replicate 64 0);
      content = insert_all ((10 ∷ kv.0, kv.1) ∷ kvs) [];
    }
