-- ===== src/Http/Requests.antt =====
-- http_request.cpp, read_http_status_machine on a whole request that is well formed.
use seda_framework.Base.{
  sym, append_assoc, ℕ, suc, ◌+◌, ◌-◌, ◌≤◌, ◌<◌, ◌≡◌, refl, ap, ◌∙◌, true, some, List, [], ◌∷◌,
  ◌++◌, ltb, arith, drop, length, length-append, All,
}
use seda_framework.Base.Dictionary.{Text}
use seda_framework.Http.{
  read_http_start, methord, url_state, proto_state, version, request_head, read_http_finish, Method,
  Proto, Request, round, scan_loop, read_http_status_machine,
}
use seda_framework.Http.Words.{drop_next, drop_word, Without, Leads-trans}
use seda_framework.Http.States.{
  method_word, methord_Leads, url_Leads, proto_word, proto_Leads, version_Leads,
}
use seda_framework.Http.Heads.{
  head_bytes, head_length, length-head_bytes, IsLine, body_result, Ends, Leads-Ends, heads_Ends,
}
use seda_framework.Http.Params.{field, fields, IsField, insert_all, get_params-fields}
use seda_framework.Base.Memory.{NoZero}

-- A request as it is sent.
abbrev pub request_bytes : Method → Text → Proto → Text → List Text → List ℕ → List ℕ
request_bytes m url p v lines body =
    method_word m
    ++ b' '
      ∷ (url ++ b' ' ∷ (proto_word p ++ b'/' ∷ (v ++ 13 ∷ 10 ∷ head_bytes lines (13 ∷ 10 ∷ body))))

head_bytes-append :
    (lines : List Text) (xs rest : List ℕ)
    → head_bytes lines (xs ++ rest) ≡ head_bytes lines xs ++ rest
head_bytes-append [] xs rest = refl
head_bytes-append (line ∷ lines) xs rest =
    ap (λ ys. line ++ 13 ∷ 10 ∷ ys) (head_bytes-append lines xs rest)
    ∙ sym (append_assoc line (13 ∷ 10 ∷ head_bytes lines xs) rest)

pub request_bytes-append :
    (m : Method) (url : Text) (p : Proto) (v : Text) (lines : List Text) (body rest : List ℕ)
    → request_bytes m url p v lines (body ++ rest) ≡ request_bytes m url p v lines body ++ rest
request_bytes-append m url p v lines body rest =
    rw (head_bytes-append lines (13 ∷ 10 ∷ body) rest) (simp (append_assoc))

start_lem :
    (rounds : ℕ) (buf : List ℕ) (nread i begin : ℕ) (req : Request)
    → req.rhs ≡ read_http_start
    → i < nread
    → scan_loop (suc rounds) buf nread i begin req
      ≡ scan_loop (suc rounds) buf nread i begin (record req { rhs = methord })
unfolding scan_loop round
start_lem rounds buf nread i begin req st h =
    let goes : ltb i nread ≡ true = ground arith in rw (scan_loop, goes, st) refl

length-request_bytes :
    (m : Method) (url : Text) (p : Proto) (v : Text) (lines : List Text) (body : List ℕ)
    → (length (request_bytes m url p v lines body)
        ≡ length (method_word m)
          + 1
          + length url
          + 1
          + length (proto_word p)
          + 1
          + length v
          + 2
          + head_length lines
          + 2
          + length body)
length-request_bytes m url p v lines body =
    let heads = head_bytes lines (13 ∷ 10 ∷ body) in
    let behind_proto = v ++ 13 ∷ 10 ∷ heads in
    let behind_url = proto_word p ++ b'/' ∷ behind_proto in
    let behind_method = url ++ b' ' ∷ behind_url in
    omega (
      arith,
      length-append (method_word m) (b' ' ∷ behind_method),
      length-append url (b' ' ∷ behind_url),
      length-append (proto_word p) (b'/' ∷ behind_proto),
      length-append v (13 ∷ 10 ∷ heads),
      length-head_bytes lines (13 ∷ 10 ∷ body),
    )

-- The rounds on the first line and the head.
request_Ends :
    (m : Method) (url : Text) (p : Proto) (v line : Text) (lines : List Text) (body rest : List ℕ)
    (nread : ℕ) (req : Request)
    → req.rhs ≡ methord
    → Without b' ' url
    → length url ≤ length req.url
    → Without 13 v
    → IsLine line
    → All IsLine lines
    → length (request_bytes m url p v (line ∷ lines) body) ≡ nread
    → (k : ℕ) × (k ≤ nread)
      × Ends (request_bytes m url p v (line ∷ lines) (body ++ rest)) nread k 0 req (
          body_result body rest (record req {
            method = some m;
            url = url ++ drop (length url) req.url;
            proto = some p;
            rhs = request_head;
          }))
request_Ends m url p v line lines body rest nread req st w fits wv wl wls h =
    let buf = request_bytes m url p v (line ∷ lines) (body ++ rest) in
    let total = length-request_bytes m url p v (line ∷ lines) body in
    let heads = head_bytes (line ∷ lines) (13 ∷ 10 ∷ (body ++ rest)) in
    let at_v = v ++ 13 ∷ 10 ∷ heads in
    let at_proto = proto_word p ++ b'/' ∷ at_v in
    let at_url = url ++ b' ' ∷ at_proto in
    let i1 = 0 + length (method_word m) + 1 in
    let i2 = i1 + length url + 1 in
    let i3 = i2 + length (proto_word p) + 1 in
    let i4 = i3 + length v + 1 + 1 in
    let req1 = record req { method = some m; rhs = url_state } in
    let req2 = record req1 { url = url ++ drop (length url) req.url; rhs = proto_state } in
    let req3 = record req2 { proto = some p; rhs = version } in
    let req4 = record req3 { rhs = request_head } in
    let e1 : drop i1 buf ≡ at_url =
      drop_next buf _ b' ' at_url (drop_word (method_word m) buf 0 (b' ' ∷ at_url) refl) in
    let e2 : drop i2 buf ≡ at_proto =
      drop_next buf _ b' ' at_proto (drop_word url buf i1 (b' ' ∷ at_proto) e1) in
    let e3 : drop i3 buf ≡ at_v =
      drop_next buf _ b'/' at_v (drop_word (proto_word p) buf i2 (b'/' ∷ at_v) e2) in
    let e4 : drop i4 buf ≡ heads =
      drop_next buf _ 10 heads
        (drop_next buf _ 13 (10 ∷ heads) (drop_word v buf i3 (13 ∷ 10 ∷ heads) e3)) in
    let k1 = suc (length (method_word m)) in
    let k2 = suc (length url) in
    let k3 = suc (length (proto_word p)) in
    let k4 = suc (length v) in
    let l1 = methord_Leads m buf nread 0 req at_url st refl (omega (arith, h, total)) in
    let l2 = url_Leads url buf nread i1 req1 at_proto refl w fits e1 (omega (arith, h, total)) in
    let l3 = proto_Leads p buf nread i2 req2 at_v refl e2 (omega (arith, h, total)) in
    let l4 = version_Leads v buf nread i3 req3 heads refl wv e3 (omega (arith, h, total)) in
    let (k, within, ends) =
      heads_Ends line lines body rest buf nread i4 req4 refl wl wls e4 (omega (arith, h, total)) in
    let to_head = Leads-trans buf nread k1 (k2 + (k3 + k4)) 0 i1 i4 req req1 req4 l1 (
      Leads-trans buf nread k2 (k3 + k4) i1 i2 i4 req1 req2 req4 l2
        (Leads-trans buf nread k3 k4 i2 i3 i4 req2 req3 req4 l3 l4)) in
    (
      k1 + (k2 + (k3 + k4)) + k,
      omega (arith, within),
      Leads-Ends buf nread (k1 + (k2 + (k3 + k4))) k 0 i4 req req4 (body_result body rest req4)
          to_head ends,
    )

-- A well-formed request with a line of head, read whole from READ_HTTP_START: the method, the URL over
-- the start of `url`, which is no shorter, the protocol, and then what is made of the body; where
-- that succeeds, the state is READ_HTTP_FINISH.
pub read_http_status_machine-request_bytes :
    (m : Method) (url : Text) (p : Proto) (v line : Text) (lines : List Text) (body rest : List ℕ)
    (req : Request)
    → req.rhs ≡ read_http_start
    → Without b' ' url
    → length url ≤ length req.url
    → Without 13 v
    → IsLine line
    → All IsLine lines
    → (read_http_status_machine
          (request_bytes m url p v (line ∷ lines) (body ++ rest))
          (length (request_bytes m url p v (line ∷ lines) body))
          req
        ≡ body_result body rest (record req {
          method = some m;
          url = url ++ drop (length url) req.url;
          proto = some p;
          rhs = request_head;
        }))
unfolding read_http_status_machine
read_http_status_machine-request_bytes m url p v line lines body rest req st w fits wv wl wls =
    let buf = request_bytes m url p v (line ∷ lines) (body ++ rest) in
    let nread = length (request_bytes m url p v (line ∷ lines) body) in
    let (k, within, ends) =
      request_Ends m url p v line lines body rest nread (record req { rhs = methord }) refl w fits
        wv wl wls refl in
    let total = length-request_bytes m url p v (line ∷ lines) body in
    let first : nread ≡ suc (nread - 1) = omega (arith, total) in
    let enough : suc (nread - 1) ≡ k + (nread - k) = omega (arith, total, within) in
    ap (λ r. scan_loop r buf nread 0 0 req) first
    ∙ start_lem (nread - 1) buf nread 0 0 req st (omega (arith, total))
    ∙ ap (λ r. scan_loop r buf nread 0 0 (record req { rhs = methord })) enough
    ∙ ends (nread - k)

body_result-fields :
    (kv : Text × Text) (kvs : List (Text × Text)) (rest : List ℕ) (req : Request)
    → IsField kv
    → All IsField kvs
    → NoZero (field kv ++ fields kvs)
    → length (field kv ++ fields kvs) < 128
    → (body_result (field kv ++ fields kvs) (0 ∷ rest) req
        ≡ some (record req {
          content = insert_all ((10 ∷ kv.0, kv.1) ∷ kvs) req.content;
          rhs = read_http_finish;
        }))
body_result-fields ([], v) kvs rest req h hs nz fits =
    rw
      (get_params-fields (10 ∷ [], v) kvs rest (length (v ++ fields kvs) + 2) req.content
        ((λ e. omega (arith, e), tt), (λ e. omega (arith, e), h.1)) hs (λ e. omega (arith, e), nz)
        (omega (arith, fits)))
      refl
body_result-fields (b ∷ k, v) kvs rest req h hs nz fits =
    rw
      (get_params-fields (10 ∷ b ∷ k, v) kvs rest (length (k ++ b'=' ∷ v ++ fields kvs) + 2)
        req.content ((λ e. omega (arith, e), h.0), (λ e. omega (arith, e), h.1)) hs
        (λ e. omega (arith, e), nz) (omega (arith, fits)))
      refl

-- A well-formed request with a line of head, whose body is a form shorter than 128 bytes, with a zero byte behind it: its
-- parameters are read back, but the first key has the line feed of the empty line in front of it.
pub read_http_status_machine-fields :
    (m : Method) (url : Text) (p : Proto) (v line : Text) (lines : List Text) (kv : Text × Text)
    (kvs : List (Text × Text)) (rest : List ℕ) (req : Request)
    → req.rhs ≡ read_http_start
    → Without b' ' url
    → length url ≤ length req.url
    → Without 13 v
    → IsLine line
    → All IsLine lines
    → IsField kv
    → All IsField kvs
    → NoZero (field kv ++ fields kvs)
    → length (field kv ++ fields kvs) < 128
    → (read_http_status_machine
          (request_bytes m url p v (line ∷ lines) (field kv ++ fields kvs ++ 0 ∷ rest))
          (length (request_bytes m url p v (line ∷ lines) (field kv ++ fields kvs)))
          req
        ≡ some (record {
          rhs = read_http_finish;
          method = some m;
          proto = some p;
          url = url ++ drop (length url) req.url;
          content = insert_all ((10 ∷ kv.0, kv.1) ∷ kvs) req.content;
        }))
read_http_status_machine-fields m url p v line lines kv kvs rest req st w fits wv wl wls h hs nz
      short =
    read_http_status_machine-request_bytes m url p v line lines (field kv ++ fields kvs) (0 ∷ rest)
      req st w fits wv wl wls
    ∙ body_result-fields kv kvs rest
        (record req {
          method = some m;
          url = url ++ drop (length url) req.url;
          proto = some p;
          rhs = request_head;
        })
        h hs nz short
