-- ===== src/Http.antt =====
-- The request parser: http_request.h and http_request.cpp, and the same machine over http_head_t in
-- http_server.cpp. A buffer is the list of its bytes, its length that of the array; `none` is an
-- access that C leaves undefined. What is printed is left out.
use seda_framework.Base.{
  ℕ, zero, suc, ◌+◌, ◌-◌, Bool, true, false, ◌&&◌, ◌||◌, Option, some, none, List, [], ◌∷◌, ◌++◌,
  length, take, drop, replicate, get_elem?, ltb, ◌==◌, if◌then◌else◌,
}
use seda_framework.Base.Memory.{◌>>=◌, memcpy, c_string}
use seda_framework.Base.Texts.{starts_with, split_once}
use seda_framework.Base.Dictionary.{Text, insert}
pub mod Cache
pub mod Params
pub mod Machine
pub mod Words
pub mod States
pub mod Heads
pub mod Requests
pub mod Server
mod Tests

-- enum read_http_status, enum http_method, enum http_proto (struct.h)
pub data Status : Type 0 where
  read_http_start methord url_state proto_state version request_head content_state : Status
  read_http_finish read_http_error : Status

pub data Method : Type 0 where
  get post : Method

pub data Proto : Type 0 where
  http https : Proto

-- class http_request, or struct http_head_t; `method` and `proto` are `none` until they are written.
pub record Request : Type 0 where
  pub rhs : Status
  pub method : Option Method
  pub proto : Option Proto
  pub url : List ℕ
  pub content : List (Text × Text)

-- http_request::http_request; readHttpRequestStatusMachine starts from the same fields, since
-- `new http_struct_t()` zeroes them and READ_HTTP_START is 0.
abbrev pub new_request : Request
new_request = record {
  rhs = read_http_start;
  method = none;
  proto = none;
  url = replicate 64 0;
  content = [];
}

-- The loop's variables with the request.
pub record Scan : Type 0 where
  pub i : ℕ
  pub begin : ℕ
  pub req : Request

-- `buf[i] == c`
abbrev pub is_at : ℕ → List ℕ → ℕ → Bool
is_at c buf i = elim (get_elem? buf i) [ none ↦ false | some b ↦ b == c ]

-- The parts of a text between the bytes `c`: what repeated `strsep` gives.
unfoldable pub split_on : ℕ → Text → Text × List Text
split_on c [] = ([], [])
split_on c (b ∷ bs) =
    let (part, parts) = split_on c bs in if b == c then ([], part ∷ parts) else (b ∷ part, parts)

-- One round of the loop of get_params. A part with no `=` is written to through a null pointer.
unfoldable pub get_param : Text → List (Text × Text) → Option (List (Text × Text))
unfolding split_once
get_param part params = split_once b'=' part >>= λ r. some (insert r.0 r.1 params)

unfoldable pub get_param_list : List Text → List (Text × Text) → Option (List (Text × Text))
unfolding get_param
get_param_list [] params = some params
get_param_list (part ∷ parts) params = get_param part params >>= get_param_list parts

-- http_request::get_params and get_params of http_server.cpp. The first `len` bytes are copied to
-- `char t_content[128]`, which is not used further.
unfoldable pub get_params : List ℕ → ℕ → List (Text × Text) → Option (List (Text × Text))
unfolding memcpy c_string split_on get_param_list
get_params block len params = do
  t_content ← memcpy (replicate 128 0) 0 (take len block)
  text ← c_string block
  let (part, parts) = split_on b'&' text
  get_param_list (part ∷ parts) params

-- case METHORD
unfoldable pub methord_round : List ℕ → ℕ → ℕ → Request → Option Scan
unfolding starts_with
methord_round buf i begin req =
    let block = drop begin buf in
    let named =
      if starts_with (b'G' ∷ b'E' ∷ b'T' ∷ []) block
      then record req { method = some get }
      else if starts_with (b'P' ∷ b'O' ∷ b'S' ∷ b'T' ∷ []) block
      then record req { method = some post }
      else record req { rhs = read_http_error } in
    some (
      if is_at b' ' buf i
      then record { i = i; begin = i + 1; req = record named { rhs = url_state } }
      else record { i = i; begin = begin; req = req })

-- case URL; get_params_from_url does nothing.
unfoldable pub url_round : List ℕ → ℕ → ℕ → Request → Option Scan
unfolding memcpy
url_round buf i begin req =
    if is_at b' ' buf i
    then (memcpy req.url 0 (take (i - begin) (drop begin buf)) >>= λ url.
        some (record { i = i; begin = i + 1; req = record req { url = url; rhs = proto_state } }))
    else some (record { i = i; begin = begin; req = req })

-- case PROTO
unfoldable pub proto_round : List ℕ → ℕ → ℕ → Request → Option Scan
unfolding starts_with
proto_round buf i begin req =
    let is_http = starts_with (b'H' ∷ b'T' ∷ b'T' ∷ b'P' ∷ []) (drop begin buf) in
    let named =
      if is_http && i - begin == 4
      then record req { proto = some http }
      else if is_http && i - begin == 5
      then record req { proto = some https }
      else req in
    some (
      if is_at b'/' buf i
      then record { i = i; begin = i + 1; req = record named { rhs = version } }
      else record { i = i; begin = begin; req = req })

-- case VERSION: `buf[++i]` moves on also where the byte is another.
unfoldable pub version_round : List ℕ → ℕ → ℕ → Request → Option Scan
version_round buf i begin req = some (
    if is_at 13 buf i
    then (if is_at 10 buf (i + 1)
        then record { i = i + 1; begin = i + 2; req = record req { rhs = request_head } }
        else record { i = i + 1; begin = begin; req = req })
    else record { i = i; begin = begin; req = req })

-- The test for the empty line, at `begin`, with what it does to `begin` and the state.
unfoldable pub head_end : List ℕ → ℕ → ℕ → ℕ → Request → Scan
head_end buf nread i begin req =
    if is_at 13 buf begin
    then (if is_at 10 buf (begin + 1)
        then record {
          i = i;
          begin = begin + 1;
          req = record req {
            rhs =
                if begin + 1 + 1 == nread || begin + 1 == nread
                then read_http_finish
                else content_state;
          };
        }
        else record { i = i; begin = begin + 1; req = req })
    else record { i = i; begin = begin; req = req }

-- case REQUEST_HEAD
unfoldable pub head_round : List ℕ → ℕ → ℕ → ℕ → Request → Option Scan
unfolding head_end
head_round buf nread i begin req = some (
    if is_at 13 buf i
    then (if is_at 10 buf (i + 1)
        then head_end buf nread (i + 1) (i + 2) req
        else record { i = i + 1; begin = begin; req = req })
    else record { i = i; begin = begin; req = req })

-- case CONTENT
unfoldable pub content_round : List ℕ → ℕ → ℕ → ℕ → Request → Option Scan
unfolding get_params
content_round buf nread i begin req =
    if is_at 10 buf i
    then some (record { i = i; begin = begin; req = record req { rhs = read_http_finish } })
    else (get_params (drop (i + 1) buf) (nread - i - 1) req.content >>= λ content. some (record {
      i = i;
      begin = begin;
      req = record req { content = content; rhs = read_http_finish };
    }))

-- The `switch`; READ_HTTP_START falls through to METHORD.
unfoldable pub round : Status → List ℕ → ℕ → ℕ → ℕ → Request → Option Scan
unfolding methord_round url_round proto_round version_round head_round content_round
round read_http_start buf nread i begin req =
    methord_round buf i begin (record req { rhs = methord })
round methord buf nread i begin req = methord_round buf i begin req
round url_state buf nread i begin req = url_round buf i begin req
round proto_state buf nread i begin req = proto_round buf i begin req
round version buf nread i begin req = version_round buf i begin req
round request_head buf nread i begin req = head_round buf nread i begin req
round content_state buf nread i begin req = content_round buf nread i begin req
round read_http_finish buf nread i begin req = some (record { i = i; begin = begin; req = req })
round read_http_error buf nread i begin req = some (record { i = i; begin = begin; req = req })

-- The `for`, with a bound on its rounds.
unfoldable pub scan_loop : ℕ → List ℕ → ℕ → ℕ → ℕ → Request → Option Request
unfolding round
scan_loop zero buf nread i begin req = some req
scan_loop (suc rounds) buf nread i begin req = elim (ltb i nread) [
  | true ↦ round req.rhs buf nread i begin req >>= λ s.
      scan_loop rounds buf nread (s.i + 1) s.begin s.req
  | false ↦ some req
]

-- http_request::read_http_status_machine, and readHttpRequestStatusMachine from `new_request`. `i`
-- grows in every round, so there are `nread` rounds at most.
unfoldable pub read_http_status_machine : List ℕ → ℕ → Request → Option Request
unfolding scan_loop
read_http_status_machine buf nread req = scan_loop nread buf nread 0 0 req
