-- ===== src/Http/Tests.antt =====
-- Runs of the request parser, and the theorems on them.
use seda_framework.Base.{
  ◌≡◌, refl, some, none, [], ◌∷◌, ◌++◌, replicate, arith, List, ℕ, if◌then◌else◌, ◌==◌,
}
use seda_framework.Base.Memory.{◌>>=◌, memcpy, c_string, NoZero}
use seda_framework.Base.Dictionary.{Text}
use seda_framework.SplayTree.{SplayTree, null, node}
use seda_framework.SplayTree.Content.{entries}
use seda_framework.SplayTree.Spec.{lookup}
use seda_framework.Http.{
  read_http_start, read_http_finish, get, post, http, new_request, read_http_status_machine,
  request_head,
}
use seda_framework.Http.Cache.{check_cache, check_cache_lem}
use seda_framework.Http.Heads.{IsLine}
use seda_framework.Http.Params.{field, fields, IsField, insert_all}
use seda_framework.Http.Server.{
  read_http_request_status_machine, read_http_request_status_machine-fields,
}
use seda_framework.Http.Requests.{request_bytes}

abbrev slash : Text
slash = b'/' ∷ []

abbrev one_one : Text
one_one = b'1' ∷ b'.' ∷ b'1' ∷ []

-- a=1 and b=2
abbrev a_is_1 : Text × Text
a_is_1 = (b'a' ∷ [], b'1' ∷ [])

abbrev b_is_2 : Text × Text
b_is_2 = (b'b' ∷ [], b'2' ∷ [])

abbrev host : Text
host = b'H' ∷ b':' ∷ []

host-IsLine : IsLine host
host-IsLine = ((λ e. omega (arith, e), (λ e. omega (arith, e), tt)), omega arith)

a-IsField : IsField a_is_1
a-IsField = (
  (λ e. omega (arith, e), tt),
  (λ e. omega (arith, e), (λ e. omega (arith, e), (λ e. omega (arith, e), tt))),
)

b-IsField : IsField b_is_2
b-IsField = (
  (λ e. omega (arith, e), tt),
  (λ e. omega (arith, e), (λ e. omega (arith, e), (λ e. omega (arith, e), tt))),
)

form-NoZero : NoZero (field a_is_1 ++ fields (b_is_2 ∷ []))
form-NoZero = (
  λ e. omega (arith, e),
  (
    λ e. omega (arith, e),
    (
      λ e. omega (arith, e),
      (
        λ e. omega (arith, e),
        (λ e. omega (arith, e), (λ e. omega (arith, e), (λ e. omega (arith, e), tt))),
      ),
    ),
  ),
)

-- A method that is neither GET nor POST goes through: READ_HTTP_ERROR is overwritten at once.
put_is_finished :
    (read_http_status_machine
        (b'P' ∷ b'U' ∷ b'T' ∷ b' ' ∷ b'/' ∷ b' ' ∷ b'H' ∷ b'T' ∷ b'T' ∷ b'P' ∷ b'/' ∷ b'1' ∷ 13 ∷ 10
          ∷ b'H' ∷ 13 ∷ 10 ∷ 13 ∷ 10 ∷ [])
        19
        new_request
      ≡ some (record {
        rhs = read_http_finish;
        method = none;
        proto = some http;
        url = b'/' ∷ replicate 63 0;
        content = [];
      }))
unfolding read_http_status_machine
put_is_finished = refl

-- A request without a line of head is not seen to end.
headless_goes_on :
    (read_http_status_machine
        (b'G' ∷ b'E' ∷ b'T' ∷ b' ' ∷ b'/' ∷ b' ' ∷ b'H' ∷ b'T' ∷ b'T' ∷ b'P' ∷ b'/' ∷ b'1' ∷ 13 ∷ 10
          ∷ 13 ∷ 10 ∷ [])
        16
        new_request
      ≡ some (record {
        rhs = request_head;
        method = some get;
        proto = some http;
        url = b'/' ∷ replicate 63 0;
        content = [];
      }))
unfolding read_http_status_machine
headless_goes_on = refl

-- A cache with one page, for another URL than the one that is asked for.
abbrev other_page : List ℕ
other_page = 104 ∷ 105 ∷ 0 ∷ []

abbrev one_page : SplayTree (List ℕ)
one_page = node null 5 1 other_page null

check_cache_lem_example :
    (k : ℕ) × (page : List ℕ) × (before after : List (ℕ × List ℕ)) × (entries one_page
      ≡ before ++ (k, page) ∷ after)
    × (check_cache one_page (47 ∷ []) (replicate 1024 0)
        ≡ (c_string page >>= λ text. memcpy (replicate 1024 0) 0 text))
    × (lookup 0 (entries one_page) ≡ (if k == 0 then some page else none))
check_cache_lem_example =
    check_cache_lem one_page (47 ∷ []) (replicate 1024 0) (omega arith, tt) (tt, tt) (λ e. cc e)

read_http_request_status_machine-fields_example :
    read_http_request_status_machine (
      request_bytes post slash http one_one (host ∷ []) (field a_is_1 ++ fields (b_is_2 ∷ []))
      ++ 0 ∷ 9 ∷ [])
    ≡ some (record {
      rhs = read_http_start;
      method = some post;
      proto = some http;
      url = b'/' ∷ replicate 63 0;
      content = insert_all ((10 ∷ b'a' ∷ [], b'1' ∷ []) ∷ b_is_2 ∷ []) [];
    })
read_http_request_status_machine-fields_example =
    read_http_request_status_machine-fields post slash http one_one host [] a_is_1 (b_is_2 ∷ [])
      (9 ∷ []) (λ e. omega (arith, e), tt) (omega arith) (λ e. omega (arith, e), tt)
      (λ e. omega (arith, e), (λ e. omega (arith, e), (λ e. omega (arith, e), tt))) host-IsLine tt
      a-IsField (b-IsField, tt) form-NoZero (omega arith) (omega arith)
