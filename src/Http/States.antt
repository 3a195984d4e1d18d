-- ===== src/Http/States.antt =====
-- http_request.cpp, read_http_status_machine: what each state makes of its word.
use seda_framework.Base.{
  ℕ, suc, ◌+◌, ◌-◌, ◌≤◌, ◌<◌, ◌≡◌, ◌≢◌, refl, some, List, [], ◌∷◌, ◌++◌, arith, take-append, drop,
  length,
}
use seda_framework.Base.Memory.{memcpy_start}
use seda_framework.Base.Dictionary.{Text}
use seda_framework.Base.Texts.{starts_with}
use seda_framework.Http.{
  methord, url_state, proto_state, version, request_head, Method, get, post, Proto, http, https,
  Request, methord_round, url_round, proto_round, version_round, head_end, head_round, round,
}
use seda_framework.Http.Words.{
  is_at_yes, is_at_no, drop_next, drop_word, Without, Leads, word_Leads,
}

-- How a method is written.
abbrev pub method_word : Method → Text
method_word get = b'G' ∷ b'E' ∷ b'T' ∷ []
method_word post = b'P' ∷ b'O' ∷ b'S' ∷ b'T' ∷ []

method_word-Without : (m : Method) → Without b' ' (method_word m)
method_word-Without get =
    (λ e. omega (arith, e), (λ e. omega (arith, e), (λ e. omega (arith, e), tt)))
method_word-Without post = (
  λ e. omega (arith, e),
  (λ e. omega (arith, e), (λ e. omega (arith, e), (λ e. omega (arith, e), tt))),
)

pub methord_Leads :
    (m : Method) (buf : List ℕ) (nread i : ℕ) (req : Request) (xs : List ℕ)
    → req.rhs ≡ methord
    → drop i buf ≡ method_word m ++ b' ' ∷ xs
    → i + length (method_word m) < nread
    → Leads buf nread
        (suc (length (method_word m)))
        i
        req
        (i + length (method_word m) + 1)
        (record req { method = some m; rhs = url_state })
unfolding round methord_round starts_with
methord_Leads get buf nread i req xs st e h =
    word_Leads b' ' (method_word get) buf nread i req xs _ _ (λ j n. rw (st, n) refl) e
      (method_word-Without get) h
      (rw (st, is_at_yes b' ' buf _ xs (drop_word (method_word get) buf i (b' ' ∷ xs) e), e) refl)
methord_Leads post buf nread i req xs st e h =
    word_Leads b' ' (method_word post) buf nread i req xs _ _ (λ j n. rw (st, n) refl) e
      (method_word-Without post) h
      (rw (st, is_at_yes b' ' buf _ xs (drop_word (method_word post) buf i (b' ' ∷ xs) e), e) refl)

-- The URL is copied over the start of `url`, without a zero behind it.
pub url_Leads :
    (url : List ℕ) (buf : List ℕ) (nread i : ℕ) (req : Request) (xs : List ℕ)
    → req.rhs ≡ url_state
    → Without b' ' url
    → length url ≤ length req.url
    → drop i buf ≡ url ++ b' ' ∷ xs
    → i + length url < nread
    → Leads buf nread
        (suc (length url))
        i
        req
        (i + length url + 1)
        (record req { url = url ++ drop (length url) req.url; rhs = proto_state })
unfolding round url_round
url_Leads url buf nread i req xs st w fits e h =
    let len : i + length url - i ≡ length url = omega arith in
    word_Leads b' ' url buf nread i req xs _ _ (λ j n. rw (st, n) refl) e w h
      (rw
        (
          st,
          is_at_yes b' ' buf _ xs (drop_word url buf i (b' ' ∷ xs) e),
          e,
          len,
          take-append url (b' ' ∷ xs),
          memcpy_start req.url url fits,
        )
        refl)

-- How a protocol is written.
abbrev pub proto_word : Proto → Text
proto_word http = b'H' ∷ b'T' ∷ b'T' ∷ b'P' ∷ []
proto_word https = b'H' ∷ b'T' ∷ b'T' ∷ b'P' ∷ b'S' ∷ []

proto_word-Without : (p : Proto) → Without b'/' (proto_word p)
proto_word-Without http = (
  λ e. omega (arith, e),
  (λ e. omega (arith, e), (λ e. omega (arith, e), (λ e. omega (arith, e), tt))),
)
proto_word-Without https = (
  λ e. omega (arith, e),
  (
    λ e. omega (arith, e),
    (λ e. omega (arith, e), (λ e. omega (arith, e), (λ e. omega (arith, e), tt))),
  ),
)

pub proto_Leads :
    (p : Proto) (buf : List ℕ) (nread i : ℕ) (req : Request) (xs : List ℕ)
    → req.rhs ≡ proto_state
    → drop i buf ≡ proto_word p ++ b'/' ∷ xs
    → i + length (proto_word p) < nread
    → Leads buf nread
        (suc (length (proto_word p)))
        i
        req
        (i + length (proto_word p) + 1)
        (record req { proto = some p; rhs = version })
unfolding round proto_round starts_with
proto_Leads http buf nread i req xs st e h =
    let len : i + 4 - i ≡ 4 = omega arith in
    word_Leads b'/' (proto_word http) buf nread i req xs _ _ (λ j n. rw (st, n) refl) e
      (proto_word-Without http) h
      (rw (st, is_at_yes b'/' buf _ xs (drop_word (proto_word http) buf i (b'/' ∷ xs) e), e, len)
        refl)
proto_Leads https buf nread i req xs st e h =
    let len : i + 5 - i ≡ 5 = omega arith in
    word_Leads b'/' (proto_word https) buf nread i req xs _ _ (λ j n. rw (st, n) refl) e
      (proto_word-Without https) h
      (rw (st, is_at_yes b'/' buf _ xs (drop_word (proto_word https) buf i (b'/' ∷ xs) e), e, len)
        refl)

-- The version is passed over, to the start of the line behind it.
pub version_Leads :
    (v : List ℕ) (buf : List ℕ) (nread i : ℕ) (req : Request) (xs : List ℕ)
    → req.rhs ≡ version
    → Without 13 v
    → drop i buf ≡ v ++ 13 ∷ 10 ∷ xs
    → i + length v < nread
    → Leads buf nread
        (suc (length v))
        i
        req
        (i + length v + 1 + 1)
        (record req { rhs = request_head })
unfolding round version_round
version_Leads v buf nread i req xs st w e h =
    let at_cr = drop_word v buf i (13 ∷ 10 ∷ xs) e in
    let next : i + length v + 2 ≡ i + length v + 1 + 1 = omega arith in
    word_Leads 13 v buf nread i req (10 ∷ xs) _ _ (λ j n. rw (st, n) refl) e w h
      (rw
        (
          st,
          is_at_yes 13 buf _ (10 ∷ xs) at_cr,
          is_at_yes 10 buf _ xs (drop_next buf _ 13 (10 ∷ xs) at_cr),
          next,
        )
        refl)

-- A line of the head is passed over, if the next line begins with another byte than a carriage return.
pub head_line_Leads :
    (line : List ℕ) (buf : List ℕ) (nread i : ℕ) (req : Request) (x : ℕ) (xs : List ℕ)
    → req.rhs ≡ request_head
    → Without 13 line
    → x ≢ 13
    → drop i buf ≡ line ++ 13 ∷ 10 ∷ x ∷ xs
    → i + length line < nread
    → Leads buf nread (suc (length line)) i req (i + length line + 1 + 1) req
unfolding round head_round head_end
head_line_Leads line buf nread i req x xs st w other e h =
    let at_cr = drop_word line buf i (13 ∷ 10 ∷ x ∷ xs) e in
    let at_lf = drop_next buf _ 13 (10 ∷ x ∷ xs) at_cr in
    let at_x = drop_next buf _ 10 (x ∷ xs) at_lf in
    let next : i + length line + 2 ≡ i + length line + 1 + 1 = omega arith in
    word_Leads 13 line buf nread i req (10 ∷ x ∷ xs) _ _ (λ j n. rw (st, n) refl) e w h
      (rw
        (
          st,
          is_at_yes 13 buf _ (10 ∷ x ∷ xs) at_cr,
          is_at_yes 10 buf _ (x ∷ xs) at_lf,
          next,
          is_at_no 13 buf _ x xs at_x other,
        )
        refl)
