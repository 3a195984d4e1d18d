-- ===== src/Http/Machine.antt =====
-- http_request.cpp, read_http_status_machine: a round never goes back, so the loop ends.
use seda_framework.Base.{
  ℕ, zero, suc, ◌+◌, ◌-◌, ◌≤◌, ◌<◌, ◌≡◌, refl, ap, ◌∙◌, subst, inl, inr, Bool, true, false, Option,
  some, none, List, ltb, ltb→lt, if◌then◌else◌, Bool-cases, Option-cases, arith, take, drop,
}
use seda_framework.Base.Memory.{memcpy}
use seda_framework.Http.{
  Status, read_http_start, methord, url_state, proto_state, version, request_head, content_state,
  read_http_finish, read_http_error, Request, Scan, is_at, get_params, methord_round, url_round,
  proto_round, version_round, head_end, head_round, content_round, round, scan_loop,
}

-- A property of what a round returns, where it returns.
abbrev pub Returns {ℓ} : (Scan → Type ℓ) → Option Scan → Type ℓ
Returns P none = Unit
Returns P (some s) = P s

if_Returns {ℓ} :
    (P : Scan → Type ℓ) (c : Bool) (s t : Scan) → P s → P t → Returns P (some (if c then s else t))
if_Returns P true s t h k = h
if_Returns P false s t h k = k

-- A round never goes back.
pub round_grows :
    (st : Status) (buf : List ℕ) (nread i begin : ℕ) (req : Request)
    → Returns (λ s. i ≤ s.i) (round st buf nread i begin req)
unfolding round methord_round url_round proto_round version_round head_round head_end content_round
round_grows read_http_start buf nread i begin req = ground arith
round_grows methord buf nread i begin req = ground arith
round_grows url_state buf nread i begin req = elim (Bool-cases (is_at b' ' buf i)) [
  | inl h ↦ elim (Option-cases (memcpy req.url 0 (take (i - begin) (drop begin buf)))) [
    | inl bad ↦ rw (h, bad) tt
    | inr (url, good) ↦ rw (h, good) (omega arith)
  ]
  | inr h ↦ rw h (omega arith)
]
round_grows proto_state buf nread i begin req = ground arith
round_grows version buf nread i begin req = ground arith
round_grows request_head buf nread i begin req = ground arith
round_grows content_state buf nread i begin req = elim (Bool-cases (is_at 10 buf i)) [
  | inl h ↦ rw h (omega arith)
  | inr h ↦ elim (Option-cases (get_params (drop (i + 1) buf) (nread - i - 1) req.content)) [
    | inl bad ↦ rw (h, bad) tt
    | inr (content, good) ↦ rw (h, good) (omega arith)
  ]
]
round_grows read_http_finish buf nread i begin req = omega arith
round_grows read_http_error buf nread i begin req = omega arith

-- A round within the buffer, and the end of it.
pub scan_loop_next :
    (rounds : ℕ) (buf : List ℕ) (nread i begin : ℕ) (req : Request) (s : Scan)
    → i < nread
    → round req.rhs buf nread i begin req ≡ some s
    → scan_loop (suc rounds) buf nread i begin req
      ≡ scan_loop rounds buf nread (s.i + 1) s.begin s.req
unfolding scan_loop
scan_loop_next rounds buf nread i begin req s h e =
    let goes : ltb i nread ≡ true = ground arith in rw (scan_loop, goes, e) refl

scan_loop_ended :
    (rounds : ℕ) (buf : List ℕ) (nread i begin : ℕ) (req : Request)
    → nread ≤ i
    → scan_loop rounds buf nread i begin req ≡ some req
unfolding scan_loop
scan_loop_ended zero buf nread i begin req h = refl
scan_loop_ended (suc rounds) buf nread i begin req h =
    let ended : ltb i nread ≡ false = ground arith in rw (scan_loop, ended) refl

-- Once the bound on the rounds of the request parser reaches `nread`, more rounds change nothing: it
-- never cuts the loop short.
pub scan_loop_enough :
    (rounds more : ℕ) (buf : List ℕ) (nread i begin : ℕ) (req : Request)
    → nread ≤ i + rounds
    → scan_loop (rounds + more) buf nread i begin req ≡ scan_loop rounds buf nread i begin req
unfolding scan_loop
scan_loop_enough zero more buf nread i begin req h =
    scan_loop_ended (0 + more) buf nread i begin req (omega (arith, h))
scan_loop_enough (suc rounds) more buf nread i begin req h =
    let shape : suc rounds + more ≡ suc (rounds + more) = omega arith in
    ap (λ m. scan_loop m buf nread i begin req) shape ∙ (elim (Bool-cases (ltb i nread)) [
      | inr ended ↦ rw (scan_loop, ended) refl
      | inl goes ↦ elim (Option-cases (round req.rhs buf nread i begin req)) [
        | inl bad ↦ rw (scan_loop, goes, bad) refl
        | inr (s, good) ↦
            let grows : i ≤ s.i =
              subst (Returns (λ s. i ≤ s.i)) good (round_grows req.rhs buf nread i begin req) in
            rw (scan_loop, goes, good)
              (scan_loop_enough rounds more buf nread (s.i + 1) s.begin s.req
                (omega (arith, h, grows)))
      ]
    ])

-- From READ_HTTP_FINISH the request parser changes nothing, whatever is in the buffer.
pub scan_loop-finish :
    (rounds : ℕ) (buf : List ℕ) (nread i begin : ℕ) (req : Request)
    → req.rhs ≡ read_http_finish
    → scan_loop rounds buf nread i begin req ≡ some req
unfolding scan_loop round
scan_loop-finish zero buf nread i begin req h = refl
scan_loop-finish (suc rounds) buf nread i begin req h = elim (Bool-cases (ltb i nread)) [
  | inr ended ↦ rw (scan_loop, ended) refl
  | inl goes ↦
      scan_loop_next rounds buf nread i begin req (record { i = i; begin = begin; req = req })
        (ltb→lt i nread goes) (rw h refl)
      ∙ scan_loop-finish rounds buf nread (i + 1) begin req h
]
