-- ===== src/Http/Heads.antt =====
-- http_request.cpp, read_http_status_machine: how the loop takes the head of a request and what is
-- behind it.
use seda_framework.Base.{
  ℕ, suc, ◌+◌, ◌-◌, ◌≤◌, ◌<◌, ◌≡◌, refl, ap, ◌∙◌, inl, inr, true, ◌||◌, Option, some, List, [], ◌∷◌,
  ◌++◌, ltb, ◌==◌, if◌then◌else◌, Option-cases, arith, drop, length, length-append, All,
}
use seda_framework.Base.Memory.{◌>>=◌}
use seda_framework.Base.Dictionary.{Text}
use seda_framework.Http.{
  Status, request_head, content_state, read_http_finish, Request, get_params, head_end, head_round,
  content_round, round, scan_loop,
}
use seda_framework.Http.Machine.{scan_loop_next, scan_loop-finish}
use seda_framework.Http.Words.{is_at_yes, is_at_no, drop_next, drop_word, Without, skip, Leads}
use seda_framework.Http.States.{head_line_Leads}

-- The lines of a head, each with its line end, and what stands behind them.
abbrev pub head_bytes : List Text → List ℕ → List ℕ
head_bytes [] xs = xs
head_bytes (line ∷ lines) xs = line ++ 13 ∷ 10 ∷ head_bytes lines xs

abbrev pub head_length : List Text → ℕ
head_length [] = 0
head_length (line ∷ lines) = length line + 2 + head_length lines

pub length-head_bytes :
    (lines : List Text) (xs : List ℕ) → length (head_bytes lines xs) ≡ head_length lines + length xs
length-head_bytes [] xs = omega arith
length-head_bytes (line ∷ lines) xs =
    omega (arith, length-append line (13 ∷ 10 ∷ head_bytes lines xs), length-head_bytes lines xs)

-- A line that is not empty and holds no carriage return.
abbrev pub IsLine : Text → Type 0
IsLine line = Without 13 line × (0 < length line)

-- What the machine makes of the bytes behind the head, `body` of them within `nread`: it skips an
-- empty body, and reads the parameters of another one from the line feed in front of it.
abbrev pub body_result : List ℕ → List ℕ → Request → Option Request
body_result [] rest req = some (record req { rhs = read_http_finish })
body_result (b ∷ body) rest req =
    get_params (10 ∷ b ∷ body ++ rest) (length body + 2) req.content >>= λ content.
    some (record req { content = content; rhs = read_http_finish })

-- From `i` with `begin` there, `k` rounds or more give `result`.
abbrev pub Ends : List ℕ → ℕ → ℕ → ℕ → Request → Option Request → Type 0
Ends buf nread k i req result = (rounds : ℕ) → scan_loop (k + rounds) buf nread i i req ≡ result

pub Leads-Ends :
    (buf : List ℕ) (nread k l i i' : ℕ) (req req' : Request) (result : Option Request)
    → Leads buf nread k i req i' req'
    → Ends buf nread l i' req' result
    → Ends buf nread (k + l) i req result
Leads-Ends buf nread k l i i' req req' result a b rounds =
    let shape : k + l + rounds ≡ k + (l + rounds) = omega arith in
    ap (λ m. scan_loop m buf nread i i req) shape ∙ a (l + rounds) ∙ b rounds

-- The state after the empty line.
behind : List ℕ → Status
behind [] = read_http_finish
behind (b ∷ body) = content_state

behind_lem :
    (body : List ℕ) (nread at : ℕ)
    → at + 2 + length body ≡ nread
    → (if at + 1 + 1 == nread || at + 1 == nread then read_http_finish else content_state)
      ≡ behind body
unfolding behind
behind_lem [] nread at h = ground (arith, h)
behind_lem (b ∷ body) nread at h = ground (arith, h)

-- The rounds behind the empty line, which start at its carriage return.
body_lem :
    (body rest : List ℕ) (rounds : ℕ) (buf : List ℕ) (nread at begin : ℕ) (req : Request)
    → drop at buf ≡ 13 ∷ 10 ∷ body ++ rest
    → at + 2 + length body ≡ nread
    → scan_loop (suc rounds) buf nread at begin (record req { rhs = behind body })
      ≡ body_result body rest req
unfolding behind scan_loop round content_round
body_lem [] rest rounds buf nread at begin req e h =
    scan_loop-finish (suc rounds) buf nread at begin (record req { rhs = read_http_finish }) refl
body_lem (b ∷ body) rest rounds buf nread at begin req e h =
    let goes : ltb at nread ≡ true = ground (arith, h) in
    let not_lf = is_at_no 10 buf at 13 (10 ∷ b ∷ body ++ rest) e (λ e. omega (arith, e)) in
    let behind_cr = drop_next buf at 13 (10 ∷ b ∷ body ++ rest) e in
    let len : nread - at - 1 ≡ length body + 2 = omega (arith, h) in
    elim (Option-cases (get_params (10 ∷ b ∷ body ++ rest) (length body + 2) req.content)) [
      | inl bad ↦ rw (scan_loop, goes, not_lf, behind_cr, len, bad) refl
      | inr (content, good) ↦ rw good (
          scan_loop_next rounds buf nread at begin (record req { rhs = content_state }) _
            (omega (arith, h)) (rw (not_lf, behind_cr, len, good) refl)
          ∙ scan_loop-finish rounds buf nread (at + 1) begin
              (record req { content = content; rhs = read_http_finish }) refl)
    ]

-- The last line of the head, and what is behind it.
last_Ends :
    (line body rest : List ℕ) (buf : List ℕ) (nread i : ℕ) (req : Request)
    → req.rhs ≡ request_head
    → Without 13 line
    → drop i buf ≡ line ++ 13 ∷ 10 ∷ 13 ∷ 10 ∷ (body ++ rest)
    → i + length line + 4 + length body ≡ nread
    → Ends buf nread (length line + 2) i req (body_result body rest req)
unfolding round head_round head_end
last_Ends line body rest buf nread i req st w e h rounds =
    let tail : List ℕ = 13 ∷ 10 ∷ body ++ rest in
    let at_cr = drop_word line buf i (13 ∷ 10 ∷ tail) e in
    let at_lf = drop_next buf _ 13 (10 ∷ tail) at_cr in
    let at_tail = drop_next buf _ 10 tail at_lf in
    let at_end = drop_next buf _ 13 (10 ∷ body ++ rest) at_tail in
    let next : i + length line + 2 ≡ i + length line + 1 + 1 = omega arith in
    let shape : length line + 2 + rounds ≡ length line + suc (suc rounds) = omega arith in
    ap (λ m. scan_loop m buf nread i i req) shape
    ∙ skip 13 line (suc (suc rounds)) buf nread i i req (13 ∷ 10 ∷ tail) (λ j n. rw (st, n) refl) e
        w (omega (arith, h))
    ∙ scan_loop_next (suc rounds) buf nread (i + length line) i req
        (record {
          i = i + length line + 1;
          begin = i + length line + 1 + 1 + 1;
          req = record req { rhs = behind body };
        })
        (omega (arith, h))
        (rw
          (
            st,
            is_at_yes 13 buf _ (10 ∷ tail) at_cr,
            is_at_yes 10 buf _ tail at_lf,
            next,
            is_at_yes 13 buf _ (10 ∷ body ++ rest) at_tail,
            is_at_yes 10 buf _ (body ++ rest) at_end,
            behind_lem body nread (i + length line + 1 + 1) (omega (arith, h)),
          )
          refl)
    ∙ body_lem body rest rounds buf nread (i + length line + 1 + 1) (i + length line + 1 + 1 + 1)
        req at_tail (omega (arith, h))

pub heads_Ends :
    (line : Text) (lines : List Text) (body rest : List ℕ) (buf : List ℕ) (nread i : ℕ)
    (req : Request)
    → req.rhs ≡ request_head
    → IsLine line
    → All IsLine lines
    → drop i buf ≡ head_bytes (line ∷ lines) (13 ∷ 10 ∷ (body ++ rest))
    → i + head_length (line ∷ lines) + 2 + length body ≡ nread
    → (k : ℕ) × (i + k ≤ nread) × Ends buf nread k i req (body_result body rest req)
heads_Ends line [] body rest buf nread i req st w ws e h = (
  length line + 2,
  omega (arith, h),
  last_Ends line body rest buf nread i req st w.0 e (omega (arith, h)),
)
heads_Ends line ([] ∷ lines) body rest buf nread i req st w ws e h = absurd (omega (arith, ws.0.1))
heads_Ends line ((x ∷ next) ∷ lines) body rest buf nread i req st w ws e h =
    let tail = 13 ∷ 10 ∷ (body ++ rest) in
    let more = head_bytes ((x ∷ next) ∷ lines) tail in
    let behind_line =
      drop_next buf _ 10 more
        (drop_next buf _ 13 (10 ∷ more) (drop_word line buf i (13 ∷ 10 ∷ more) e)) in
    let passed =
      head_line_Leads line buf nread i req x (next ++ 13 ∷ 10 ∷ head_bytes lines tail) st w.0
        (ws.0.0).0 e (omega (arith, h)) in
    let (k, within, ends) =
      heads_Ends (x ∷ next) lines body rest buf nread (i + length line + 1 + 1) req st ws.0 ws.1
        behind_line (omega (arith, h)) in
    (
      suc (length line) + k,
      omega (arith, within),
      Leads-Ends buf nread (suc (length line)) k i (i + length line + 1 + 1) req req
          (body_result body rest req) passed ends,
    )
