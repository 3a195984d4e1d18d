-- ===== src/Http/Words.antt =====
-- http_request.cpp, read_http_status_machine: how the loop passes over a word, which ends at the byte
-- that its state waits for.
use seda_framework.Base.{
  ℕ, zero, suc, ◌+◌, ◌≤◌, ◌<◌, ◌≡◌, ◌≢◌, ap, ap₂, ◌∙◌, subst, true, false, some, List, [], ◌∷◌,
  ◌++◌, arith, drop, get_elem?, length, All,
}
use seda_framework.Http.{Request, is_at, round, scan_loop}
use seda_framework.Http.Machine.{scan_loop_next}

-- The bytes at `i`, split at the first.
drop_at :
    (buf : List ℕ) (i : ℕ) (x : ℕ) (xs : List ℕ)
    → drop i buf ≡ x ∷ xs
    → (get_elem? buf i ≡ some x) × (drop (suc i) buf ≡ xs)
drop_at [] zero x xs e = absurd (cc e)
drop_at (b ∷ buf) zero x xs e = (cc e, cc e)
drop_at [] (suc i) x xs e = absurd (cc e)
drop_at (b ∷ buf) (suc i) x xs e = drop_at buf i x xs e

pub is_at_yes :
    (c : ℕ) (buf : List ℕ) (i : ℕ) (xs : List ℕ) → drop i buf ≡ c ∷ xs → is_at c buf i ≡ true
is_at_yes c buf i xs e = rw (is_at, (drop_at buf i c xs e).0) (ground arith)

pub is_at_no :
    (c : ℕ) (buf : List ℕ) (i : ℕ) (x : ℕ) (xs : List ℕ)
    → drop i buf ≡ x ∷ xs
    → x ≢ c
    → is_at c buf i ≡ false
is_at_no c buf i x xs e h = rw (is_at, (drop_at buf i x xs e).0) (ground arith)

-- What stands behind a byte, and behind a word.
pub drop_next :
    (buf : List ℕ) (i : ℕ) (x : ℕ) (xs : List ℕ) → drop i buf ≡ x ∷ xs → drop (i + 1) buf ≡ xs
drop_next buf i x xs e =
    subst (λ n. drop n buf ≡ xs) {x = suc i} (omega arith) (drop_at buf i x xs e).1

pub drop_word :
    (word : List ℕ) (buf : List ℕ) (i : ℕ) (xs : List ℕ)
    → drop i buf ≡ word ++ xs
    → drop (i + length word) buf ≡ xs
drop_word [] buf i xs e = subst (λ n. drop n buf ≡ xs) {x = i} (omega arith) e
drop_word (w ∷ word) buf i xs e =
    subst (λ n. drop n buf ≡ xs) {x = i + 1 + length word} (omega arith)
      (drop_word word buf (i + 1) xs (drop_next buf i w (word ++ xs) e))

-- The bytes of a word are all other than `c`.
abbrev pub Without : ℕ → List ℕ → Type 0
Without c = All (λ b. b ≢ c)

-- In a state that waits for `c`, the loop passes over a word without it.
pub skip :
    (c : ℕ) (word : List ℕ) (rounds : ℕ) (buf : List ℕ) (nread i begin : ℕ) (req : Request)
    (xs : List ℕ)
    → ((j : ℕ)
        → is_at c buf j ≡ false
        → round req.rhs buf nread j begin req ≡ some (record { i = j; begin = begin; req = req }))
    → drop i buf ≡ word ++ xs
    → Without c word
    → i + length word ≤ nread
    → (scan_loop (length word + rounds) buf nread i begin req
        ≡ scan_loop rounds buf nread (i + length word) begin req)
skip c [] rounds buf nread i begin req xs quiet e w h =
    ap₂ (λ m n. scan_loop m buf nread n begin req) (omega arith) (omega arith)
skip c (x ∷ word) rounds buf nread i begin req xs quiet e w h =
    let stays = quiet i (is_at_no c buf i x (word ++ xs) e w.0) in
    ap (λ m. scan_loop m buf nread i begin req) (omega arith)
    ∙ scan_loop_next (length word + rounds) buf nread i begin req _ (omega (arith, h)) stays
    ∙ skip c word rounds buf nread (i + 1) begin req xs quiet (drop_next buf i x (word ++ xs) e) w.1
        (omega (arith, h))
    ∙ ap (λ n. scan_loop rounds buf nread n begin req) (omega arith)

-- From `i` with `begin` there, `k` rounds lead to `i'` with `begin` there.
abbrev pub Leads : List ℕ → ℕ → ℕ → ℕ → Request → ℕ → Request → Type 0
Leads buf nread k i req i' req' =
    (rounds : ℕ) → scan_loop (k + rounds) buf nread i i req ≡ scan_loop rounds buf nread i' i' req'

pub Leads-trans :
    (buf : List ℕ) (nread k l i i' i'' : ℕ) (req req' req'' : Request)
    → Leads buf nread k i req i' req'
    → Leads buf nread l i' req' i'' req''
    → Leads buf nread (k + l) i req i'' req''
Leads-trans buf nread k l i i' i'' req req' req'' a b rounds =
    let shape : k + l + rounds ≡ k + (l + rounds) = omega arith in
    ap (λ m. scan_loop m buf nread i i req) shape ∙ a (l + rounds) ∙ b rounds

pub word_Leads :
    (c : ℕ) (word : List ℕ) (buf : List ℕ) (nread i : ℕ) (req : Request) (xs : List ℕ) (last : ℕ)
    (req' : Request)
    → ((j : ℕ)
        → is_at c buf j ≡ false
        → round req.rhs buf nread j i req ≡ some (record { i = j; begin = i; req = req }))
    → drop i buf ≡ word ++ c ∷ xs
    → Without c word
    → i + length word < nread
    → round req.rhs buf nread (i + length word) i req
      ≡ some (record { i = last; begin = last + 1; req = req' })
    → Leads buf nread (suc (length word)) i req (last + 1) req'
word_Leads c word buf nread i req xs last req' quiet e w h r rounds =
    let shape : suc (length word) + rounds ≡ length word + suc rounds = omega arith in
    ap (λ m. scan_loop m buf nread i i req) shape
    ∙ skip c word (suc rounds) buf nread i i req (c ∷ xs) quiet e w (omega arith)
    ∙ scan_loop_next rounds buf nread (i + length word) i req _ h r
