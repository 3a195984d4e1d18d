-- ===== src/Logger/Lines.antt =====
-- log.cpp, write_log and log_from_queue: the lines and what comes into the file.
use seda_framework.Base.{
  ℕ, zero, suc, ◌-◌, ◌≤◌, ◌≡◌, refl, ap, ap₂, sym, ◌∙◌, Option, some, inl, inr, Bool, true, false,
  List, [], ◌∷◌, ◌++◌, length, take, drop, replicate, if◌then◌else◌, Bool-cases, Option-cases,
  length-replicate, arith, All, append_assoc, append-nil, some-injective, ◌==◌, leb,
}
use seda_framework.Base.Segments.{take_all, drop-replicate}
use seda_framework.Base.Memory.{◌>>=◌, memcpy, memcpy_start, memcpy_beyond, length-memcpy, NoZero}
use seda_framework.Base.Dictionary.{Text}
use seda_framework.TaskQueue.{TaskQueue, task_queue, push_locked, pop_locked}
use seda_framework.TaskQueue.Locked.{IsFlagged}
use seda_framework.Logger.{
  log_len, popping, Logger, init, set_async, write_log, logs, tests, pops, Reach, here, next,
}

-- The bytes other than zero.
abbrev pub visible : List ℕ → List ℕ
visible [] = []
visible (c ∷ cs) = if c == 0 then visible cs else c ∷ visible cs

abbrev pub joined : List (List ℕ) → List ℕ
joined [] = []
joined (xs ∷ xss) = xs ++ joined xss

pub visible-append : (xs ys : List ℕ) → visible (xs ++ ys) ≡ visible xs ++ visible ys
visible-append [] ys = refl
visible-append (x ∷ xs) ys = elim (Bool-cases (x == 0)) [
  | inl z ↦ rw z (visible-append xs ys)
  | inr n ↦ rw n (ap (◌∷◌ x) (visible-append xs ys))
]

visible_text : (cs : Text) → NoZero cs → visible cs ≡ cs
visible_text [] h = refl
visible_text (c ∷ cs) h = ground (arith, visible_text cs h.1)

visible_zeros : (n : ℕ) → visible (replicate n 0) ≡ []
visible_zeros zero = refl
visible_zeros (suc n) = visible_zeros n

pub joined-append : (xss : List (List ℕ)) (ys : List ℕ) → joined (xss ++ ys ∷ []) ≡ joined xss ++ ys
joined-append [] ys = append-nil ys
joined-append (xs ∷ xss) ys =
    ap (◌++◌ xs) (joined-append xss ys) ∙ sym (append_assoc xs (joined xss) ys)

-- The block that is queued for a line: it holds the line and zeros.
block_lem :
    (log block : List ℕ)
    → NoZero log
    → memcpy (replicate log_len 0) 0 log ≡ some block
    → (length block ≡ log_len) × (visible block ≡ log)
block_lem log block nz e = elim (Bool-cases (leb (length log) log_len)) [
  | inr long ↦
      absurd
        (let beyond = memcpy_beyond (replicate log_len 0) 0 log (ground arith) in cc (beyond, e))
  | inl fits ↦
      let copied = memcpy_start (replicate log_len 0) log (ground arith) in
      let same : log ++ drop (length log) (replicate log_len 0) ≡ block =
        some-injective _ _ (sym copied ∙ e) in
      let zeros : visible (drop (length log) (replicate log_len 0)) ≡ [] =
        ap visible (drop-replicate (length log) log_len 0) ∙ visible_zeros (log_len - length log) in
      (
        length-memcpy (replicate log_len 0) 0 log block e ∙ length-replicate {A = ℕ} log_len 0,
        ap visible (sym same)
            ∙ visible-append log (drop (length log) (replicate log_len 0))
            ∙ ap₂ (◌++◌) (visible_text log nz) zeros
            ∙ append-nil log,
      )
]

-- What write_log does in either mode.
pub write_log_by :
    (log : Text) (s : Logger) (b : Bool)
    → s.is_async ≡ b
    → write_log log s ≡ (
        if b
        then (memcpy (replicate log_len 0) 0 log >>= λ block.
            some (record s { tq = (push_locked block s.tq).0 }))
        else some (record s { output = s.output ++ log }))
unfolding write_log
write_log_by log s b mode =
    ap
      (λ (b : Bool).
        if b
        then (memcpy (replicate log_len 0) 0 log >>= λ block.
            some (record s { tq = (push_locked block s.tq).0 }))
        else some (record s { output = s.output ++ log }))
      mode

pub write_log_async :
    (log : Text) (s s' : Logger)
    → s.is_async ≡ true
    → write_log log s ≡ some s'
    → (block : List ℕ) × (memcpy (replicate log_len 0) 0 log ≡ some block)
      × (record s { tq = (push_locked block s.tq).0 } ≡ s')
write_log_async log s s' mode e =
    let by_mode = sym (write_log_by log s true mode) ∙ e in
    elim (Option-cases (memcpy (replicate log_len 0) 0 log)) [
      | inl bad ↦ absurd (cc (bad, by_mode))
      | inr (block, good) ↦
          let pushed : Option Logger = some (record s { tq = (push_locked block s.tq).0 }) in
          let is_pushed : pushed ≡ some s' =
            sym (ap (λ o. o >>= λ block. some (record s { tq = (push_locked block s.tq).0 })) good)
            ∙ by_mode in
          (block, good, some-injective _ _ is_pushed)
    ]

-- In `async` mode what stands in the file and then in the queue is what was logged, but for zeros; in
-- the other mode the queue is empty.
record IsLogging (async : Bool) (s : Logger) : Type 0 where
  flagged : IsFlagged s.tq
  mode : s.is_async ≡ async
  direct : async ≡ false → s.tq.items ≡ []
  blocks : All (λ block. length block ≡ log_len) s.tq.items
  shows : visible s.output ++ visible (joined s.tq.items) ≡ joined s.lines

-- For two lines of at most LOG_LEN bytes: the first is queued, set_async turns the asynchronous mode
-- off, the second is written, and only then does the logger's thread write the first.
pub set_async_overtakes :
    (a b : Text)
    → NoZero a
    → NoZero b
    → length a ≤ log_len
    → (s t : Logger) × Reach init s
      × Reach (set_async false s) t
      × (t.lines ≡ a ∷ b ∷ [])
      × (visible t.output ≡ b ++ a)
unfolding push_locked pop_locked write_log
set_async_overtakes a b nz_a nz_b h =
    let fits =
      memcpy_start (replicate log_len 0) a (omega (arith, h, length-replicate {A = ℕ} log_len 0)) in
    let block : List ℕ = a ++ drop (length a) (replicate log_len 0) in
    let (size, shown) = block_lem a block nz_a fits in
    let queued : Logger = record init { tq = (push_locked block task_queue).0 } in
    let written : write_log a init ≡ some queued =
      ap (λ o. o >>= λ lc. some (record init { tq = (push_locked lc task_queue).0 })) fits in
    let first : Reach init (record queued { lines = a ∷ [] }) =
      next here (logs a queued nz_a refl (λ m. refl) written) in
    let off : Logger = set_async false (record queued { lines = a ∷ [] }) in
    let tested : Reach off (record off { pc = popping }) = next here (tests refl) in
    let second = next tested (logs b _ nz_b refl (λ m. refl) refl) in
    let whole : take log_len block ≡ block = take_all log_len block (omega (arith, size)) in
    (
      _,
      _,
      first,
      next second (pops block task_queue false refl refl refl refl),
      refl,
      ap (λ xs. visible (b ++ xs)) whole
          ∙ visible-append b block
          ∙ ap₂ (◌++◌) (visible_text b nz_b) shown,
    )
