-- ===== src/Logger/Stopping.antt =====
-- log.cpp, stop: what the logger's thread still writes.
use seda_framework.Base.{
  ℕ, ◌+◌, ◌≤◌, ◌≡◌, refl, ap, sym, ◌∙◌, subst, some, inl, inr, Bool, true, false, [], ◌∷◌, ◌++◌,
  length, length-append, arith, if◌then◌else◌, Bool-cases, some-injective,
}
use seda_framework.Base.Dictionary.{Text}
use seda_framework.Logger.{
  LogPc, testing, popping, ended, Logger, write_log, Step, logs, stops, tests, pops, Reach, here,
  next, deletes,
}
use seda_framework.Logger.Lines.{write_log_by, write_log_async}

-- The blocks that the thread may write before it comes to its test.
abbrev pub left_to : LogPc → ℕ
left_to testing = 0
left_to popping = 1
left_to ended = 0

record IsStopping (limit : ℕ) (s : Logger) : Type 0 where
  stopped : s.running ≡ false
  within : s.written + left_to s.pc ≤ limit

-- write_log changes neither the thread nor what it wrote.
write_log-IsStopping :
    (limit : ℕ) (log : Text) (s s' : Logger)
    → write_log log s ≡ some s'
    → IsStopping limit s
    → IsStopping limit (record s' { lines = s.lines ++ log ∷ [] })
write_log-IsStopping limit log s s' e i = elim (Bool-cases s.is_async) [
  | inl async ↦
      let (block, written, same) = write_log_async log s s' async e in
      subst (λ u. IsStopping limit (record u { lines = s.lines ++ log ∷ [] })) same
        (record { stopped = i.stopped; within = i.within })
  | inr direct ↦
      let same = some-injective _ _ (sym (write_log_by log s false direct) ∙ e) in
      subst (λ u. IsStopping limit (record u { lines = s.lines ++ log ∷ [] })) same
        (record { stopped = i.stopped; within = i.within })
]

Step-IsStopping : (limit : ℕ) {s t : Logger} → Step s t → IsStopping limit s → IsStopping limit t
Step-IsStopping limit {s} (logs log s' nz open_ there e) i = write_log-IsStopping limit log s s' e i
Step-IsStopping limit stops i = record { stopped = refl; within = i.within }
Step-IsStopping limit (deletes off joined_ once) i = record {
  stopped = i.stopped;
  within = i.within;
}
Step-IsStopping limit {s} (tests e) i =
    subst (λ (b : Bool). IsStopping limit (record s { pc = if b then popping else ended }))
      (sym i.stopped) (record { stopped = i.stopped; within = omega (arith, i.within) })
Step-IsStopping limit {s} (pops lc tq signal e nonempty there r) i =
    let one : left_to s.pc ≡ 1 = ap left_to e in
    record { stopped = i.stopped; within = omega (arith, i.within, one) }

-- Once `stop` has cleared `running`, the logger's thread writes one more block at most, and none if it
-- stood at its test, however many lines are queued or still logged.
pub Reach-written :
    {s t : Logger}
    → s.running ≡ false
    → Reach s t
    → t.written + left_to t.pc ≤ s.written + left_to s.pc
Reach-written {s} stopped r = (reaches r).within
  where
    reaches : {t : Logger} → Reach s t → IsStopping (s.written + left_to s.pc) t
    reaches here = record { stopped = stopped; within = omega arith }
    reaches (next r st) = Step-IsStopping _ st (reaches r)

-- What holds in `t` of a thread that waited in `s`.
record IsWaiting (s t : Logger) : Type 0 where
  more : length s.lines ≤ length t.lines
  waits : length t.lines ≡ length s.lines → (t.pc ≡ popping) × (t.tq.empty ≡ true)

Step-IsWaiting : {s t u : Logger} → Step t u → IsWaiting s t → IsWaiting s u
Step-IsWaiting {s} {t} (logs log s' nz open_ there e) w =
    let longer = length-append t.lines (log ∷ []) in
    record {
      more = omega (arith, longer, w.more);
      waits = λ same. absurd (omega (arith, longer, w.more, same));
    }
Step-IsWaiting stops w = record { more = w.more; waits = w.waits }
Step-IsWaiting (deletes off joined_ once) w = record { more = w.more; waits = w.waits }
Step-IsWaiting (tests e) w = record {
  more = w.more;
  waits = λ same. let (p, empty) = w.waits same in absurd (cc (e, p));
}
Step-IsWaiting (pops lc tq signal e nonempty there r) w = record {
  more = w.more;
  waits = λ same. let (p, empty) = w.waits same in absurd (cc (nonempty, empty));
}

-- If the thread is in `pop` with nothing queued, it stays there until a line is logged, whether `stop`
-- has been called or not: the join in `stop` does not return.
pub Reach-popping :
    {s t : Logger}
    → s.pc ≡ popping
    → s.tq.empty ≡ true
    → Reach s t
    → length t.lines ≡ length s.lines
    → (t.pc ≡ popping) × (t.tq.empty ≡ true)
Reach-popping {s} p empty r = (waiting r).waits
  where
    waiting : {t : Logger} → Reach s t → IsWaiting s t
    waiting here = record { more = omega arith; waits = λ same. (p, empty) }
    waiting (next r st) = Step-IsWaiting st (waiting r)
