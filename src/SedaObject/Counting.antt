-- ===== src/SedaObject/Counting.antt =====
-- seda_object.cpp: when an object is deleted.
use seda_framework.Base.{
  ℕ, zero, suc, ◌+◌, ◌-◌, ◌^◌, ◌<◌, ◌≡◌, sym, ap, ◌∙◌, some, List, [], ◌∷◌, ◌++◌, take, ◌==◌,
  if◌then◌else◌, arith, append-nil, Bool-cases, inl, inr, subst, length,
}
use seda_framework.Base.Segments.{take_all}
use seda_framework.Base.Memory.{◌>>=◌}
use seda_framework.SedaObject.{
  alive, deleted, seda_object, incr_ref_count, decr_ref_count, RefCall, incr, decr, run,
}

-- How many references have been taken, and how many given back.
abbrev pub taken : List RefCall → ℕ
taken [] = 0
taken (incr ∷ calls) = suc (taken calls)
taken (decr ∷ calls) = taken calls

abbrev pub given_back : List RefCall → ℕ
given_back [] = 0
given_back (incr ∷ calls) = given_back calls
given_back (decr ∷ calls) = suc (given_back calls)

incr_alive : (n : ℕ) → suc n < 2 ^ 31 → incr_ref_count (alive n) ≡ some (alive (suc n))
unfolding incr_ref_count
incr_alive n h = ground arith

decr_alive : (n : ℕ) → 1 < n → decr_ref_count (alive n) ≡ some (alive (n - 1))
unfolding decr_ref_count
decr_alive zero h = absurd (omega arith)
decr_alive (suc zero) h = absurd (omega arith)
decr_alive (suc (suc n)) h = ap (λ k. some (alive k)) (omega arith)

-- As long as references are held, the rest goes on from what is left of them.
run-held :
    (calls later : List RefCall) (n : ℕ)
    → ((k : ℕ) → given_back (take k calls) < n + taken (take k calls))
    → n + taken calls < 2 ^ 31
    → run (calls ++ later) (alive n) ≡ run later (alive (n + taken calls - given_back calls))
run-held [] later n held fits = ap (λ k. run later (alive k)) (omega arith)
run-held (incr ∷ calls) later n held fits =
    ap (λ o. o >>= run (calls ++ later)) (incr_alive n (omega (arith, fits)))
    ∙ run-held calls later (suc n) (λ k. omega (arith, held (suc k))) (omega (arith, fits))
    ∙ ap (λ k. run later (alive k)) (omega arith)
run-held (decr ∷ calls) later n held fits =
    ap (λ o. o >>= run (calls ++ later)) (decr_alive n (omega (arith, held 1)))
    ∙ run-held calls later (n - 1) (λ k. omega (arith, held 1, held (suc k))) (omega (arith, fits))
    ∙ ap (λ k. run later (alive k)) (omega (arith, held 1))

decr_left :
    (t g : ℕ)
    → g < 1 + t
    → decr_ref_count (alive (1 + t - g)) ≡ some (if t == g then deleted else alive (t - g))
unfolding decr_ref_count
decr_left t g h = elim (Bool-cases (t == g)) [
  | inl last ↦
      let one : 1 + t - g ≡ 1 = ground arith in rw last (ap (λ k. decr_ref_count (alive k)) one)
  | inr more ↦
      let two : 1 < 1 + t - g = ground arith in
      let left : 1 + t - g - 1 ≡ t - g = omega arith in
      rw more (decr_alive (1 + t - g) two ∙ ap (λ k. some (alive k)) left)
]

-- A new object that has been taken once and is then taken and given back in any order, so that at
-- any time more references have been taken than given back, fewer than 2^31 in all: it is there, with the
-- references that are left as its count; one more that is given back deletes it exactly if that was
-- the last.
pub run-decr :
    (calls : List RefCall)
    → ((k : ℕ) → given_back (take k calls) < 1 + taken (take k calls))
    → 1 + taken calls < 2 ^ 31
    → (run (incr ∷ calls) seda_object ≡ some (alive (1 + taken calls - given_back calls)))
      × (run (incr ∷ (calls ++ decr ∷ [])) seda_object
          ≡ some (
              if taken calls == given_back calls
              then deleted
              else alive (taken calls - given_back calls)))
unfolding incr_ref_count
run-decr calls held fits = (
  ap (λ cs. run cs (alive 1)) (sym (append-nil calls)) ∙ run-held calls [] 1 held fits,
  run-held calls (decr ∷ []) 1 held fits
      ∙ ap (λ o. o >>= run [])
          (decr_left (taken calls) (given_back calls) (
            subst (λ cs. given_back cs < 1 + taken cs) (take_all (length calls) calls (omega arith))
              (held (length calls)))),
)
