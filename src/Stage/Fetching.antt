-- ===== src/Stage/Fetching.antt =====
-- receiver.cpp, run and fetchOne: nothing is lost between them, and no wake-up is.
use seda_framework.Base.{
  ◌≡◌, refl, sym, ap, ◌∙◌, ◌⊎◌, inl, inr, Bool, true, false, List, [], ◌∷◌, ◌++◌, append_assoc,
  arith,
}
use seda_framework.Stage.{enqueue}
use seda_framework.Stage.Threads.{
  HandlerPc, looping, testing, asleep, submitting, fetched, StageState, woken, Step, queues,
  signals, calls_fetch, waits, takes, assigns, submits, handles, stray, init, Reach, here, next,
}

module _ {ℓ} {E : Type ℓ} where
  -- What arrived is what was taken and then what is queued, in order; and if fetchOne sleeps beside an
  -- element, the receiver is about to wake it.
  pub record IsFetching (s : StageState E) : Type ℓ where
    pub in_order : s.arrived ≡ s.taken ++ s.elements
    pub awake : s.handler ≡ asleep → (s.elements ≡ []) ⊎ (s.signalling ≡ true)

  pub append-enqueue : (e : E) (xs : List E) → (enqueue e xs).0 ≡ xs ++ e ∷ []
  unfolding enqueue
  append-enqueue e [] = refl
  append-enqueue e (x ∷ xs) = refl

  queues-awake :
      (e : E) (elements : List E) (signalling : Bool)
      → (elements ≡ []) ⊎ (signalling ≡ true)
      → signalling ≡ false
      → (enqueue e elements).1 ≡ true
  unfolding enqueue
  queues-awake e [] signalling h idle = refl
  queues-awake e (x ∷ elements) signalling h idle = ground arith

  woken_not_asleep : (pc : HandlerPc E) → woken pc ≡ asleep → ⊥
  woken_not_asleep looping e = cc
  woken_not_asleep testing e = cc
  woken_not_asleep asleep e = cc
  woken_not_asleep submitting e = cc
  woken_not_asleep (fetched x) e = cc

  pub Step-IsFetching : {s t : StageState E} → Step s t → IsFetching s → IsFetching t
  Step-IsFetching {s} (queues e idle) f = record {
    in_order =
        ap (λ xs. xs ++ e ∷ []) f.in_order
        ∙ append_assoc s.taken s.elements (e ∷ [])
        ∙ ap (◌++◌ s.taken) (sym (append-enqueue e s.elements));
    awake = λ sleeps. inr (queues-awake e s.elements s.signalling (f.awake sleeps) idle);
  }
  Step-IsFetching {s} (signals e) f = record {
    in_order = f.in_order;
    awake = λ sleeps. absurd (woken_not_asleep s.handler sleeps);
  }
  Step-IsFetching (calls_fetch e) f = record { in_order = f.in_order; awake = λ sleeps. cc }
  Step-IsFetching (waits e h) f = record { in_order = f.in_order; awake = λ sleeps. inl h }
  Step-IsFetching {s} (takes e elements h q) f = record {
    in_order = f.in_order ∙ ap (◌++◌ s.taken) q ∙ sym (append_assoc s.taken (e ∷ []) elements);
    awake = λ sleeps. cc;
  }
  Step-IsFetching (assigns e h) f = record { in_order = f.in_order; awake = λ sleeps. cc }
  Step-IsFetching (submits h) f = record { in_order = f.in_order; awake = λ sleeps. cc }
  Step-IsFetching (handles n h) f = record { in_order = f.in_order; awake = f.awake }
  Step-IsFetching (stray h) f = record { in_order = f.in_order; awake = λ sleeps. cc }

  -- In every state of a stage that its threads reach, also with spurious wake-ups: elements are taken
  -- in the order in which they arrived, none lost and none twice, and while fetchOne sleeps beside a
  -- queued element the receiver is about to signal, so that no wake-up is lost.
  pub Reach-IsFetching : {s : StageState E} → Reach init s → IsFetching s
  Reach-IsFetching here = record { in_order = refl; awake = λ sleeps. cc }
  Reach-IsFetching (next r st) = Step-IsFetching st (Reach-IsFetching r)
