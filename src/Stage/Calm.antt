-- ===== src/Stage/Calm.antt =====
-- stage_handler.cpp, run: what the stage does when the workers keep up, so that fetchOne gives an element
-- only when every earlier call of handlerFunc has returned.
use mathlib.Core.List.{map-append}
use seda_framework.Base.{
  ℕ, suc, ◌≡◌, refl, sym, ap, subst, ◌∙◌, Bool, true, Option, some, List, [], ◌∷◌, ◌++◌, map,
  replicate, append_assoc, append-nil, arith, ◌==◌, ==_iff, ◌≤◌,
}
use seda_framework.Stage.Threads.{
  HandlerPc, looping, testing, asleep, submitting, fetched, StageState, woken, Step, queues,
  signals, calls_fetch, waits, takes, assigns, submits, handles, stray, init,
}

module _ {ℓ} {E : Type ℓ} where
  -- An element is taken only when no call of handlerFunc waits for a worker or runs.
  abbrev pub keeps_up : {s t : StageState E} → Step s t → Bool
  keeps_up {s} (takes e elements p q) = s.jobs == 0
  keeps_up _ = true

  pub data Calm (s : StageState E) : StageState E → Type ℓ where
    begins : Calm s s
    after : {t u : StageState E} → Calm s t → (st : Step t u) → keeps_up st ≡ true → Calm s u

  -- What will be handled next, of what was taken.
  abbrev pub outstanding : HandlerPc E → Option E → ℕ → List (Option E)
  outstanding (fetched e) ie jobs = some e ∷ []
  outstanding submitting ie jobs = ie ∷ []
  outstanding looping ie jobs = replicate jobs ie
  outstanding testing ie jobs = replicate jobs ie
  outstanding asleep ie jobs = replicate jobs ie

  -- From the return of fetchOne to `wp->run` no call of handlerFunc waits or runs.
  abbrev pub IsClear : HandlerPc E → ℕ → Type 0
  IsClear (fetched e) jobs = jobs ≡ 0
  IsClear submitting jobs = jobs ≡ 0
  IsClear looping jobs = Unit
  IsClear testing jobs = Unit
  IsClear asleep jobs = Unit

  pub record IsCalm (s : StageState E) : Type ℓ where
    pub order : map some s.taken ≡ s.handled ++ outstanding s.handler s.ie s.jobs
    pub alone : IsClear s.handler s.jobs
    pub single : s.jobs ≤ 1

  outstanding-woken :
      (pc : HandlerPc E) (ie : Option E) (jobs : ℕ)
      → outstanding (woken pc) ie jobs ≡ outstanding pc ie jobs
  outstanding-woken looping ie jobs = refl
  outstanding-woken testing ie jobs = refl
  outstanding-woken asleep ie jobs = refl
  outstanding-woken submitting ie jobs = refl
  outstanding-woken (fetched e) ie jobs = refl

  IsClear-woken : (pc : HandlerPc E) (jobs : ℕ) → IsClear pc jobs → IsClear (woken pc) jobs
  IsClear-woken looping jobs h = h
  IsClear-woken testing jobs h = h
  IsClear-woken asleep jobs h = h
  IsClear-woken submitting jobs h = h
  IsClear-woken (fetched e) jobs h = h

  IsClear-suc : (pc : HandlerPc E) (n : ℕ) → IsClear pc (suc n) → IsClear pc n
  IsClear-suc looping n h = tt
  IsClear-suc testing n h = tt
  IsClear-suc asleep n h = tt
  IsClear-suc submitting n h = absurd (omega (arith, h))
  IsClear-suc (fetched e) n h = absurd (omega (arith, h))

  outstanding-handles :
      (pc : HandlerPc E) (ie : Option E) (n : ℕ)
      → IsClear pc (suc n)
      → outstanding pc ie (suc n) ≡ ie ∷ outstanding pc ie n
  outstanding-handles looping ie n h = refl
  outstanding-handles testing ie n h = refl
  outstanding-handles asleep ie n h = refl
  outstanding-handles submitting ie n h = absurd (omega (arith, h))
  outstanding-handles (fetched e) ie n h = absurd (omega (arith, h))

  Step-IsCalm : {s t : StageState E} (st : Step s t) → keeps_up st ≡ true → IsCalm s → IsCalm t
  Step-IsCalm {s} (queues e idle) k c = record {
    order = c.order;
    alone = c.alone;
    single = c.single;
  }
  Step-IsCalm {s} (signals e) k c = record {
    order = c.order ∙ ap (◌++◌ s.handled) (sym (outstanding-woken s.handler s.ie s.jobs));
    alone = IsClear-woken s.handler s.jobs c.alone;
    single = c.single;
  }
  Step-IsCalm {s} (calls_fetch e) k c = record {
    order = c.order ∙ ap (λ pc. s.handled ++ outstanding pc s.ie s.jobs) e;
    alone = tt;
    single = c.single;
  }
  Step-IsCalm {s} (waits e q) k c = record {
    order = c.order ∙ ap (λ pc. s.handled ++ outstanding pc s.ie s.jobs) e;
    alone = tt;
    single = c.single;
  }
  Step-IsCalm {s} (takes e elements p q) k c =
      let none_left : s.jobs ≡ 0 = (==_iff s.jobs 0).0 k in
      let order : map some s.taken ≡ s.handled =
        c.order
        ∙ ap (λ pc. s.handled ++ outstanding pc s.ie s.jobs) p
        ∙ ap (λ n. s.handled ++ replicate n s.ie) none_left
        ∙ append-nil s.handled in
      record {
        order = map-append some s.taken (e ∷ []) ∙ ap (λ xs. xs ++ some e ∷ []) order;
        alone = none_left;
        single = c.single;
      }
  Step-IsCalm {s} (assigns e p) k c = record {
    order = c.order ∙ ap (λ pc. s.handled ++ outstanding pc s.ie s.jobs) p;
    alone = subst (λ pc. IsClear pc s.jobs) p c.alone;
    single = c.single;
  }
  Step-IsCalm {s} (submits p) k c =
      let none_left : s.jobs ≡ 0 = subst (λ pc. IsClear pc s.jobs) p c.alone in
      record {
        order =
            c.order
            ∙ ap (λ pc. s.handled ++ outstanding pc s.ie s.jobs) p
            ∙ ap (λ n. s.handled ++ s.ie ∷ replicate n s.ie) (sym none_left);
        alone = tt;
        single = omega (arith, none_left);
      }
  Step-IsCalm {s} (handles n p) k c =
      let alone = subst (IsClear s.handler) p c.alone in
      record {
        order =
            c.order
            ∙ ap (λ m. s.handled ++ outstanding s.handler s.ie m) p
            ∙ ap (◌++◌ s.handled) (outstanding-handles s.handler s.ie n alone)
            ∙ sym (append_assoc s.handled (s.ie ∷ []) (outstanding s.handler s.ie n));
        alone = IsClear-suc s.handler n alone;
        single = omega (arith, p, c.single);
      }
  Step-IsCalm {s} (stray e) k c = record {
    order = c.order ∙ ap (λ pc. s.handled ++ outstanding pc s.ie s.jobs) e;
    alone = tt;
    single = c.single;
  }

  pub Calm-IsCalm : {s : StageState E} → Calm init s → IsCalm s
  Calm-IsCalm begins = record { order = refl; alone = tt; single = omega arith }
  Calm-IsCalm (after r st k) = Step-IsCalm st k (Calm-IsCalm r)

  -- If fetchOne gives an element only when no call of handlerFunc waits or runs, the stage handles every
  -- element that it takes, once and in order: those handled and the one outstanding are those taken.
  pub Calm-outstanding :
      {s : StageState E}
      → Calm init s
      → map some s.taken ≡ s.handled ++ outstanding s.handler s.ie s.jobs
  Calm-outstanding r = (Calm-IsCalm r).order

  -- Then `sh->ie` is not assigned during a call of handlerFunc, and one call at most waits or runs.
  pub Calm-alone :
      {s : StageState E}
      → Calm init s
      → ((e : E) → s.handler ≡ fetched e → s.jobs ≡ 0) × (s.jobs ≤ 1)
  Calm-alone {s} r =
      let c = Calm-IsCalm r in ((λ e p. subst (λ pc. IsClear pc s.jobs) p c.alone), c.single)
