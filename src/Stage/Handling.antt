-- ===== src/Stage/Handling.antt =====
-- stage_handler.cpp, run and handlerFunc: the workers read `sh->ie` when they come to it, and the
-- thread of `run` may have assigned it anew by then.
use seda_framework.Base.{
  ℕ, ◌+◌, ◌≡◌, ◌≢◌, refl, ap, ◌∙◌, subst, inl, inr, Option, none, some, List, [], ◌∷◌, ◌++◌, length,
  length-append, append_assoc, arith, All, All-append, All-imp, Option-cases,
}
use seda_framework.Stage.{enqueue}
use seda_framework.Stage.Threads.{
  HandlerPc, looping, testing, asleep, submitting, fetched, StageState, woken, Step, queues,
  signals, calls_fetch, waits, takes, assigns, submits, handles, stray, init, Reach, here, next,
}

module _ {ℓ} {E : Type ℓ} where
  -- `e` is one of the elements.
  abbrev pub Among : E → List E → Type ℓ
  Among e es = (before after : List E) × (es ≡ before ++ e ∷ after)

  Among-append : (e x : E) (es : List E) → Among e es → Among e (es ++ x ∷ [])
  Among-append e x es (before, after, same) = (
    before,
    after ++ x ∷ [],
    ap (λ xs. xs ++ x ∷ []) same ∙ append_assoc before (e ∷ after) (x ∷ []),
  )

  -- An element that fetchOne gave and that is not yet a task.
  abbrev pub pending : HandlerPc E → ℕ
  pending looping = 0
  pending testing = 0
  pending asleep = 0
  pending submitting = 1
  pending (fetched e) = 1

  abbrev pub Read : List E → Option E → Type ℓ
  Read es o = (e : E) × (o ≡ some e) × Among e es

  -- There are as many tasks as elements taken, and what the workers read are elements taken.
  pub record IsHandling (s : StageState E) : Type ℓ where
    pub counted : length s.taken ≡ length s.handled + s.jobs + pending s.handler
    pub present : (e : E) → s.handler ≡ fetched e → Among e s.taken
    pub assigned : s.ie ≡ none → (s.jobs ≡ 0) × (s.handler ≢ submitting)
    pub from_taken : (e : E) → s.ie ≡ some e → Among e s.taken
    pub all_read : All (Read s.taken) s.handled

  pending-woken : (pc : HandlerPc E) → pending (woken pc) ≡ pending pc
  pending-woken looping = refl
  pending-woken testing = refl
  pending-woken asleep = refl
  pending-woken submitting = refl
  pending-woken (fetched e) = refl

  woken-fetched : (pc : HandlerPc E) (e : E) → woken pc ≡ fetched e → pc ≡ fetched e
  woken-fetched looping e h = h
  woken-fetched testing e h = h
  woken-fetched asleep e h = cc
  woken-fetched submitting e h = h
  woken-fetched (fetched x) e h = h

  woken-submitting : (pc : HandlerPc E) → woken pc ≡ submitting → pc ≡ submitting
  woken-submitting looping h = h
  woken-submitting testing h = h
  woken-submitting asleep h = cc
  woken-submitting submitting h = h
  woken-submitting (fetched x) h = h

  pub Step-IsHandling : {s t : StageState E} → Step s t → IsHandling s → IsHandling t
  Step-IsHandling {s} (queues e idle) h = record {
    counted = h.counted;
    present = h.present;
    assigned = h.assigned;
    from_taken = h.from_taken;
    all_read = h.all_read;
  }
  Step-IsHandling {s} (signals e) h = record {
    counted = omega (arith, h.counted, pending-woken s.handler);
    present = λ x p. h.present x (woken-fetched s.handler x p);
    assigned = λ n. ((h.assigned n).0, λ p. (h.assigned n).1 (woken-submitting s.handler p));
    from_taken = h.from_taken;
    all_read = h.all_read;
  }
  Step-IsHandling {s} (calls_fetch e) h = record {
    counted = h.counted ∙ rw e refl;
    present = λ x p. cc;
    assigned = λ n. ((h.assigned n).0, λ p. cc);
    from_taken = h.from_taken;
    all_read = h.all_read;
  }
  Step-IsHandling {s} (waits e q) h = record {
    counted = h.counted ∙ rw e refl;
    present = λ x p. cc;
    assigned = λ n. ((h.assigned n).0, λ p. cc);
    from_taken = h.from_taken;
    all_read = h.all_read;
  }
  Step-IsHandling {s} (takes e elements p q) h =
      let counted = h.counted ∙ ap (λ pc. length s.handled + s.jobs + pending pc) p in
      record {
        counted = omega (arith, length-append s.taken (e ∷ []), counted);
        present =
            λ x same. let e_is : e ≡ x = cc same in (s.taken, [], ap (λ y. s.taken ++ y ∷ []) e_is);
        assigned = λ n. ((h.assigned n).0, λ r. cc);
        from_taken = λ x held. Among-append x e s.taken (h.from_taken x held);
        all_read = All-imp (λ o r. (r.0, r.1, Among-append r.0 e s.taken r.2)) s.handled h.all_read;
      }
  Step-IsHandling {s} (assigns e p) h =
      let counted = h.counted ∙ ap (λ pc. length s.handled + s.jobs + pending pc) p in
      record {
        counted = counted;
        present = λ x same. cc;
        assigned = λ n. cc;
        from_taken = λ x held.
            let e_is : e ≡ x = cc held in subst (λ y. Among y s.taken) e_is (h.present e p);
        all_read = h.all_read;
      }
  Step-IsHandling {s} (submits p) h =
      let counted = h.counted ∙ ap (λ pc. length s.handled + s.jobs + pending pc) p in
      record {
        counted = omega (arith, counted);
        present = λ x same. cc;
        assigned = λ n. absurd ((h.assigned n).1 p);
        from_taken = h.from_taken;
        all_read = h.all_read;
      }
  Step-IsHandling {s} (handles n p) h = elim (Option-cases s.ie) [
    | inl none_yet ↦ absurd (omega (arith, p, (h.assigned none_yet).0))
    | inr (e, some_e) ↦ record {
      counted = omega (arith, h.counted, p, length-append s.handled (s.ie ∷ []));
      present = h.present;
      assigned = λ none_yet. absurd (cc (none_yet, some_e));
      from_taken = h.from_taken;
      all_read =
          All-append (Read s.taken) s.handled (s.ie ∷ []) h.all_read
            ((e, some_e, h.from_taken e some_e), tt);
    }
  ]
  Step-IsHandling {s} (stray e) h = record {
    counted = h.counted ∙ rw e refl;
    present = λ x p. cc;
    assigned = λ n. ((h.assigned n).0, λ p. cc);
    from_taken = h.from_taken;
    all_read = h.all_read;
  }

  -- In every state of a stage that its threads reach: each element taken is a task that was handled,
  -- one that still waits, or the one at hand, by their numbers, and what stands in `sh->ie` at the return
  -- of a call of handlerFunc is an element that was taken.
  pub Reach-IsHandling : {s : StageState E} → Reach init s → IsHandling s
  Reach-IsHandling here = record {
    counted = refl;
    present = λ e p. cc;
    assigned = λ n. (refl, λ p. cc);
    from_taken = λ e p. cc;
    all_read = tt;
  }
  Reach-IsHandling (next r st) = Step-IsHandling st (Reach-IsHandling r)

  -- For any two elements a stage reaches a state where both have arrived and no task is left, and the
  -- second was handled twice and the first never: it was taken before a worker read the first.
  pub two_elements_lost :
      (a b : E)
      → (s : StageState E) × Reach init s
        × (s.arrived ≡ a ∷ b ∷ [])
        × (s.elements ≡ [])
        × (s.jobs ≡ 0)
        × (s.handler ≡ looping)
        × (s.handled ≡ some b ∷ some b ∷ [])
  unfolding enqueue
  two_elements_lost a b =
      let first = next (next here (queues a refl)) (signals refl) in
      let both = next first (queues b refl) in
      let taken_a = next (next both (calls_fetch refl)) (takes a (b ∷ []) refl refl) in
      let job_a = next (next taken_a (assigns a refl)) (submits refl) in
      let taken_b = next (next job_a (calls_fetch refl)) (takes b [] refl refl) in
      let job_b = next (next taken_b (assigns b refl)) (submits refl) in
      (_, next (next job_b (handles 1 refl)) (handles 0 refl), refl, refl, refl, refl, refl)
