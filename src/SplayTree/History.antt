-- ===== src/SplayTree/History.antt =====
-- splaytree.c: whole histories of calls, from the null tree.
use seda_framework.Base.{ℕ, ◌<◌, ◌≡◌, refl, ap, ◌∙◌, sym, subst, List, [], ◌∷◌, arith, All, All-imp}
use seda_framework.SplayTree.Content.{entries, entries-splay}
use seda_framework.SplayTree.Sizes.{IsSized, splay-IsSized}
use seda_framework.SplayTree.Order.{IsKey, AllAbove, AllKeys, IsSorted}
use seda_framework.SplayTree.Spec.{insert_new, erase_key}
use seda_framework.SplayTree.Insert.{entries-insert, insert-IsSized}
use seda_framework.SplayTree.Delete.{entries-delete}
use seda_framework.SplayTree.DeleteSizes.{delete-IsSized}
use seda_framework.SplayTree.{SplayTree, null, splaytree_splay, splaytree_insert, splaytree_delete}

-- A call on the tree at one root pointer, which takes the result.
pub data Call {ℓ} (A : Type ℓ) : Type ℓ where
  splays : ℕ → Call A
  inserts : ℕ → A → Call A
  deletes : ℕ → Call A

module _ {ℓ} {A : Type ℓ} where
  abbrev pub call_key : Call A → ℕ
  call_key (splays i) = i
  call_key (inserts i d) = i
  call_key (deletes i) = i

  pub step : SplayTree A → Call A → SplayTree A
  step t (splays i) = splaytree_splay t i
  step t (inserts i d) = splaytree_insert t i d
  step t (deletes i) = splaytree_delete t i

  pub run : SplayTree A → List (Call A) → SplayTree A
  unfolding step
  run t [] = t
  run t (c ∷ cs) = run (step t c) cs

  -- The same calls on the ordered map.
  abbrev pub map_step : List (ℕ × A) → Call A → List (ℕ × A)
  map_step es (splays i) = es
  map_step es (inserts i d) = insert_new i d es
  map_step es (deletes i) = erase_key i es

  abbrev pub map_run : List (ℕ × A) → List (Call A) → List (ℕ × A)
  map_run es [] = es
  map_run es (c ∷ cs) = map_run (map_step es c) cs

  insert_new-All :
      (P : ℕ × A → Type 0) (i : ℕ) (d : A) (es : List (ℕ × A))
      → P (i, d)
      → All P es
      → All P (insert_new i d es)
  insert_new-All P i d [] h hs = (h, tt)
  insert_new-All P i d (e ∷ es) h hs = ground (arith, insert_new-All P i d es h)

  erase_key-All :
      (P : ℕ × A → Type 0) (i : ℕ) (es : List (ℕ × A)) → All P es → All P (erase_key i es)
  erase_key-All P i [] hs = tt
  erase_key-All P i (e ∷ es) hs = ground (arith, erase_key-All P i es)

  AllAbove-mono : (i j : ℕ) (es : List (ℕ × A)) → i < j → AllAbove j es → AllAbove i es
  AllAbove-mono i j es lt = All-imp (λ e h. omega arith) es

  pub insert_new-IsSorted :
      (i : ℕ) (d : A) (es : List (ℕ × A)) → IsSorted es → IsSorted (insert_new i d es)
  insert_new-IsSorted i d [] s = (tt, tt)
  insert_new-IsSorted i d (e ∷ es) s = ground (
    arith,
    insert_new-IsSorted i d es,
    insert_new-All (λ x. e.0 < x.0) i d es,
    AllAbove-mono i e.0 es,
  )

  pub erase_key-IsSorted : (i : ℕ) (es : List (ℕ × A)) → IsSorted es → IsSorted (erase_key i es)
  erase_key-IsSorted i [] s = tt
  erase_key-IsSorted i (e ∷ es) s =
      ground (arith, erase_key-IsSorted i es, erase_key-All (λ x. e.0 < x.0) i es)

  -- The representation invariant.
  pub record IsMap (t : SplayTree A) : Type 0 where
    pub keys : AllKeys (entries t)
    pub sorted : IsSorted (entries t)
    pub sized : IsSized t

  pub entries-step :
      (t : SplayTree A) (c : Call A)
      → IsKey (call_key c)
      → IsMap t
      → entries (step t c) ≡ map_step (entries t) c
  unfolding step
  entries-step t (splays i) hi m = entries-splay t i
  entries-step t (inserts i d) hi m = entries-insert t i d hi m.keys m.sorted
  entries-step t (deletes i) hi m = entries-delete t i hi m.keys m.sorted

  map_step-IsSorted : (es : List (ℕ × A)) (c : Call A) → IsSorted es → IsSorted (map_step es c)
  map_step-IsSorted es (splays i) s = s
  map_step-IsSorted es (inserts i d) s = insert_new-IsSorted i d es s
  map_step-IsSorted es (deletes i) s = erase_key-IsSorted i es s

  map_step-AllKeys :
      (es : List (ℕ × A)) (c : Call A) → IsKey (call_key c) → AllKeys es → AllKeys (map_step es c)
  map_step-AllKeys es (splays i) hi s = s
  map_step-AllKeys es (inserts i d) hi s = insert_new-All (λ e. IsKey e.0) i d es hi s
  map_step-AllKeys es (deletes i) hi s = erase_key-All (λ e. IsKey e.0) i es s

  step-IsSized : (t : SplayTree A) (c : Call A) → IsKey (call_key c) → IsMap t → IsSized (step t c)
  unfolding step
  step-IsSized t (splays i) hi m = splay-IsSized t i m.sized
  step-IsSized t (inserts i d) hi m = insert-IsSized t i d m.sized
  step-IsSized t (deletes i) hi m = delete-IsSized t i hi m.keys m.sorted m.sized

  -- A call with a hash key keeps the tree ordered and its sizes right.
  pub step-IsMap : (t : SplayTree A) (c : Call A) → IsKey (call_key c) → IsMap t → IsMap (step t c)
  step-IsMap t c hi m =
      let same = sym (entries-step t c hi m) in
      record {
        keys = subst AllKeys same (map_step-AllKeys (entries t) c hi m.keys);
        sorted = subst IsSorted same (map_step-IsSorted (entries t) c m.sorted);
        sized = step-IsSized t c hi m;
      }

  run-IsMap :
      (t : SplayTree A) (cs : List (Call A))
      → All (λ c. IsKey (call_key c)) cs
      → IsMap t
      → (entries (run t cs) ≡ map_run (entries t) cs) × IsMap (run t cs)
  unfolding run
  run-IsMap t [] hs m = (refl, m)
  run-IsMap t (c ∷ cs) hs m =
      let (same, m') = run-IsMap (step t c) cs hs.1 (step-IsMap t c hs.0 m) in
      (same ∙ ap (λ es. map_run es cs) (entries-step t c hs.0 m), m')

  -- From the null tree, any history of splays, insertions and deletions with hash keys leaves an
  -- ordered tree with right sizes, whose entries are those of the ordered map after that history.
  pub run-null :
      (cs : List (Call A))
      → All (λ c. IsKey (call_key c)) cs
      → (entries (run null cs) ≡ map_run [] cs) × IsMap (run null cs)
  run-null cs hs = run-IsMap null cs hs (record { keys = tt; sorted = tt; sized = tt })
