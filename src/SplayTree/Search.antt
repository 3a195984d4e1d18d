-- ===== src/SplayTree/Search.antt =====
-- splaytree.c: a search by `splaytree_splay`, against the list of the entries.
use seda_framework.Base.{
  ℕ, ◌≡◌, refl, sym, ap, ◌∙◌, subst, inl, inr, Option, none, some, ◌∷◌, arith, All-imp,
  if◌then◌else◌, ◌==◌,
}
use seda_framework.SplayTree.Content.{entries, entries-splay}
use seda_framework.SplayTree.Order.{IsKey, AllBelow, AllKeys, IsSorted, IsSorted-split}
use seda_framework.SplayTree.Find.{IsNear, splay-IsNear}
use seda_framework.SplayTree.{SplayTree, null, node, splaytree_splay}
use seda_framework.SplayTree.Spec.{lookup, lookup-append, lookup-AllAbove}

module _ {ℓ} {A : Type ℓ} where
  -- What a search reads off a splayed tree: the data at the root, if the root has the key.
  abbrev pub at_root : ℕ → SplayTree A → Option A
  at_root i null = none
  at_root i (node a k s d b) = if k == i then some d else none

  at_root-near :
      (i : ℕ) (t : SplayTree A)
      → IsSorted (entries t)
      → IsNear i t
      → at_root i t ≡ lookup i (entries t)
  at_root-near i null s n = refl
  at_root-near i (node a k z d b) s n =
      let (_, low, high, _) = IsSorted-split (entries a) k d (entries b) s in
      elim n [
        | inl e ↦ ground (
          arith,
          lookup-append i (entries a) ((k, d) ∷ entries b)
              (subst (λ j. AllBelow j (entries a)) (sym e) low),
        )
        | inr (inl (lt, none_low)) ↦ ground (
          arith,
          lookup-append i (entries a) ((k, d) ∷ entries b) none_low,
          lookup-AllAbove i (entries b) (All-imp (λ e h. omega arith) (entries b) high),
        )
        | inr (inr (gt, none_high)) ↦ ground (
          arith,
          lookup-append i (entries a) ((k, d) ∷ entries b)
              (All-imp (λ e h. omega arith) (entries a) low),
          lookup-AllAbove i (entries b) none_high,
        )
      ]

  -- In an ordered tree of hash keys, splaying `i` brings its data to the root exactly when `i` is a
  -- key of the tree.
  pub at_root-splay :
      (t : SplayTree A) (i : ℕ)
      → IsKey i
      → AllKeys (entries t)
      → IsSorted (entries t)
      → at_root i (splaytree_splay t i) ≡ lookup i (entries t)
  at_root-splay t i hi ks s =
      at_root-near i (splaytree_splay t i) (subst IsSorted (sym (entries-splay t i)) s)
        (splay-IsNear t i hi ks s)
      ∙ ap (lookup i) (entries-splay t i)
