-- ===== src/SplayTree/Insert.antt =====
-- splaytree.c: `splaytree_insert`, against the list of the entries.
use Prim.Native.Nat.{Ordering}
use seda_framework.Base.{
  ℕ, ◌≡◌, refl, sym, ap, ◌∙◌, subst, inl, inr, [], ◌∷◌, ◌++◌, append_assoc, arith, All-append,
  All-split, All-imp,
}
use seda_framework.SplayTree.Content.{entries, entries-splay}
use seda_framework.SplayTree.Sizes.{IsSized, node_size-count, splay-IsSized}
use seda_framework.SplayTree.Order.{
  IsKey, compare_keys-lt, compare_keys-gt, compare_keys-eq, AllBelow, AllAbove, AllKeys, IsSorted,
  IsSorted-split,
}
use seda_framework.SplayTree.Find.{IsNear, splay-IsNear}
use seda_framework.SplayTree.{
  SplayTree, null, node, compare_keys, splaytree_splay, insert_by, insert_at, splaytree_insert,
}
use seda_framework.SplayTree.Spec.{insert_new, insert_new-append, insert_new-AllAbove}

module _ {ℓ} {A : Type ℓ} where
  entries-insert_by :
      (o : Ordering) (i : ℕ) (d : A) (a : SplayTree A) (k s : ℕ) (e : A) (b : SplayTree A)
      → compare_keys i k ≡ o
      → IsKey i
      → IsKey k
      → IsSorted (entries (node a k s e b))
      → IsNear i (node a k s e b)
      → entries (insert_by o i d a k s e b) ≡ insert_new i d (entries (node a k s e b))
  unfolding insert_by
  entries-insert_by Ordering.eq i d a k s e b c hi hk srt near =
      let (_, low, _, _) = IsSorted-split (entries a) k e (entries b) srt in
      let same = compare_keys-eq i k hi hk c in
      sym (
        insert_new-append i d (entries a) ((k, e) ∷ entries b)
          (subst (λ j. AllBelow j (entries a)) (sym same) low)
        ∙ ap (◌++◌ (entries a)) (ground arith))
  entries-insert_by Ordering.lt i d a k s e b c hi hk srt near =
      let (_, _, high, _) = IsSorted-split (entries a) k e (entries b) srt in
      let lt = compare_keys-lt i k hi hk c in
      let low : AllBelow i (entries a) = elim near [
        | inl same ↦ absurd (omega arith)
        | inr (inl (_, h)) ↦ h
        | inr (inr (gt, _)) ↦ absurd (omega arith)
      ] in
      sym (
        insert_new-append i d (entries a) ((k, e) ∷ entries b) low
        ∙ ap (◌++◌ (entries a)) (
            insert_new-AllAbove i d ((k, e) ∷ entries b)
              (lt, All-imp (λ e h. omega arith) (entries b) high)))
  entries-insert_by Ordering.gt i d a k s e b c hi hk srt near =
      let (_, low, _, _) = IsSorted-split (entries a) k e (entries b) srt in
      let gt = compare_keys-gt i k hi hk c in
      let high : AllAbove i (entries b) = elim near [
        | inl same ↦ absurd (omega arith)
        | inr (inl (lt, _)) ↦ absurd (omega arith)
        | inr (inr (_, h)) ↦ h
      ] in
      let front = entries a ++ (k, e) ∷ [] in
      sym (
        ap (insert_new i d) (sym (append_assoc (entries a) ((k, e) ∷ []) (entries b)))
        ∙ insert_new-append i d front (entries b)
            (All-append _ (entries a) _ (All-imp (λ e h. omega arith) (entries a) low) (gt, tt))
        ∙ ap (◌++◌ front) (insert_new-AllAbove i d (entries b) high))

  entries-insert_at :
      (t : SplayTree A) (i : ℕ) (d : A)
      → IsKey i
      → AllKeys (entries t)
      → IsSorted (entries t)
      → IsNear i t
      → entries (insert_at t i d) ≡ insert_new i d (entries t)
  unfolding insert_at
  entries-insert_at null i d hi ks s n = refl
  entries-insert_at (node a k z e b) i d hi ks s n =
      let (_, ks') = All-split (λ e. IsKey e.0) (entries a) ((k, e) ∷ entries b) ks in
      entries-insert_by (compare_keys i k) i d a k z e b refl hi ks'.0 s n

  -- In an ordered tree of hash keys, inserting `i` adds it at its place, with its data, unless it is
  -- there, when nothing changes.
  pub entries-insert :
      (t : SplayTree A) (i : ℕ) (d : A)
      → IsKey i
      → AllKeys (entries t)
      → IsSorted (entries t)
      → entries (splaytree_insert t i d) ≡ insert_new i d (entries t)
  unfolding splaytree_insert
  entries-insert t i d hi ks s =
      let same = entries-splay t i in
      entries-insert_at (splaytree_splay t i) i d hi (subst AllKeys (sym same) ks)
        (subst IsSorted (sym same) s) (splay-IsNear t i hi ks s)
      ∙ ap (insert_new i d) same

  insert_by-IsSized :
      (o : Ordering) (i : ℕ) (d : A) (a : SplayTree A) (k s : ℕ) (e : A) (b : SplayTree A)
      → IsSized (node a k s e b)
      → IsSized (insert_by o i d a k s e b)
  unfolding insert_by
  insert_by-IsSized Ordering.eq i d a k s e b h = h
  insert_by-IsSized Ordering.lt i d a k s e b h = (
    omega (arith, node_size-count a h.1, node_size-count b h.2),
    h.1,
    (omega (arith, node_size-count b h.2), tt, h.2),
  )
  insert_by-IsSized Ordering.gt i d a k s e b h = (
    omega (arith, node_size-count a h.1, node_size-count b h.2),
    (omega (arith, node_size-count a h.1), h.1, tt),
    h.2,
  )

  insert_at-IsSized : (t : SplayTree A) (i : ℕ) (d : A) → IsSized t → IsSized (insert_at t i d)
  unfolding insert_at
  insert_at-IsSized null i d h = (refl, tt, tt)
  insert_at-IsSized (node a k s e b) i d h = insert_by-IsSized (compare_keys i k) i d a k s e b h

  -- Inserting keeps every size field right, whatever the order of the keys.
  pub insert-IsSized :
      (t : SplayTree A) (i : ℕ) (d : A) → IsSized t → IsSized (splaytree_insert t i d)
  unfolding splaytree_insert
  insert-IsSized t i d h = insert_at-IsSized (splaytree_splay t i) i d (splay-IsSized t i h)
