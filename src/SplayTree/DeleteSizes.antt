-- ===== src/SplayTree/DeleteSizes.antt =====
-- splaytree.c: the size fields after `splaytree_delete`, which takes one off the old total.
use Prim.Native.Nat.{Ordering}
use seda_framework.Base.{ℕ, ◌+◌, ◌%◌, ◌^◌, ◌≡◌, refl, sym, ap, subst, ◌∷◌, arith, All-split}
use seda_framework.Base.Word.{sub32}
use seda_framework.SplayTree.Content.{count-splay, entries, entries-splay}
use seda_framework.SplayTree.Sizes.{IsSized, node_size-count, splay-IsSized}
use seda_framework.SplayTree.Order.{
  IsKey, compare_keys-eq, AllBelow, AllKeys, IsSorted, IsSorted-split,
}
use seda_framework.SplayTree.Find.{splay-IsNear}
use seda_framework.SplayTree.{
  SplayTree, null, node, node_size, compare_keys, splaytree_splay, join, resize, unlink, delete_by,
  delete_at, splaytree_delete, count,
}
use seda_framework.SplayTree.Delete.{right_of, right_of-near}

module _ {ℓ} {A : Type ℓ} where
  resize-IsSized :
      (t : SplayTree A) (size : ℕ) → size ≡ count t % 2 ^ 32 → IsSized t → IsSized (resize t size)
  unfolding resize
  resize-IsSized null size e h = tt
  resize-IsSized (node a k s d b) size e h = (e, h.1, h.2)

  join-IsSized :
      (x b : SplayTree A) (size : ℕ)
      → right_of x ≡ null
      → size ≡ (count x + count b) % 2 ^ 32
      → IsSized x
      → IsSized b
      → IsSized (join x b size)
  unfolding join
  join-IsSized null b size r e hx hb = tt
  join-IsSized (node a k s d y) b size r e hx hb =
      let none_right : count y ≡ 0 = ap count r in (omega arith, hx.1, hb)

  unlink-IsSized :
      (a b : SplayTree A) (i size : ℕ)
      → IsKey i
      → AllKeys (entries a)
      → IsSorted (entries a)
      → AllBelow i (entries a)
      → size ≡ (count a + count b) % 2 ^ 32
      → IsSized a
      → IsSized b
      → IsSized (unlink a b i size)
  unfolding unlink
  unlink-IsSized null b i size hi ks s low e ha hb = resize-IsSized b size (omega arith) hb
  unlink-IsSized (node l k z d r) b i size hi ks s low e ha hb =
      let a = node l k z d r in
      let x = splaytree_splay a i in
      join-IsSized x b size
        (right_of-near i x (subst (AllBelow i) (sym (entries-splay a i)) low)
          (splay-IsNear a i hi ks s))
        (omega (arith, count-splay a i)) (splay-IsSized a i ha) hb

  delete_by-IsSized :
      (o : Ordering) (a : SplayTree A) (k s : ℕ) (d : A) (b : SplayTree A) (i tsize : ℕ)
      → compare_keys i k ≡ o
      → IsKey i
      → AllKeys (entries (node a k s d b))
      → IsSorted (entries (node a k s d b))
      → tsize ≡ count (node a k s d b) % 2 ^ 32
      → IsSized (node a k s d b)
      → IsSized (delete_by o a k s d b i tsize)
  unfolding delete_by
  delete_by-IsSized Ordering.eq a k s d b i tsize c hi ks srt e h =
      let (sa, low, _, _) = IsSorted-split (entries a) k d (entries b) srt in
      let (ka, kb) = All-split (λ e. IsKey e.0) (entries a) ((k, d) ∷ entries b) ks in
      unlink-IsSized a b i (sub32 tsize 1) hi ka sa
        (subst (λ j. AllBelow j (entries a)) (sym (compare_keys-eq i k hi kb.0 c)) low)
        (omega arith) h.1 h.2
  delete_by-IsSized Ordering.lt a k s d b i tsize c hi ks srt e h = h
  delete_by-IsSized Ordering.gt a k s d b i tsize c hi ks srt e h = h

  delete_at-IsSized :
      (t : SplayTree A) (i tsize : ℕ)
      → IsKey i
      → AllKeys (entries t)
      → IsSorted (entries t)
      → tsize ≡ count t % 2 ^ 32
      → IsSized t
      → IsSized (delete_at t i tsize)
  unfolding delete_at
  delete_at-IsSized null i tsize hi ks s e h = tt
  delete_at-IsSized (node a k z d b) i tsize hi ks s e h =
      delete_by-IsSized (compare_keys i k) a k z d b i tsize refl hi ks s e h

  -- In an ordered tree of hash keys whose sizes are right they are right after a deletion.
  pub delete-IsSized :
      (t : SplayTree A) (i : ℕ)
      → IsKey i
      → AllKeys (entries t)
      → IsSorted (entries t)
      → IsSized t
      → IsSized (splaytree_delete t i)
  unfolding splaytree_delete
  delete-IsSized t i hi ks s h =
      let same = entries-splay t i in
      delete_at-IsSized (splaytree_splay t i) i (node_size t) hi (subst AllKeys (sym same) ks)
        (subst IsSorted (sym same) s) (omega (arith, node_size-count t h, count-splay t i))
        (splay-IsSized t i h)
