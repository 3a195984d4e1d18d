-- ===== src/SplayTree/Delete.antt =====
-- splaytree.c: `splaytree_delete`, against the list of the entries.
use Prim.Native.Nat.{Ordering}
use seda_framework.Base.{
  ℕ, ◌<◌, ◌≡◌, refl, sym, ap, ◌∙◌, subst, inl, inr, List, [], ◌∷◌, ◌++◌, append_assoc, arith,
  All-split, All-imp, length, length-append,
}
use seda_framework.Base.Word.{sub32}
use seda_framework.SplayTree.Rounds.{IsNode}
use seda_framework.SplayTree.Content.{splay-IsNode, entries, entries-splay}
use seda_framework.SplayTree.Order.{
  IsKey, compare_keys-lt, compare_keys-gt, compare_keys-eq, AllBelow, AllAbove, AllKeys, IsSorted,
  IsSorted-split,
}
use seda_framework.SplayTree.Find.{IsNear, splay-IsNear}
use seda_framework.SplayTree.{
  SplayTree, null, node, node_size, compare_keys, splaytree_splay, join, resize, unlink, delete_by,
  delete_at, splaytree_delete,
}
use seda_framework.SplayTree.Spec.{erase_key, erase_key-append, erase_key-AllAbove}

module _ {ℓ} {A : Type ℓ} where
  abbrev pub right_of : SplayTree A → SplayTree A
  right_of null = null
  right_of (node l k s d r) = r

  above_and_below : (i : ℕ) (xs : List (ℕ × A)) → AllBelow i xs → AllAbove i xs → xs ≡ []
  above_and_below i [] h g = refl
  above_and_below i (x ∷ xs) h g = absurd (omega (arith, h.0, g.0))

  entries_nil : (t : SplayTree A) → entries t ≡ [] → t ≡ null
  entries_nil null h = refl
  entries_nil (node l k s d r) h =
      absurd (omega (arith, ap length h, length-append (entries l) ((k, d) ∷ entries r)))

  -- Splaying a key above all others leaves nothing to the right of the root, so that
  -- `x->right = t->right` loses no node.
  pub right_of-near :
      (i : ℕ) (t : SplayTree A) → AllBelow i (entries t) → IsNear i t → right_of t ≡ null
  right_of-near i null h n = refl
  right_of-near i (node a k s d b) h n =
      let (_, here) = All-split (λ e. e.0 < i) (entries a) ((k, d) ∷ entries b) h in
      elim n [
        | inl same ↦ absurd (omega arith)
        | inr (inl (lt, _)) ↦ absurd (omega arith)
        | inr (inr (gt, high)) ↦ entries_nil b (above_and_below i (entries b) here.1 high)
      ]

  entries-join :
      (x b : SplayTree A) (size : ℕ)
      → IsNode x
      → right_of x ≡ null
      → entries (join x b size) ≡ entries x ++ entries b
  unfolding join
  entries-join null b size h e = absurd h
  entries-join (node a k s d r) b size h e =
      rw e (sym (append_assoc (entries a) ((k, d) ∷ []) (entries b)))

  entries-unlink :
      (a b : SplayTree A) (i size : ℕ)
      → IsKey i
      → AllKeys (entries a)
      → IsSorted (entries a)
      → AllBelow i (entries a)
      → entries (unlink a b i size) ≡ entries a ++ entries b
  unfolding unlink resize
  entries-unlink null null i size hi ks s low = refl
  entries-unlink null (node l k z d r) i size hi ks s low = refl
  entries-unlink (node l k z d r) b i size hi ks s low =
      let a = node l k z d r in
      let same = entries-splay a i in
      let last =
        right_of-near i (splaytree_splay a i) (subst (AllBelow i) (sym same) low)
          (splay-IsNear a i hi ks s) in
      entries-join (splaytree_splay a i) b size (splay-IsNode a i tt) last
      ∙ ap (λ xs. xs ++ entries b) same

  entries-delete_by :
      (o : Ordering) (a : SplayTree A) (k s : ℕ) (d : A) (b : SplayTree A) (i tsize : ℕ)
      → compare_keys i k ≡ o
      → IsKey i
      → AllKeys (entries (node a k s d b))
      → IsSorted (entries (node a k s d b))
      → IsNear i (node a k s d b)
      → entries (delete_by o a k s d b i tsize) ≡ erase_key i (entries (node a k s d b))
  unfolding delete_by
  entries-delete_by Ordering.eq a k s d b i tsize c hi ks srt near =
      let (sa, low, _, _) = IsSorted-split (entries a) k d (entries b) srt in
      let (ka, kb) = All-split (λ e. IsKey e.0) (entries a) ((k, d) ∷ entries b) ks in
      let same = compare_keys-eq i k hi kb.0 c in
      let below = subst (λ j. AllBelow j (entries a)) (sym same) low in
      entries-unlink a b i (sub32 tsize 1) hi ka sa below
      ∙ sym (
          erase_key-append i (entries a) ((k, d) ∷ entries b) below
          ∙ ap (◌++◌ (entries a)) (ground arith))
  entries-delete_by Ordering.lt a k s d b i tsize c hi ks srt near =
      let (_, _, high, _) = IsSorted-split (entries a) k d (entries b) srt in
      let (ka, kb) = All-split (λ e. IsKey e.0) (entries a) ((k, d) ∷ entries b) ks in
      let lt = compare_keys-lt i k hi kb.0 c in
      let low : AllBelow i (entries a) = elim near [
        | inl same ↦ absurd (omega arith)
        | inr (inl (_, h)) ↦ h
        | inr (inr (gt, _)) ↦ absurd (omega arith)
      ] in
      sym (
        erase_key-append i (entries a) ((k, d) ∷ entries b) low
        ∙ ap (◌++◌ (entries a)) (
            erase_key-AllAbove i ((k, d) ∷ entries b)
              (lt, All-imp (λ e h. omega arith) (entries b) high)))
  entries-delete_by Ordering.gt a k s d b i tsize c hi ks srt near =
      let (_, low, _, _) = IsSorted-split (entries a) k d (entries b) srt in
      let (ka, kb) = All-split (λ e. IsKey e.0) (entries a) ((k, d) ∷ entries b) ks in
      let gt = compare_keys-gt i k hi kb.0 c in
      let high : AllAbove i (entries b) = elim near [
        | inl same ↦ absurd (omega arith)
        | inr (inl (lt, _)) ↦ absurd (omega arith)
        | inr (inr (_, h)) ↦ h
      ] in
      sym (
        erase_key-append i (entries a) ((k, d) ∷ entries b)
          (All-imp (λ e h. omega arith) (entries a) low)
        ∙ ap (◌++◌ (entries a)) (ground (arith, erase_key-AllAbove i (entries b) high)))

  entries-delete_at :
      (t : SplayTree A) (i tsize : ℕ)
      → IsKey i
      → AllKeys (entries t)
      → IsSorted (entries t)
      → IsNear i t
      → entries (delete_at t i tsize) ≡ erase_key i (entries t)
  unfolding delete_at
  entries-delete_at null i tsize hi ks s n = refl
  entries-delete_at (node a k z d b) i tsize hi ks s n =
      entries-delete_by (compare_keys i k) a k z d b i tsize refl hi ks s n

  -- In an ordered tree of hash keys, deleting `i` takes its entry out and no other.
  pub entries-delete :
      (t : SplayTree A) (i : ℕ)
      → IsKey i
      → AllKeys (entries t)
      → IsSorted (entries t)
      → entries (splaytree_delete t i) ≡ erase_key i (entries t)
  unfolding splaytree_delete
  entries-delete t i hi ks s =
      let same = entries-splay t i in
      entries-delete_at (splaytree_splay t i) i (node_size t) hi (subst AllKeys (sym same) ks)
        (subst IsSorted (sym same) s) (splay-IsNear t i hi ks s)
      ∙ ap (erase_key i) same
