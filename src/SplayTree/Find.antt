-- ===== src/SplayTree/Find.antt =====
-- splaytree.c: where splaying puts a key, and what a splayed root tells of the whole tree.
use seda_framework.Base.{
  ℕ, ◌<◌, ◌≡◌, sym, subst, ◌⊎◌, inl, inr, [], ◌∷◌, append-nil, arith, All-append, All-split,
  All-imp,
}
use seda_framework.Base.Word.{add32}
use seda_framework.SplayTree.Rounds.{
  IsKept, IsEnd, found, left_end, right_end, splay_loop-kept, splay_loop-IsEnd,
}
use seda_framework.SplayTree.Content.{
  entries, entries-rotate, left_entries, right_entries, path_laws, entries-assemble_left,
  entries-assemble_right, splayed,
}
use seda_framework.SplayTree.Order.{
  IsKey, compare_keys-lt, compare_keys-gt, compare_keys-eq, AllBelow, AllAbove, AllKeys, IsSorted,
  IsSorted-split,
}
use seda_framework.SplayTree.{
  SplayTree, null, node, node_size, Splaying, link_right, link_left, start, count, assemble,
  splaytree_splay,
}

module _ {ℓ} {A : Type ℓ} where
  -- What lies on the two paths is below and above `i`.
  record Parted (i : ℕ) (st : Splaying A) : Type 0 where
    sorted : IsSorted (entries st.root)
    keys : AllKeys (entries st.root)
    below : AllBelow i (left_entries st.lefts)
    above : AllAbove i (right_entries st.rights)

  Parted-IsKept : (i : ℕ) → IsKey i → IsKept {A = A} i (Parted i)
  unfolding link_right link_left
  Parted-IsKept i hi = record {
    rotating_right = λ a' k' s' d' b' k s d b st p. record {
      sorted =
          subst (IsSorted {A = A})
            (entries-rotate a' k' s' d' b' k s d b (add32 (add32 (node_size b') (node_size b)) 1)
              s')
            p.sorted;
      keys =
          subst (AllKeys {A = A})
            (entries-rotate a' k' s' d' b' k s d b (add32 (add32 (node_size b') (node_size b)) 1)
              s')
            p.keys;
      below = p.below;
      above = p.above;
    };
    rotating_left = λ a k s d a' k' s' d' b' st p. record {
      sorted =
          subst (IsSorted {A = A})
            (sym (
              entries-rotate a k (add32 (add32 (node_size a) (node_size a')) 1) d a' k' s' d' b' s'
                s))
            p.sorted;
      keys =
          subst (AllKeys {A = A})
            (sym (
              entries-rotate a k (add32 (add32 (node_size a) (node_size a')) 1) d a' k' s' d' b' s'
                s))
            p.keys;
      below = p.below;
      above = p.above;
    };
    linking_right = λ a k s d b st _ e p.
        let (s₁, _, s₃, _) = IsSorted-split (entries a) k d (entries b) p.sorted in
        let (k₁, k₂) = All-split (λ e. IsKey e.0) (entries a) ((k, d) ∷ entries b) p.keys in
        let lt = compare_keys-lt i k hi k₂.0 e in
        record {
          sorted = s₁;
          keys = k₁;
          below = p.below;
          above = simp path_laws (
            lt,
            All-append _ (entries b) _ (All-imp (λ e h. omega arith) (entries b) s₃) p.above,
          );
        };
    linking_left = λ a k s d b st _ e p.
        let (_, s₂, _, s₄) = IsSorted-split (entries a) k d (entries b) p.sorted in
        let (k₁, k₂) = All-split (λ e. IsKey e.0) (entries a) ((k, d) ∷ entries b) p.keys in
        let gt = compare_keys-gt i k hi k₂.0 e in
        record {
          sorted = s₄;
          keys = k₂.1;
          below = simp path_laws (
              All-append _ (left_entries st.lefts) _ p.below (
                All-append _ (entries a) _ (All-imp (λ e h. omega arith) (entries a) s₂) (gt, tt)));
          above = p.above;
        };
  }

  -- A root next to `i`: its key is `i`, or no key of the tree lies between the two.
  abbrev pub IsNear : ℕ → SplayTree A → Type 0
  IsNear i null = Unit
  IsNear i (node a k s d b) =
      (i ≡ k) ⊎ ((i < k) × AllBelow i (entries a)) ⊎ ((k < i) × AllAbove i (entries b))

  assemble-IsNear :
      (i : ℕ) (t : SplayTree A) (st : Splaying A)
      → IsKey i
      → Parted i (record st { root = t })
      → IsEnd i t
      → IsNear i (assemble t st)
  unfolding assemble
  assemble-IsNear i null st hi p e = tt
  assemble-IsNear i (node a k s d b) st hi p (found e) =
      let (_, k₂) = All-split (λ e. IsKey e.0) (entries a) ((k, d) ∷ entries b) p.keys in
      inl (compare_keys-eq i k hi k₂.0 e)
  assemble-IsNear i (node null k s d b) st hi p (left_end e) =
      inr
        (inl (compare_keys-lt i k hi p.keys.0 e, simp (entries-assemble_left, append-nil) p.below))
  assemble-IsNear i (node a k s d null) st hi p (right_end e) =
      let (_, k₂) = All-split (λ e. IsKey e.0) (entries a) ((k, d) ∷ []) p.keys in
      inr (inr (compare_keys-gt i k hi k₂.0 e, simp entries-assemble_right p.above))

  pub splay-IsNear :
      (t : SplayTree A) (i : ℕ)
      → IsKey i
      → AllKeys (entries t)
      → IsSorted (entries t)
      → IsNear i (splaytree_splay t i)
  unfolding splaytree_splay
  splay-IsNear null i hi ks s = tt
  splay-IsNear (node a k z d b) i hi ks s =
      let t = node a k z d b in
      assemble-IsNear i (splayed t i).root (splayed t i) hi
        (splay_loop-kept i (Parted i) (Parted-IsKept i hi) (count t) (start t)
          (record { sorted = s; keys = ks; below = tt; above = tt }))
        (splay_loop-IsEnd (count t) i (start t) tt (omega arith))
