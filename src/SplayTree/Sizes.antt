-- ===== src/SplayTree/Sizes.antt =====
-- splaytree.c: the size fields. A size is an `int`, so it is the number of nodes modulo 2 ^ 32.
use seda_framework.Base.{
  ℕ, suc, ◌+◌, ◌%◌, ◌^◌, ◌≡◌, refl, List, [], ◌∷◌, ◌++◌, arith, All, All-append,
}
use seda_framework.Base.Word.{add32, sub32}
use seda_framework.SplayTree.Rounds.{IsKept, splay_loop-kept}
use seda_framework.SplayTree.{
  SplayTree, null, node, node_size, Linked, Splaying, link_right, link_left, assemble_left,
  assemble_right, assemble, start, count, splaytree_splay,
}

module _ {ℓ} {A : Type ℓ} where
  -- "maintained to be the number of nodes rooted here"
  abbrev pub IsSized : SplayTree A → Type 0
  IsSized null = Unit
  IsSized (node l k s d r) = (s ≡ suc (count l + count r) % 2 ^ 32) × IsSized l × IsSized r

  -- A node whose own size may be out of date.
  abbrev BelowSized : SplayTree A → Type 0
  BelowSized null = Unit
  BelowSized (node l k s d r) = IsSized l × IsSized r

  IsSized-below : (t : SplayTree A) → IsSized t → BelowSized t
  IsSized-below null h = tt
  IsSized-below (node l k s d r) h = (h.1, h.2)

  pub node_size-count : (t : SplayTree A) → IsSized t → node_size t ≡ count t % 2 ^ 32
  node_size-count null h = refl
  node_size-count (node l k s d r) h = h.0

  abbrev pub path_count : List (Linked A) → ℕ
  path_count [] = 0
  path_count (y ∷ ys) = suc (count y.child + path_count ys)

  path_count-append :
      (xs ys : List (Linked A)) → path_count (xs ++ ys) ≡ path_count xs + path_count ys
  path_count-append [] ys = omega arith
  path_count-append (x ∷ xs) ys = omega (arith, path_count-append xs ys)

  abbrev ChildSized : Linked A → Type 0
  ChildSized y = IsSized y.child

  -- `l_size` and `r_size` count the nodes of the two paths.
  record Counted (st : Splaying A) : Type 0 where
    below : BelowSized st.root
    lefts : All ChildSized st.lefts
    rights : All ChildSized st.rights
    l_size : st.l_size ≡ path_count st.lefts % 2 ^ 32
    r_size : st.r_size ≡ path_count st.rights % 2 ^ 32

  Counted-IsKept : (i : ℕ) → IsKept i Counted
  unfolding link_right link_left
  Counted-IsKept i = record {
    rotating_right = λ a' k' s' d' b' k s d b st p. record {
      below = (
        p.below.0.1,
        (
          omega (arith, node_size-count b' p.below.0.2, node_size-count b p.below.1),
          p.below.0.2,
          p.below.1,
        ),
      );
      lefts = p.lefts;
      rights = p.rights;
      l_size = p.l_size;
      r_size = p.r_size;
    };
    rotating_left = λ a k s d a' k' s' d' b' st p. record {
      below = (
        (
          omega (arith, node_size-count a p.below.0, node_size-count a' p.below.1.1),
          p.below.0,
          p.below.1.1,
        ),
        p.below.1.2,
      );
      lefts = p.lefts;
      rights = p.rights;
      l_size = p.l_size;
      r_size = p.r_size;
    };
    linking_right = λ a k s d b st _ _ p. record {
      below = IsSized-below a p.below.0;
      lefts = p.lefts;
      rights = All-append ChildSized st.rights _ p.rights (p.below.1, tt);
      l_size = p.l_size;
      r_size = omega (
        arith,
        p.r_size,
        node_size-count b p.below.1,
        path_count-append st.rights (record { key = k; payload = d; child = b } ∷ []),
      );
    };
    linking_left = λ a k s d b st _ _ p. record {
      below = IsSized-below b p.below.1;
      lefts = All-append ChildSized st.lefts _ p.lefts (p.below.0, tt);
      rights = p.rights;
      l_size = omega (
        arith,
        p.l_size,
        node_size-count a p.below.0,
        path_count-append st.lefts (record { key = k; payload = d; child = a } ∷ []),
      );
      r_size = p.r_size;
    };
  }

  count-assemble_left :
      (ys : List (Linked A)) (size : ℕ) (t : SplayTree A)
      → count (assemble_left ys size t) ≡ path_count ys + count t
  unfolding assemble_left
  count-assemble_left [] size t = omega arith
  count-assemble_left (y ∷ ys) size t = omega (arith, count-assemble_left ys _ t)

  count-assemble_right :
      (ys : List (Linked A)) (size : ℕ) (t : SplayTree A)
      → count (assemble_right ys size t) ≡ path_count ys + count t
  unfolding assemble_right
  count-assemble_right [] size t = omega arith
  count-assemble_right (y ∷ ys) size t = omega (arith, count-assemble_right ys _ t)

  -- The correcting loops: they start from the right total, and leave every size right.
  assemble_left-IsSized :
      (ys : List (Linked A)) (size : ℕ) (t : SplayTree A)
      → size ≡ (path_count ys + count t) % 2 ^ 32
      → All ChildSized ys
      → IsSized t
      → IsSized (assemble_left ys size t)
  unfolding assemble_left
  assemble_left-IsSized [] size t e hs h = h
  assemble_left-IsSized (y ∷ ys) size t e hs h =
      let rest = sub32 size (add32 1 (node_size y.child)) in
      (
        omega (arith, count-assemble_left ys rest t),
        hs.0,
        assemble_left-IsSized ys rest t (omega (arith, node_size-count y.child hs.0)) hs.1 h,
      )

  assemble_right-IsSized :
      (ys : List (Linked A)) (size : ℕ) (t : SplayTree A)
      → size ≡ (path_count ys + count t) % 2 ^ 32
      → All ChildSized ys
      → IsSized t
      → IsSized (assemble_right ys size t)
  unfolding assemble_right
  assemble_right-IsSized [] size t e hs h = h
  assemble_right-IsSized (y ∷ ys) size t e hs h =
      let rest = sub32 size (add32 1 (node_size y.child)) in
      (
        omega (arith, count-assemble_right ys rest t),
        assemble_right-IsSized ys rest t (omega (arith, node_size-count y.child hs.0)) hs.1 h,
        hs.0,
      )

  assemble-IsSized :
      (t : SplayTree A) (st : Splaying A)
      → Counted (record st { root = t })
      → IsSized (assemble t st)
  unfolding assemble
  assemble-IsSized null st c = tt
  assemble-IsSized (node a k s d b) st c =
      let ls = add32 st.l_size (node_size a) in
      let rs = add32 st.r_size (node_size b) in
      (
        omega (
          arith,
          c.l_size,
          c.r_size,
          node_size-count a c.below.0,
          node_size-count b c.below.1,
          count-assemble_left st.lefts ls a,
          count-assemble_right st.rights rs b,
        ),
        assemble_left-IsSized st.lefts ls a (omega (arith, c.l_size, node_size-count a c.below.0))
            c.lefts c.below.0,
        assemble_right-IsSized st.rights rs b (omega (arith, c.r_size, node_size-count b c.below.1))
            c.rights c.below.1,
      )

  -- In a tree whose sizes are right they are right after splaying.
  pub splay-IsSized : (t : SplayTree A) (i : ℕ) → IsSized t → IsSized (splaytree_splay t i)
  unfolding splaytree_splay
  splay-IsSized t i h = assemble-IsSized _ _ (
      splay_loop-kept i Counted (Counted-IsKept i) (count t) (start t) (record {
        below = IsSized-below t h;
        lefts = tt;
        rights = tt;
        l_size = refl;
        r_size = refl;
      }))
