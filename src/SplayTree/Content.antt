-- ===== src/SplayTree/Content.antt =====
-- splaytree.c: the entries of a tree in the order of the nodes, and that splaying keeps them.
use seda_framework.Base.{
  ℕ, ◌≡◌, refl, sym, ap, ◌∙◌, List, [], ◌∷◌, ◌++◌, append-nil, append_assoc, length, length-append,
  arith,
}
use seda_framework.SplayTree.Rounds.{IsNode, IsKept, splay_loop-kept}
use seda_framework.SplayTree.{
  SplayTree, null, node, Linked, Splaying, link_right, link_left, splay_loop, assemble_left,
  assemble_right, assemble, start, count, splaytree_splay,
}

module _ {ℓ} {A : Type ℓ} where
  -- The keys and the data, from left to right.
  abbrev pub entries : SplayTree A → List (ℕ × A)
  entries null = []
  entries (node l k s d r) = entries l ++ (k, d) ∷ entries r

  -- A rotation to the right, whatever sizes it writes.
  pub entries-rotate :
      (a' : SplayTree A) (k' s' : ℕ) (d' : A) (b' : SplayTree A) (k s : ℕ) (d : A) (b : SplayTree A)
      (z y : ℕ)
      → entries (node (node a' k' s' d' b') k s d b) ≡ entries (node a' k' y d' (node b' k z d b))
  entries-rotate a' k' s' d' b' k s d b z y = simp append_assoc

  abbrev pub left_entries : List (Linked A) → List (ℕ × A)
  left_entries [] = []
  left_entries (y ∷ ys) = entries y.child ++ (y.key, y.payload) ∷ left_entries ys

  abbrev pub right_entries : List (Linked A) → List (ℕ × A)
  right_entries [] = []
  right_entries (y ∷ ys) = right_entries ys ++ (y.key, y.payload) ∷ entries y.child

  -- All that the loop holds: the left path, the tree at `t`, the right path.
  abbrev pub held : Splaying A → List (ℕ × A)
  held st = left_entries st.lefts ++ entries st.root ++ right_entries st.rights

  pub left_entries-append :
      (xs ys : List (Linked A)) → left_entries (xs ++ ys) ≡ left_entries xs ++ left_entries ys
  left_entries-append [] ys = refl
  left_entries-append (x ∷ xs) ys = simp (left_entries-append xs ys, append_assoc)

  pub right_entries-append :
      (xs ys : List (Linked A)) → right_entries (xs ++ ys) ≡ right_entries ys ++ right_entries xs
  right_entries-append [] ys = simp append-nil
  right_entries-append (x ∷ xs) ys = simp (right_entries-append xs ys, append_assoc)

  pub ruleset path_laws = (left_entries-append, right_entries-append, append-nil, append_assoc)

  -- What is held stays the same list.
  held-IsKept : (i : ℕ) (xs : List (ℕ × A)) → IsKept i (λ st. held st ≡ xs)
  unfolding link_right link_left
  held-IsKept i xs = record {
    rotating_right = λ a' k' s' d' b' k s d b st p. simp append_assoc (simp append_assoc at p);
    rotating_left = λ a k s d a' k' s' d' b' st p. simp append_assoc (simp append_assoc at p);
    linking_right = λ a k s d b st _ _ p. simp path_laws (simp path_laws at p);
    linking_left = λ a k s d b st _ _ p. simp path_laws (simp path_laws at p);
  }

  pub entries-assemble_left :
      (ys : List (Linked A)) (size : ℕ) (t : SplayTree A)
      → entries (assemble_left ys size t) ≡ left_entries ys ++ entries t
  unfolding assemble_left
  entries-assemble_left [] size t = refl
  entries-assemble_left (y ∷ ys) size t = simp (entries-assemble_left ys, append_assoc)

  pub entries-assemble_right :
      (ys : List (Linked A)) (size : ℕ) (t : SplayTree A)
      → entries (assemble_right ys size t) ≡ entries t ++ right_entries ys
  unfolding assemble_right
  entries-assemble_right [] size t = simp append-nil
  entries-assemble_right (y ∷ ys) size t = simp (entries-assemble_right ys, append_assoc)

  entries-assemble :
      (t : SplayTree A) (st : Splaying A)
      → IsNode t
      → entries (assemble t st) ≡ left_entries st.lefts ++ entries t ++ right_entries st.rights
  unfolding assemble
  entries-assemble null st h = absurd h
  entries-assemble (node a k s d b) st h =
      simp (entries-assemble_left, entries-assemble_right, append_assoc)

  root-IsKept : (i : ℕ) → IsKept i (λ (st : Splaying A). IsNode st.root)
  unfolding link_right link_left
  root-IsKept i = record {
    rotating_right = λ a' k' s' d' b' k s d b st p. tt;
    rotating_left = λ a k s d a' k' s' d' b' st p. tt;
    linking_right = λ a k s d b st n _ p. n;
    linking_left = λ a k s d b st n _ p. n;
  }

  -- The state at the end of the loop.
  abbrev pub splayed : SplayTree A → ℕ → Splaying A
  splayed t i = splay_loop (count t) i (start t)

  pub splayed-IsNode : (t : SplayTree A) (i : ℕ) → IsNode t → IsNode (splayed t i).root
  splayed-IsNode t i h = splay_loop-kept i _ (root-IsKept i) (count t) (start t) h

  assemble-IsNode : (t : SplayTree A) (st : Splaying A) → IsNode t → IsNode (assemble t st)
  unfolding assemble
  assemble-IsNode null st h = h
  assemble-IsNode (node a k s d b) st h = tt

  pub splay-IsNode : (t : SplayTree A) (i : ℕ) → IsNode t → IsNode (splaytree_splay t i)
  unfolding splaytree_splay
  splay-IsNode t i h = assemble-IsNode _ _ (splayed-IsNode t i h)

  pub count-entries : (t : SplayTree A) → count t ≡ length (entries t)
  count-entries null = refl
  count-entries (node l k s d r) =
      omega
        (arith, length-append (entries l) ((k, d) ∷ entries r), count-entries l, count-entries r)

  pub held-splayed : (t : SplayTree A) (i : ℕ) → held (splayed t i) ≡ entries t
  held-splayed t i =
      splay_loop-kept i (λ st. held st ≡ entries t) (held-IsKept i (entries t)) (count t) (start t)
        (simp append-nil)

  -- Splaying moves nodes about, and leaves the keys and their data in order as they were.
  pub entries-splay : (t : SplayTree A) (i : ℕ) → entries (splaytree_splay t i) ≡ entries t
  unfolding splaytree_splay
  entries-splay null i = refl
  entries-splay (node a k s d b) i =
      entries-assemble _ _ (splayed-IsNode (node a k s d b) i tt) ∙ held-splayed (node a k s d b) i

  pub count-splay : (t : SplayTree A) (i : ℕ) → count (splaytree_splay t i) ≡ count t
  count-splay t i =
      count-entries (splaytree_splay t i) ∙ ap length (entries-splay t i) ∙ sym (count-entries t)
