-- ===== src/SplayTree.antt =====
-- splaytree.h and splaytree.c: top-down splaying with sizes. A pointer to a node is the tree below
-- it, since each node has one owner. `l` and `r` walk down two paths that hang under `N`: such a
-- path is the list of its nodes from the top, each with the subtree on its other side. A key and a
-- size are `int`s, here the 32-bit patterns of `Base.Word`.
use Prim.Native.Nat.{Ordering}
use seda_framework.Base.{ℕ, zero, suc, ◌+◌, List, [], ◌∷◌, ◌++◌}
use seda_framework.Base.Word.{add32, sub32, sign32}
pub mod Rounds
pub mod Content
pub mod Sizes
pub mod Order
pub mod Find
pub mod Spec
pub mod Search
pub mod Insert
pub mod Delete
pub mod DeleteSizes
pub mod History
mod Tests

-- struct tree_node; a null pointer is `null`.
pub data SplayTree {ℓ} (A : Type ℓ) : Type ℓ where
  null : SplayTree A
  node : (left : SplayTree A) (key size : ℕ) (payload : A) (right : SplayTree A) → SplayTree A

-- A node on one of the two paths, with the child that the path does not follow.
pub record Linked {ℓ} (A : Type ℓ) : Type ℓ where
  pub key : ℕ
  pub payload : A
  pub child : SplayTree A

-- The variables of the loop of `splaytree_splay`. `lefts` is the path from `N.right` to `l`, and
-- `rights` the path from `N.left` to `r`; their size fields are written at the end.
pub record Splaying {ℓ} (A : Type ℓ) : Type ℓ where
  pub root : SplayTree A
  pub lefts : List (Linked A)
  pub rights : List (Linked A)
  pub l_size : ℕ
  pub r_size : ℕ

-- How a round of the loop ends.
pub data Turn {ℓ} (A : Type ℓ) : Type ℓ where
  broke : Splaying A → Turn A
  again : Splaying A → Turn A

-- #define compare(i,j) ((i)-(j)), read by its sign
unfoldable pub compare_keys : ℕ → ℕ → Ordering
compare_keys i j = sign32 (sub32 i j)

module _ {ℓ} {A : Type ℓ} where
  -- #define splaytree_size(x)
  abbrev pub node_size : SplayTree A → ℕ
  node_size null = 0
  node_size (node l k s d r) = s

  -- `r->left = t; r = t; t = t->left; r_size += 1+node_size(r->right);`
  unfoldable pub link_right : SplayTree A → Splaying A → Splaying A
  link_right null st = record st { root = null }
  link_right (node a k s d b) st = record st {
    root = a;
    rights = st.rights ++ record { key = k; payload = d; child = b } ∷ [];
    r_size = add32 st.r_size (add32 1 (node_size b));
  }

  -- `l->right = t; l = t; t = t->right; l_size += 1+node_size(l->left);`
  unfoldable pub link_left : SplayTree A → Splaying A → Splaying A
  link_left null st = record st { root = null }
  link_left (node a k s d b) st = record st {
    root = b;
    lefts = st.lefts ++ record { key = k; payload = d; child = a } ∷ [];
    l_size = add32 st.l_size (add32 1 (node_size a));
  }

  -- After `t = y` has turned the tree right: `if (t->left == NULL) break;`, else link.
  unfoldable pub rotated_right : SplayTree A → Splaying A → Turn A
  unfolding link_right
  rotated_right null st = broke (record st { root = null })
  rotated_right (node null k s d b) st = broke (record st { root = node null k s d b })
  rotated_right (node (node a k' s' d' b') k s d b) st =
      again (link_right (node (node a k' s' d' b') k s d b) st)

  unfoldable pub rotated_left : SplayTree A → Splaying A → Turn A
  unfolding link_left
  rotated_left null st = broke (record st { root = null })
  rotated_left (node a k s d null) st = broke (record st { root = node a k s d null })
  rotated_left (node a k s d (node a' k' s' d' b')) st =
      again (link_left (node a k s d (node a' k' s' d' b')) st)

  -- The branch `comp < 0` at a left child `a'`, given how `i` compares with its key.
  unfoldable pub zig_right :
      Ordering
      → SplayTree A
      → ℕ
      → ℕ
      → A
      → SplayTree A
      → ℕ
      → ℕ
      → A
      → SplayTree A
      → Splaying A
      → Turn A
  unfolding rotated_right link_right
  zig_right Ordering.lt a' k' s' d' b' k s d b st =
      let t = node b' k (add32 (add32 (node_size b') (node_size b)) 1) d b in
      rotated_right (node a' k' s' d' t) st
  zig_right _ a' k' s' d' b' k s d b st = again (link_right (node (node a' k' s' d' b') k s d b) st)

  -- The branch `comp < 0`, matched on `t->left`.
  unfoldable pub turn_left : ℕ → SplayTree A → ℕ → ℕ → A → SplayTree A → Splaying A → Turn A
  unfolding zig_right compare_keys
  turn_left i null k s d b st = broke (record st { root = node null k s d b })
  turn_left i (node a' k' s' d' b') k s d b st =
      zig_right (compare_keys i k') a' k' s' d' b' k s d b st

  -- The branch `comp > 0` at a right child, given how `i` compares with its key.
  unfoldable pub zig_left :
      Ordering
      → SplayTree A
      → ℕ
      → ℕ
      → A
      → SplayTree A
      → ℕ
      → ℕ
      → A
      → SplayTree A
      → Splaying A
      → Turn A
  unfolding rotated_left link_left
  zig_left Ordering.gt a k s d a' k' s' d' b' st =
      let t = node a k (add32 (add32 (node_size a) (node_size a')) 1) d a' in
      rotated_left (node t k' s' d' b') st
  zig_left _ a k s d a' k' s' d' b' st = again (link_left (node a k s d (node a' k' s' d' b')) st)

  -- The branch `comp > 0`, matched on `t->right`.
  unfoldable pub turn_right : ℕ → SplayTree A → ℕ → ℕ → A → SplayTree A → Splaying A → Turn A
  unfolding zig_left compare_keys
  turn_right i a k s d null st = broke (record st { root = node a k s d null })
  turn_right i a k s d (node a' k' s' d' b') st =
      zig_left (compare_keys i k') a k s d a' k' s' d' b' st

  -- The three branches on `comp`.
  unfoldable pub turn_by :
      Ordering → ℕ → SplayTree A → ℕ → ℕ → A → SplayTree A → Splaying A → Turn A
  unfolding turn_left turn_right
  turn_by Ordering.lt i a k s d b st = turn_left i a k s d b st
  turn_by Ordering.gt i a k s d b st = turn_right i a k s d b st
  turn_by Ordering.eq i a k s d b st = broke (record st { root = node a k s d b })

  -- One round of the loop, at `t`. The loop never stands at a null `t`.
  unfoldable pub turn : ℕ → SplayTree A → Splaying A → Turn A
  unfolding turn_by compare_keys
  turn i null st = broke (record st { root = null })
  turn i (node a k s d b) st = turn_by (compare_keys i k) i a k s d b st

  -- The loop, with a bound on its rounds.
  pub splay_loop : ℕ → ℕ → Splaying A → Splaying A
  splay_loop zero i st = st
  splay_loop (suc rounds) i st = elim (turn i st.root st) [
    | broke st' ↦ st'
    | again st' ↦ splay_loop rounds i st'
  ]

  -- The path from `N.right`, with the sizes of the first correcting loop, and `t->left` at its end.
  unfoldable pub assemble_left : List (Linked A) → ℕ → SplayTree A → SplayTree A
  assemble_left [] size t = t
  assemble_left (y ∷ ys) size t =
      let rest = sub32 size (add32 1 (node_size y.child)) in
      node y.child y.key size y.payload (assemble_left ys rest t)

  -- The path from `N.left`, with the sizes of the second, and `t->right` at its end.
  unfoldable pub assemble_right : List (Linked A) → ℕ → SplayTree A → SplayTree A
  assemble_right [] size t = t
  assemble_right (y ∷ ys) size t =
      let rest = sub32 size (add32 1 (node_size y.child)) in
      node (assemble_right ys rest t) y.key size y.payload y.child

  -- What follows the loop, at `t`.
  unfoldable pub assemble : SplayTree A → Splaying A → SplayTree A
  unfolding assemble_left assemble_right
  assemble null st = null
  assemble (node a k s d b) st =
      let l_size = add32 st.l_size (node_size a) in
      let r_size = add32 st.r_size (node_size b) in
      node (assemble_left st.lefts l_size a) k (add32 (add32 l_size r_size) 1) d
        (assemble_right st.rights r_size b)

  -- The number of nodes: the bound on the rounds.
  abbrev pub count : SplayTree A → ℕ
  count null = 0
  count (node l k s d r) = suc (count l + count r)

  abbrev pub start : SplayTree A → Splaying A
  start t = record { root = t; lefts = []; rights = []; l_size = 0; r_size = 0 }

  unfoldable pub splaytree_splay : SplayTree A → ℕ → SplayTree A
  unfolding assemble splay_loop turn
  splaytree_splay t i = let st = splay_loop (count t) i (start t) in assemble st.root st

  -- The rest of `splaytree_insert` at a splayed root, given how `i` compares with its key.
  unfoldable pub insert_by : Ordering → ℕ → A → SplayTree A → ℕ → ℕ → A → SplayTree A → SplayTree A
  insert_by Ordering.eq i d a k s e b = node a k s e b
  insert_by Ordering.lt i d a k s e b =
      let t = node null k (add32 1 (node_size b)) e b in
      node a i (add32 (add32 1 (node_size a)) (node_size t)) d t
  insert_by Ordering.gt i d a k s e b =
      let t = node a k (add32 1 (node_size a)) e null in
      node t i (add32 (add32 1 (node_size t)) (node_size b)) d b

  unfoldable pub insert_at : SplayTree A → ℕ → A → SplayTree A
  unfolding insert_by compare_keys
  insert_at null i d = node null i (add32 (add32 1 0) 0) d null
  insert_at (node a k s e b) i d = insert_by (compare_keys i k) i d a k s e b

  unfoldable pub splaytree_insert : SplayTree A → ℕ → A → SplayTree A
  unfolding insert_at splaytree_splay
  splaytree_insert t i d = insert_at (splaytree_splay t i) i d

  -- `x = splaytree_splay(t->left, i); x->right = t->right; x->size = tsize-1;`
  unfoldable pub join : SplayTree A → SplayTree A → ℕ → SplayTree A
  join null b size = null
  join (node a k s d b') b size = node a k size d b

  -- `if (x != NULL) x->size = tsize-1;`
  unfoldable pub resize : SplayTree A → ℕ → SplayTree A
  resize null size = null
  resize (node a k s d b) size = node a k size d b

  -- `x` and the result of `splaytree_delete` once the key is found, by `t->left`.
  unfoldable pub unlink : SplayTree A → SplayTree A → ℕ → ℕ → SplayTree A
  unfolding resize join splaytree_splay
  unlink null b i size = resize b size
  unlink (node a k s d b') b i size = join (splaytree_splay (node a k s d b') i) b size

  -- `splaytree_delete` below the first splay; `tsize` is the size before it.
  unfoldable pub delete_by : Ordering → SplayTree A → ℕ → ℕ → A → SplayTree A → ℕ → ℕ → SplayTree A
  unfolding unlink
  delete_by Ordering.eq a k s d b i tsize = unlink a b i (sub32 tsize 1)
  delete_by _ a k s d b i tsize = node a k s d b

  unfoldable pub delete_at : SplayTree A → ℕ → ℕ → SplayTree A
  unfolding delete_by compare_keys
  delete_at null i tsize = null
  delete_at (node a k s d b) i tsize = delete_by (compare_keys i k) a k s d b i tsize

  unfoldable pub splaytree_delete : SplayTree A → ℕ → SplayTree A
  unfolding delete_at splaytree_splay
  splaytree_delete t i = delete_at (splaytree_splay t i) i (node_size t)
