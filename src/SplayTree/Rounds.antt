-- ===== src/SplayTree/Rounds.antt =====
-- splaytree.c: how a property is carried through the rounds of the loop of `splaytree_splay`, and
-- how the loop ends.
use Prim.Native.Nat.{Ordering}
use seda_framework.Base.{ℕ, zero, suc, ◌≤◌, ◌<◌, ◌≡◌, refl, arith}
use seda_framework.Base.Word.{add32}
use seda_framework.SplayTree.{
  SplayTree, null, node, node_size, Splaying, Turn, broke, again, compare_keys, link_right,
  link_left, rotated_right, rotated_left, zig_right, zig_left, turn_by, turn_left, turn_right, turn,
  splay_loop, count,
}

module _ {ℓ} {A : Type ℓ} where
  abbrev pub IsNode : SplayTree A → Type 0
  IsNode null = ⊥
  IsNode (node _ _ _ _ _) = Unit

  -- `P` at the state in which a round leaves the loop's variables.
  abbrev pub After {κ} : (Splaying A → Type κ) → Turn A → Type κ
  After P (broke st) = P st
  After P (again st) = P st

-- A property that the two rotations and the two links keep. A link happens only at a key on the
-- right side of `i`.
pub record IsKept {ℓ κ} {A : Type ℓ} (i : ℕ) (P : Splaying A → Type κ) : Type (ℓ ⊔ κ) where
  pub rotating_right :
      (a' : SplayTree A) (k' s' : ℕ) (d' : A) (b' : SplayTree A) (k s : ℕ) (d : A) (b : SplayTree A)
      (st : Splaying A)
      → P (record st { root = node (node a' k' s' d' b') k s d b })
      → P (record st {
        root = node a' k' s' d' (node b' k (add32 (add32 (node_size b') (node_size b)) 1) d b);
      })
  pub rotating_left :
      (a : SplayTree A) (k s : ℕ) (d : A) (a' : SplayTree A) (k' s' : ℕ) (d' : A) (b' : SplayTree A)
      (st : Splaying A)
      → P (record st { root = node a k s d (node a' k' s' d' b') })
      → P (record st {
        root = node (node a k (add32 (add32 (node_size a) (node_size a')) 1) d a') k' s' d' b';
      })
  pub linking_right :
      (a : SplayTree A) (k s : ℕ) (d : A) (b : SplayTree A) (st : Splaying A)
      → IsNode a
      → compare_keys i k ≡ Ordering.lt
      → P (record st { root = node a k s d b })
      → P (link_right (node a k s d b) st)
  pub linking_left :
      (a : SplayTree A) (k s : ℕ) (d : A) (b : SplayTree A) (st : Splaying A)
      → IsNode b
      → compare_keys i k ≡ Ordering.gt
      → P (record st { root = node a k s d b })
      → P (link_left (node a k s d b) st)

module _ {ℓ κ} {A : Type ℓ} (i : ℕ) (P : Splaying A → Type κ) (kept : IsKept i P) where
  zig_right-kept :
      (o : Ordering) (a' : SplayTree A) (k' s' : ℕ) (d' : A) (b' : SplayTree A) (k s : ℕ) (d : A)
      (b : SplayTree A) (st : Splaying A)
      → compare_keys i k' ≡ o
      → compare_keys i k ≡ Ordering.lt
      → P (record st { root = node (node a' k' s' d' b') k s d b })
      → After P (zig_right o a' k' s' d' b' k s d b st)
  unfolding zig_right rotated_right
  zig_right-kept Ordering.lt null k' s' d' b' k s d b st e h p =
      kept.rotating_right null k' s' d' b' k s d b st p
  zig_right-kept Ordering.lt (node a c z f x) k' s' d' b' k s d b st e h p =
      kept.linking_right (node a c z f x) k' s' d' _ st tt e
        (kept.rotating_right (node a c z f x) k' s' d' b' k s d b st p)
  zig_right-kept Ordering.eq a' k' s' d' b' k s d b st e h p =
      kept.linking_right _ k s d b st tt h p
  zig_right-kept Ordering.gt a' k' s' d' b' k s d b st e h p =
      kept.linking_right _ k s d b st tt h p

  zig_left-kept :
      (o : Ordering) (a : SplayTree A) (k s : ℕ) (d : A) (a' : SplayTree A) (k' s' : ℕ) (d' : A)
      (b' : SplayTree A) (st : Splaying A)
      → compare_keys i k' ≡ o
      → compare_keys i k ≡ Ordering.gt
      → P (record st { root = node a k s d (node a' k' s' d' b') })
      → After P (zig_left o a k s d a' k' s' d' b' st)
  unfolding zig_left rotated_left
  zig_left-kept Ordering.gt a k s d a' k' s' d' null st e h p =
      kept.rotating_left a k s d a' k' s' d' null st p
  zig_left-kept Ordering.gt a k s d a' k' s' d' (node x c z f y) st e h p =
      kept.linking_left _ k' s' d' (node x c z f y) st tt e
        (kept.rotating_left a k s d a' k' s' d' (node x c z f y) st p)
  zig_left-kept Ordering.eq a k s d a' k' s' d' b' st e h p = kept.linking_left a k s d _ st tt h p
  zig_left-kept Ordering.lt a k s d a' k' s' d' b' st e h p = kept.linking_left a k s d _ st tt h p

  turn_by-kept :
      (o : Ordering) (a : SplayTree A) (k s : ℕ) (d : A) (b : SplayTree A) (st : Splaying A)
      → compare_keys i k ≡ o
      → P (record st { root = node a k s d b })
      → After P (turn_by o i a k s d b st)
  unfolding turn_by turn_left turn_right
  turn_by-kept Ordering.lt null k s d b st h p = p
  turn_by-kept Ordering.lt (node a' k' s' d' b') k s d b st h p =
      zig_right-kept (compare_keys i k') a' k' s' d' b' k s d b st refl h p
  turn_by-kept Ordering.eq a k s d b st h p = p
  turn_by-kept Ordering.gt a k s d null st h p = p
  turn_by-kept Ordering.gt a k s d (node a' k' s' d' b') st h p =
      zig_left-kept (compare_keys i k') a k s d a' k' s' d' b' st refl h p

  pub turn-kept :
      (t : SplayTree A) (st : Splaying A) → P (record st { root = t }) → After P (turn i t st)
  unfolding turn
  turn-kept null st p = p
  turn-kept (node a k s d b) st p = turn_by-kept (compare_keys i k) a k s d b st refl p

  by_turn :
      (rounds : ℕ) (u : Turn A)
      → ((st : Splaying A) → P st → P (splay_loop rounds i st))
      → After P u
      → P (elim u [ broke st' ↦ st' | again st' ↦ splay_loop rounds i st' ])
  by_turn rounds (broke st') rest p = p
  by_turn rounds (again st') rest p = rest st' p

  -- What every link and rotation keeps holds after the loop.
  pub splay_loop-kept : (rounds : ℕ) (st : Splaying A) → P st → P (splay_loop rounds i st)
  unfolding splay_loop
  splay_loop-kept zero st p = p
  splay_loop-kept (suc rounds) st p =
      by_turn rounds (turn i st.root st) (splay_loop-kept rounds) (turn-kept st.root st p)

-- The tests by which the loop is left: the key is found, or the child on its side is null.
pub data IsEnd {ℓ} {A : Type ℓ} (i : ℕ) : SplayTree A → Type ℓ where
  found :
      {a : SplayTree A} {k s : ℕ} {d : A} {b : SplayTree A}
      → compare_keys i k ≡ Ordering.eq
      → IsEnd i (node a k s d b)
  left_end :
      {k s : ℕ} {d : A} {b : SplayTree A}
      → compare_keys i k ≡ Ordering.lt
      → IsEnd i (node null k s d b)
  right_end :
      {a : SplayTree A} {k s : ℕ} {d : A}
      → compare_keys i k ≡ Ordering.gt
      → IsEnd i (node a k s d null)

module _ {ℓ} {A : Type ℓ} where
  -- What a round that does not end the loop takes off, and where one that does stops.
  abbrev Goes : ℕ → ℕ → Turn A → Type ℓ
  Goes i n (broke st) = IsEnd i st.root
  Goes i n (again st) = Unit × IsNode st.root × (count st.root < n)

  zig_right-Goes :
      (i : ℕ) (o : Ordering) (a' : SplayTree A) (k' s' : ℕ) (d' : A) (b' : SplayTree A) (k s : ℕ)
      (d : A) (b : SplayTree A) (st : Splaying A)
      → compare_keys i k' ≡ o
      → Goes i (count (node (node a' k' s' d' b') k s d b)) (zig_right o a' k' s' d' b' k s d b st)
  unfolding zig_right rotated_right link_right
  zig_right-Goes i Ordering.lt null k' s' d' b' k s d b st e = left_end e
  zig_right-Goes i Ordering.lt (node a c z f x) k' s' d' b' k s d b st e = (tt, tt, omega arith)
  zig_right-Goes i Ordering.eq a' k' s' d' b' k s d b st e = (tt, tt, omega arith)
  zig_right-Goes i Ordering.gt a' k' s' d' b' k s d b st e = (tt, tt, omega arith)

  zig_left-Goes :
      (i : ℕ) (o : Ordering) (a : SplayTree A) (k s : ℕ) (d : A) (a' : SplayTree A) (k' s' : ℕ)
      (d' : A) (b' : SplayTree A) (st : Splaying A)
      → compare_keys i k' ≡ o
      → Goes i (count (node a k s d (node a' k' s' d' b'))) (zig_left o a k s d a' k' s' d' b' st)
  unfolding zig_left rotated_left link_left
  zig_left-Goes i Ordering.gt a k s d a' k' s' d' null st e = right_end e
  zig_left-Goes i Ordering.gt a k s d a' k' s' d' (node x c z f y) st e = (tt, tt, omega arith)
  zig_left-Goes i Ordering.eq a k s d a' k' s' d' b' st e = (tt, tt, omega arith)
  zig_left-Goes i Ordering.lt a k s d a' k' s' d' b' st e = (tt, tt, omega arith)

  turn_by-Goes :
      (i : ℕ) (o : Ordering) (a : SplayTree A) (k s : ℕ) (d : A) (b : SplayTree A) (st : Splaying A)
      → compare_keys i k ≡ o
      → Goes i (count (node a k s d b)) (turn_by o i a k s d b st)
  unfolding turn_by turn_left turn_right
  turn_by-Goes i Ordering.lt null k s d b st h = left_end h
  turn_by-Goes i Ordering.lt (node a' k' s' d' b') k s d b st h =
      zig_right-Goes i (compare_keys i k') a' k' s' d' b' k s d b st refl
  turn_by-Goes i Ordering.eq a k s d b st h = found h
  turn_by-Goes i Ordering.gt a k s d null st h = right_end h
  turn_by-Goes i Ordering.gt a k s d (node a' k' s' d' b') st h =
      zig_left-Goes i (compare_keys i k') a k s d a' k' s' d' b' st refl

  turn-Goes :
      (i : ℕ) (t : SplayTree A) (st : Splaying A) → IsNode t → Goes i (count t) (turn i t st)
  unfolding turn
  turn-Goes i null st h = absurd h
  turn-Goes i (node a k s d b) st h = turn_by-Goes i (compare_keys i k) a k s d b st refl

  IsEnd-by_turn :
      (rounds i n : ℕ) (u : Turn A)
      → n ≤ suc rounds
      → ((st : Splaying A)
          → IsNode st.root
          → count st.root ≤ rounds
          → IsEnd i (splay_loop rounds i st).root)
      → Goes i n u
      → IsEnd i (Splaying.root (elim u [ broke st' ↦ st' | again st' ↦ splay_loop rounds i st' ]))
  IsEnd-by_turn rounds i n (broke st') le rest g = g
  IsEnd-by_turn rounds i n (again st') le rest g = rest st' g.1 (omega (arith, g.2))

  -- With as many rounds as the tree has nodes the loop of the splay is left by one of its tests.
  pub splay_loop-IsEnd :
      (rounds i : ℕ) (st : Splaying A)
      → IsNode st.root
      → count st.root ≤ rounds
      → IsEnd i (splay_loop rounds i st).root
  unfolding splay_loop
  splay_loop-IsEnd zero i st h le = absurd (no_rounds st.root h le)
    where
      no_rounds : (t : SplayTree A) → IsNode t → count t ≤ 0 → ⊥
      no_rounds null h le = h
      no_rounds (node l k s d r) h le = omega arith
  splay_loop-IsEnd (suc rounds) i st h le =
      IsEnd-by_turn rounds i (count st.root) (turn i st.root st) le (splay_loop-IsEnd rounds i)
        (turn-Goes i st.root st h)
