-- ===== src/SplayTree/Tests.antt =====
-- Runs of splaytree.c on small trees, and the theorems on them.
use Prim.Native.Nat.{Ordering}
use seda_framework.Base.{ℕ, ◌^◌, ◌≡◌, refl, List, [], ◌∷◌, arith}
use seda_framework.SplayTree.Rounds.{IsEnd, splay_loop-IsEnd}
use seda_framework.SplayTree.Content.{entries}
use seda_framework.SplayTree.Sizes.{IsSized}
use seda_framework.SplayTree.Order.{AllKeys, IsSorted}
use seda_framework.SplayTree.History.{Call, inserts, deletes, run, run-null, IsMap}
use seda_framework.SplayTree.{
  SplayTree, null, node, compare_keys, start, splaytree_splay, splaytree_insert, splaytree_delete,
  splay_loop,
}

-- The tree of test/src/test_splaytree.cpp after its three insertions.
abbrev three : SplayTree ℕ
three = node (node (node null 1001 1 1 null) 1002 2 2 null) 1003 3 3 null

three_inserted :
    splaytree_insert (splaytree_insert (splaytree_insert null 1001 1) 1002 2) 1003 3 ≡ three
unfolding splaytree_insert
three_inserted = refl

three_splayed :
    splaytree_splay three 1002 ≡ node (node null 1001 1 1 null) 1002 3 2 (node null 1003 1 3 null)
unfolding splaytree_splay
three_splayed = refl

three_deleted : splaytree_delete three 1002 ≡ node null 1001 2 1 (node null 1003 1 3 null)
unfolding splaytree_delete
three_deleted = refl

-- The difference of the least and a positive `int` overflows: the sign comes out positive.
least_is_above : compare_keys (2 ^ 31) 1 ≡ Ordering.gt
unfolding compare_keys
least_is_above = refl

three-IsSorted : IsSorted (entries three)
three-IsSorted = omega arith

three-AllKeys : AllKeys (entries three)
three-AllKeys = omega arith

three-IsSized : IsSized three
three-IsSized = omega arith

splay_loop-IsEnd_example : IsEnd 1001 (splay_loop 3 1001 (start three)).root
splay_loop-IsEnd_example = splay_loop-IsEnd 3 1001 (start three) tt (omega arith)

abbrev history : List (Call ℕ)
history = inserts 5 1 ∷ inserts 3 2 ∷ deletes 5 ∷ []

run-null_example : (entries (run null history) ≡ (3, 2) ∷ []) × IsMap (run null history)
run-null_example = run-null history (omega arith)
