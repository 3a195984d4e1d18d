-- ===== src/UtilTools/Tests.antt =====
-- A run of the string hash, and the theorem on it.
use seda_framework.Base.{◌+◌, ◌*◌, ◌%◌, ◌^◌, ◌≡◌, refl, [], ◌∷◌}
use seda_framework.SplayTree.Order.{IsKey}
use seda_framework.UtilTools.{hash}
use seda_framework.UtilTools.Hash.{polynomial, hash-polynomial}

hash_ab : hash (b'a' ∷ b'b' ∷ []) 2 ≡ 65599 * 97 + 98
unfolding hash
hash_ab = refl

hash-polynomial_example :
    (hash (b'/' ∷ 200 ∷ []) 2 ≡ polynomial (b'/' ∷ 200 ∷ []) 0 % 2 ^ 31)
    × IsKey (hash (b'/' ∷ 200 ∷ []) 2)
hash-polynomial_example = hash-polynomial (b'/' ∷ 200 ∷ []) 2
