-- ===== src/SplayTree/Order.antt =====
-- splaytree.c: the order of the keys. Keys are non-negative `int`s, as `utiltool::hash` makes them;
-- their differences do not overflow, so `compare` orders them.
use Prim.Native.Nat.{Ordering}
use seda_framework.Base.{
  ℕ, ◌^◌, ◌<◌, ◌≡◌, List, [], ◌∷◌, ◌++◌, arith, All, All-append, All-split, All-imp,
}
use seda_framework.SplayTree.{compare_keys}

-- A non-negative `int`.
abbrev pub IsKey : ℕ → Type 0
IsKey k = k < 2 ^ 31

pub compare_keys-lt : (i j : ℕ) → IsKey i → IsKey j → compare_keys i j ≡ Ordering.lt → i < j
unfolding compare_keys
compare_keys-lt i j hi hj e = ground arith

pub compare_keys-gt : (i j : ℕ) → IsKey i → IsKey j → compare_keys i j ≡ Ordering.gt → j < i
unfolding compare_keys
compare_keys-gt i j hi hj e = ground arith

pub compare_keys-eq : (i j : ℕ) → IsKey i → IsKey j → compare_keys i j ≡ Ordering.eq → i ≡ j
unfolding compare_keys
compare_keys-eq i j hi hj e = ground arith

pub compare_keys_refl : (i : ℕ) → IsKey i → compare_keys i i ≡ Ordering.eq
unfolding compare_keys
compare_keys_refl i hi = ground arith

module _ {ℓ} {A : Type ℓ} where
  abbrev pub AllBelow : ℕ → List (ℕ × A) → Type 0
  AllBelow i = All (λ e. e.0 < i)

  abbrev pub AllAbove : ℕ → List (ℕ × A) → Type 0
  AllAbove i = All (λ e. i < e.0)

  abbrev pub AllKeys : List (ℕ × A) → Type 0
  AllKeys = All (λ e. IsKey e.0)

  -- Strictly rising keys.
  abbrev pub IsSorted : List (ℕ × A) → Type 0
  IsSorted [] = Unit
  IsSorted (e ∷ es) = AllAbove e.0 es × IsSorted es

  pub IsSorted-split :
      (xs : List (ℕ × A)) (k : ℕ) (d : A) (ys : List (ℕ × A))
      → IsSorted (xs ++ (k, d) ∷ ys)
      → IsSorted xs × AllBelow k xs × AllAbove k ys × IsSorted ys
  IsSorted-split [] k d ys h = (tt, tt, h.0, h.1)
  IsSorted-split (x ∷ xs) k d ys h =
      let (s, b, a, t) = IsSorted-split xs k d ys h.1 in
      let (above, here) = All-split (λ e. x.0 < e.0) xs ((k, d) ∷ ys) h.0 in
      ((above, s), (here.0, b), a, t)

  pub IsSorted-join :
      (xs : List (ℕ × A)) (k : ℕ) (d : A) (ys : List (ℕ × A))
      → IsSorted xs
      → AllBelow k xs
      → AllAbove k ys
      → IsSorted ys
      → IsSorted (xs ++ (k, d) ∷ ys)
  IsSorted-join [] k d ys s b a t = (a, t)
  IsSorted-join (x ∷ xs) k d ys s b a t = (
    All-append _ xs ((k, d) ∷ ys) s.0 (b.0, All-imp (λ e h. omega arith) ys a),
    IsSorted-join xs k d ys s.1 b.1 a t,
  )
