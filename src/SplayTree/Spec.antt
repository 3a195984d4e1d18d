-- ===== src/SplayTree/Spec.antt =====
-- The ordered map that a splay tree stands for: its entries by rising keys. splaytree.c is related
-- to it in `Search`, `Insert` and `Delete`.
use seda_framework.Base.{
  ℕ, ◌≡◌, refl, Option, none, some, List, [], ◌∷◌, ◌++◌, arith, if◌then◌else◌, ◌==◌, ltb,
}
use seda_framework.SplayTree.Order.{AllBelow, AllAbove}

module _ {ℓ} {A : Type ℓ} where
  abbrev pub lookup : ℕ → List (ℕ × A) → Option A
  lookup i [] = none
  lookup i (e ∷ es) = if e.0 == i then some e.1 else lookup i es

  -- A key that is there keeps its data.
  abbrev pub insert_new : ℕ → A → List (ℕ × A) → List (ℕ × A)
  insert_new i d [] = (i, d) ∷ []
  insert_new i d (e ∷ es) =
      if ltb i e.0 then (i, d) ∷ e ∷ es else if e.0 == i then e ∷ es else e ∷ insert_new i d es

  abbrev pub erase_key : ℕ → List (ℕ × A) → List (ℕ × A)
  erase_key i [] = []
  erase_key i (e ∷ es) = if e.0 == i then es else e ∷ erase_key i es

  pub lookup-append :
      (i : ℕ) (xs ys : List (ℕ × A)) → AllBelow i xs → lookup i (xs ++ ys) ≡ lookup i ys
  lookup-append i [] ys h = refl
  lookup-append i (x ∷ xs) ys h = ground (arith, lookup-append i xs ys h.1)

  pub lookup-AllAbove : (i : ℕ) (xs : List (ℕ × A)) → AllAbove i xs → lookup i xs ≡ none
  lookup-AllAbove i [] h = refl
  lookup-AllAbove i (x ∷ xs) h = ground (arith, lookup-AllAbove i xs h.1)

  pub insert_new-append :
      (i : ℕ) (d : A) (xs ys : List (ℕ × A))
      → AllBelow i xs
      → insert_new i d (xs ++ ys) ≡ xs ++ insert_new i d ys
  insert_new-append i d [] ys h = refl
  insert_new-append i d (x ∷ xs) ys h = ground (arith, insert_new-append i d xs ys h.1)

  pub insert_new-AllAbove :
      (i : ℕ) (d : A) (xs : List (ℕ × A)) → AllAbove i xs → insert_new i d xs ≡ (i, d) ∷ xs
  insert_new-AllAbove i d [] h = refl
  insert_new-AllAbove i d (x ∷ xs) h = ground arith

  pub erase_key-append :
      (i : ℕ) (xs ys : List (ℕ × A)) → AllBelow i xs → erase_key i (xs ++ ys) ≡ xs ++ erase_key i ys
  erase_key-append i [] ys h = refl
  erase_key-append i (x ∷ xs) ys h = ground (arith, erase_key-append i xs ys h.1)

  pub erase_key-AllAbove : (i : ℕ) (xs : List (ℕ × A)) → AllAbove i xs → erase_key i xs ≡ xs
  erase_key-AllAbove i [] h = refl
  erase_key-AllAbove i (x ∷ xs) h = ground (arith, erase_key-AllAbove i xs h.1)
