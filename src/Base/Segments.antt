-- ===== src/Base/Segments.antt =====
-- Starts and ends of lists: taking and dropping at sums, at joints, and of replicated entries.
use Prim.Native.Nat.{ℕ, zero, suc, ◌+◌, ◌-◌, ◌≤◌}
use mathlib.Core.Path.{◌≡◌, refl, sym, ap, ◌∙◌}
use mathlib.Core.List.{List, [], ◌∷◌, ◌++◌}
use native.Mathlib.Omega.{arith}
use seda_framework.Base.Lists.{length, take, drop, replicate}

module _ {ℓ} {A : Type ℓ} where
  pub take-nil : (n : ℕ) → take {A = A} n [] ≡ []
  take-nil zero = refl
  take-nil (suc n) = refl

  pub take-add : (m n : ℕ) (xs : List A) → take (m + n) xs ≡ take m xs ++ take n (drop m xs)
  take-add zero n xs = let shape : 0 + n ≡ n = omega arith in ap (λ k. take k xs) shape
  take-add (suc m) n [] =
      let shape : suc m + n ≡ suc (m + n) = omega arith in rw shape (sym (take-nil n))
  take-add (suc m) n (x ∷ xs) =
      let shape : suc m + n ≡ suc (m + n) = omega arith in rw (shape, take-add m n xs) refl

  pub take_all : (n : ℕ) (xs : List A) → length xs ≤ n → take n xs ≡ xs
  take_all zero [] h = refl
  take_all zero (x ∷ xs) h = absurd (omega arith)
  take_all (suc n) [] h = refl
  take_all (suc n) (x ∷ xs) h = ap (◌∷◌ x) (take_all n xs (omega arith))

  pub drop_all : (n : ℕ) (xs : List A) → length xs ≤ n → drop n xs ≡ []
  drop_all zero [] h = refl
  drop_all zero (x ∷ xs) h = absurd (omega arith)
  drop_all (suc n) [] h = refl
  drop_all (suc n) (x ∷ xs) h = drop_all n xs (omega arith)

  pub take-append_le : (n : ℕ) (xs ys : List A) → n ≤ length xs → take n (xs ++ ys) ≡ take n xs
  take-append_le zero xs ys h = refl
  take-append_le (suc n) [] ys h = absurd (omega arith)
  take-append_le (suc n) (x ∷ xs) ys h = ap (◌∷◌ x) (take-append_le n xs ys (omega arith))

  pub take-append_ge :
      (n : ℕ) (xs ys : List A) → length xs ≤ n → take n (xs ++ ys) ≡ xs ++ take (n - length xs) ys
  take-append_ge n [] ys h = let shape : n ≡ n - 0 = omega arith in ap (λ k. take k ys) shape
  take-append_ge zero (x ∷ xs) ys h = absurd (omega arith)
  take-append_ge (suc n) (x ∷ xs) ys h =
      let shape : n - length xs ≡ suc n - suc (length xs) = omega arith in
      ap (◌∷◌ x) (take-append_ge n xs ys (omega arith) ∙ ap (λ k. xs ++ take k ys) shape)

  pub take-take : (m n : ℕ) (xs : List A) → m ≤ n → take m (take n xs) ≡ take m xs
  take-take zero n xs h = refl
  take-take (suc m) zero xs h = absurd (omega arith)
  take-take (suc m) (suc n) [] h = refl
  take-take (suc m) (suc n) (x ∷ xs) h = ap (◌∷◌ x) (take-take m n xs (omega arith))

  pub take-replicate : (m n : ℕ) (a : A) → m ≤ n → take m (replicate n a) ≡ replicate m a
  take-replicate zero n a h = refl
  take-replicate (suc m) zero a h = absurd (omega arith)
  take-replicate (suc m) (suc n) a h = ap (◌∷◌ a) (take-replicate m n a (omega arith))

  pub drop-replicate : (n m : ℕ) (a : A) → drop n (replicate m a) ≡ replicate (m - n) a
  drop-replicate zero m a = let shape : m ≡ m - 0 = omega arith in ap (λ k. replicate k a) shape
  drop-replicate (suc n) zero a =
      let shape : 0 ≡ 0 - suc n = omega arith in ap (λ k. replicate k a) shape
  drop-replicate (suc n) (suc m) a =
      let shape : m - n ≡ suc m - suc n = omega arith in
      drop-replicate n m a ∙ ap (λ k. replicate k a) shape

  pub replicate-add :
      (m n k : ℕ) (a : A) → m + n ≡ k → replicate m a ++ replicate n a ≡ replicate k a
  replicate-add zero n k a e = let shape : n ≡ k = omega (arith, e) in ap (λ j. replicate j a) shape
  replicate-add (suc m) n zero a e = absurd (omega (arith, e))
  replicate-add (suc m) n (suc k) a e = ap (◌∷◌ a) (replicate-add m n k a (omega (arith, e)))
