-- ===== src/Base/Dictionary.antt =====
-- std::map from texts, as an association list. A text is the list of its bytes.
use seda_framework.Base.Tests.{◌==◌, if◌then◌else◌, Bool-cases, Option-cases}
use seda_framework.Base.Memory.{◌>>=◌}
use Prim.Native.Nat.{ℕ}
use mathlib.Core.Path.{◌≡◌, refl}
use mathlib.Core.Logic.{◌↔◌, inl, inr}
use mathlib.Core.Bool.{Bool, true, false, ◌&&◌}
use mathlib.Core.List.{List, [], ◌∷◌}
use mathlib.Core.Option.{Option, none, some}
use native.Mathlib.Omega.{arith}

abbrev pub Text : Type 0
Text = List ℕ

unfoldable pub text_eq : Text → Text → Bool
text_eq [] [] = true
text_eq (c ∷ cs) (d ∷ ds) = c == d && text_eq cs ds
text_eq _ _ = false

pub text_eq_iff : (cs ds : Text) → (text_eq cs ds ≡ true) ↔ (cs ≡ ds)
unfolding text_eq
text_eq_iff [] [] = (λ _. refl, λ _. refl)
text_eq_iff [] (d ∷ ds) = (λ e. cc, λ e. cc)
text_eq_iff (c ∷ cs) [] = (λ e. cc, λ e. cc)
text_eq_iff (c ∷ cs) (d ∷ ds) = ground (arith, text_eq_iff cs ds)

module _ {ℓ} {V : Type ℓ} where
  -- `find`: `none` is `end()`.
  unfoldable pub find : Text → List (Text × V) → Option V
  find k [] = none
  find k ((j, v) ∷ m) = if text_eq j k then some v else find k m

  -- `insert` of a pair: a key that is there keeps its value.
  unfoldable pub insert : Text → V → List (Text × V) → List (Text × V)
  insert k v [] = (k, v) ∷ []
  insert k v ((j, w) ∷ m) = if text_eq j k then (j, w) ∷ m else (j, w) ∷ insert k v m

  -- `m[k] = v`
  unfoldable pub assign : Text → V → List (Text × V) → List (Text × V)
  assign k v [] = (k, v) ∷ []
  assign k v ((j, w) ∷ m) = if text_eq j k then (j, v) ∷ m else (j, w) ∷ assign k v m

  -- `m[k]` read: a key that is not there is given the default value `d` first.
  unfoldable pub get : Text → V → List (Text × V) → V
  unfolding find
  get k d m = elim (find k m) [ none ↦ d | some v ↦ v ]

  -- `m.erase(m.find(k))`: `erase(end())` is undefined.
  unfoldable pub erase : Text → List (Text × V) → Option (List (Text × V))
  erase k [] = none
  erase k ((j, w) ∷ m) = if text_eq j k then some m else erase k m >>= λ rest. some ((j, w) ∷ rest)

  pub find-insert :
      (k j : Text) (v : V) (m : List (Text × V))
      → find j (insert k v m)
        ≡ elim (find k m) [ none ↦ if text_eq k j then some v else find j m | some w ↦ find j m ]
  unfolding find insert
  find-insert k j v [] = refl
  find-insert k j v ((i, w) ∷ m) =
      ground (arith, text_eq_iff k j, text_eq_iff i k, text_eq_iff i j, find-insert k j v m)

  pub find-assign :
      (k j : Text) (v : V) (m : List (Text × V))
      → find j (assign k v m) ≡ (if text_eq k j then some v else find j m)
  unfolding find assign
  find-assign k j v [] = refl
  find-assign k j v ((i, w) ∷ m) =
      ground (arith, text_eq_iff k j, text_eq_iff i k, text_eq_iff i j, find-assign k j v m)

  pub get-assign :
      (k j : Text) (d v : V) (m : List (Text × V))
      → get j d (assign k v m) ≡ (if text_eq k j then v else get j d m)
  unfolding get
  get-assign k j d v m = ground (arith, find-assign k j v m)

  -- Reading a missing key by `[]` leaves every later reading as it was.
  pub get-insert : (k j : Text) (d : V) (m : List (Text × V)) → get j d (insert k d m) ≡ get j d m
  unfolding get
  get-insert k j d m = ground (arith, find-insert k j d m, text_eq_iff k j)

  -- Erasing fails exactly on a key that is not there.
  pub erase-eq-none : (k : Text) (m : List (Text × V)) → (erase k m ≡ none) ↔ (find k m ≡ none)
  unfolding find erase
  erase-eq-none k [] = (λ _. refl, λ _. refl)
  erase-eq-none k ((i, w) ∷ m) = ground (arith, erase-eq-none k m)

  -- A key that is there keeps its value through `insert`, and through `erase` of another key.
  pub find-insert_kept :
      (k j : Text) (v w : V) (m : List (Text × V))
      → find j m ≡ some w
      → find j (insert k v m) ≡ some w
  find-insert_kept k j v w m e = ground (arith, find-insert k j v m, text_eq_iff k j)

  pub find-erase :
      (k j : Text) (m m' : List (Text × V))
      → text_eq k j ≡ false
      → erase k m ≡ some m'
      → find j m' ≡ find j m
  unfolding find erase
  find-erase k j [] m' away e = absurd (cc)
  find-erase k j ((i, w) ∷ m) m' away e = elim (Bool-cases (text_eq i k)) [
    | inl at_k ↦ ground (arith, text_eq_iff i k, text_eq_iff k j, text_eq_iff i j)
    | inr other ↦ elim (Option-cases (erase k m)) [
      | inl bad ↦ absurd (cc (rw (other, bad) at e))
      | inr (rest, good) ↦ ground (arith, find-erase k j m rest away good)
    ]
  ]
