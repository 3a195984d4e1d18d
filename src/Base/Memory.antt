-- ===== src/Base/Memory.antt =====
-- Bytes in memory: blocks as lists, copies with their bounds, and the C strings in them. A byte is a
-- number below 256. `none` stands for an access out of bounds, which C leaves undefined.
use seda_framework.Base.Tests.{leb, leb→le, Bool-cases, Option-cases, ◌==◌, if◌then◌else◌}
use seda_framework.Base.Lists.{
  length, take, drop, replicate, length-append, length-take, length-drop, take-append, drop-append,
  All,
}
use Prim.Native.Nat.{ℕ, zero, suc, ◌+◌, ◌≤◌, ◌<◌}
use mathlib.Core.Path.{◌≡◌, refl, sym, ap, ap₂, ◌∙◌, subst}
use mathlib.Core.Logic.{◌≢◌, inl, inr}
use mathlib.Core.List.{List, [], ◌∷◌, ◌++◌, append_assoc}
use mathlib.Core.Option.{Option, none, some, some-injective}
use native.Mathlib.Nat.{zero-add, suc-add}
use native.Mathlib.Omega.{arith}

infixl 5 ◌>>=◌ ◌>>◌
abbrev pub ◌>>=◌ {ℓ κ} : {A : Type ℓ} {B : Type κ} → Option A → (A → Option B) → Option B
none >>= f = none
some a >>= f = f a

abbrev pub ◌>>◌ {ℓ} : {B : Type ℓ} → Option (Unit {0}) → Option B → Option B
m >> k = m >>= λ _. k

-- memcpy(block + at, bytes, length of bytes)
unfoldable pub memcpy : List ℕ → ℕ → List ℕ → Option (List ℕ)
memcpy block at bytes =
    if leb (at + length bytes) (length block)
    then some (take at block ++ bytes ++ drop (at + length bytes) block)
    else none

-- The C string at the start of a block.
unfoldable pub c_string : List ℕ → Option (List ℕ)
c_string [] = none
c_string (c ∷ cs) = if c == 0 then some [] else c_string cs >>= λ rest. some (c ∷ rest)

-- `strlen` of a block's C string is the length of this; a C string holds no zero byte.
abbrev pub NoZero : List ℕ → Type 0
NoZero = All (λ c. c ≢ 0)

-- The C string at the start of a block that a zero byte follows.
abbrev pub shown : List ℕ → List ℕ
shown [] = []
shown (c ∷ cs) = if c == 0 then [] else c ∷ shown cs

pub shown-NoZero : (cs : List ℕ) → NoZero (shown cs)
shown-NoZero [] = tt
shown-NoZero (c ∷ cs) = elim (Bool-cases (c == 0)) [
  | inl ends ↦ rw ends tt
  | inr goes ↦ rw goes (λ z. ground arith, shown-NoZero cs)
]

pub length-shown : (cs : List ℕ) → length (shown cs) ≤ length cs
length-shown [] = omega arith
length-shown (c ∷ cs) = ground (arith, length-shown cs)

pub shown-text : (cs : List ℕ) → NoZero cs → shown cs ≡ cs
shown-text [] h = refl
shown-text (c ∷ cs) h = ground (arith, shown-text cs h.1)

pub c_string-NoZero : (block cs : List ℕ) → c_string block ≡ some cs → NoZero cs
unfolding c_string
c_string-NoZero [] cs e = absurd (cc)
c_string-NoZero (c ∷ block) cs e = elim (Bool-cases (c == 0)) [
  | inl ends ↦ subst NoZero (some-injective _ _ (rw ends at e)) tt
  | inr goes ↦ elim (Option-cases (c_string block)) [
    | inl bad ↦ absurd (cc (rw (goes, bad) at e))
    | inr (rest, good) ↦
        subst NoZero (some-injective _ _ (rw (goes, good) at e))
          (λ z. ground arith, c_string-NoZero block rest good)
  ]
]

pub c_string-append : (cs rest : List ℕ) → NoZero cs → c_string (cs ++ 0 ∷ rest) ≡ some cs
unfolding c_string
c_string-append [] rest h = refl
c_string-append (c ∷ cs) rest h = ground (arith, c_string-append cs rest h.1)

pub c_string-replicate :
    (cs : List ℕ) (n : ℕ) → NoZero cs → 0 < n → c_string (cs ++ replicate n 0) ≡ some cs
c_string-replicate cs zero h lt = absurd (omega arith)
c_string-replicate cs (suc n) h lt = c_string-append cs (replicate n 0) h

length-parts :
    (block : List ℕ) (at : ℕ) (bytes : List ℕ)
    → at + length bytes ≤ length block
    → length (take at block ++ bytes ++ drop (at + length bytes) block) ≡ length block
length-parts block at bytes h = omega (
  arith,
  length-append (take at block ++ bytes) (drop (at + length bytes) block),
  length-append (take at block) bytes,
  length-take at block,
  length-drop (at + length bytes) block,
)

pub length-memcpy :
    (block : List ℕ) (at : ℕ) (bytes : List ℕ) (block' : List ℕ)
    → memcpy block at bytes ≡ some block'
    → length block' ≡ length block
unfolding memcpy
length-memcpy block at bytes block' e = elim (Bool-cases (leb (at + length bytes) (length block))) [
  | inl fits ↦
      let same = some-injective _ _ (rw fits at e) in
      ap length (sym same) ∙ length-parts block at bytes (leb→le _ _ fits)
  | inr beyond ↦ absurd (cc (rw beyond at e))
]

pub memcpy_fits :
    (block : List ℕ) (at : ℕ) (bytes : List ℕ)
    → at + length bytes ≤ length block
    → memcpy block at bytes ≡ some (take at block ++ bytes ++ drop (at + length bytes) block)
unfolding memcpy
memcpy_fits block at bytes h = ground arith

pub memcpy_beyond :
    (block : List ℕ) (at : ℕ) (bytes : List ℕ)
    → length block < at + length bytes
    → memcpy block at bytes ≡ none
unfolding memcpy
memcpy_beyond block at bytes h = ground arith

-- A copy to the start of a block that is long enough.
pub memcpy_start :
    (block bytes : List ℕ)
    → length bytes ≤ length block
    → memcpy block 0 bytes ≡ some (bytes ++ drop (length bytes) block)
unfolding memcpy
memcpy_start block bytes h = ground (arith)

drop-nil : (n : ℕ) → drop {A = ℕ} n [] ≡ []
drop-nil zero = refl
drop-nil (suc n) = refl

pub drop-add : (m n : ℕ) (xs : List ℕ) → drop (m + n) xs ≡ drop n (drop m xs)
drop-add zero n xs = rw zero-add
drop-add (suc m) n [] = rw suc-add (sym (drop-nil n))
drop-add (suc m) n (x ∷ xs) = rw suc-add (drop-add m n xs)

-- A copy that begins after `before`.
pub memcpy_after :
    (before after bytes : List ℕ)
    → length bytes ≤ length after
    → memcpy (before ++ after) (length before) bytes
      ≡ some (before ++ (bytes ++ drop (length bytes) after))
memcpy_after before after bytes h =
    memcpy_fits (before ++ after) (length before) bytes (omega (arith, length-append before after))
    ∙ ap some (
        ap₂ (λ xs ys. xs ++ bytes ++ ys) (take-append before after) tail
        ∙ append_assoc before bytes (drop (length bytes) after))
  where
    tail : drop (length before + length bytes) (before ++ after) ≡ drop (length bytes) after
    tail =
        drop-add (length before) (length bytes) (before ++ after)
        ∙ ap (drop (length bytes)) (drop-append before after)

pub memcpy_over :
    (before : List ℕ) (old new : ℕ) (after : List ℕ)
    → memcpy (before ++ old ∷ after) (length before) (new ∷ []) ≡ some (before ++ new ∷ after)
memcpy_over before old new after = memcpy_after before (old ∷ after) (new ∷ []) (omega arith)
