-- ===== src/Base/Results.antt =====
-- What holds of the result of a function that returns an Option, where there is one.
use seda_framework.Base.Tests.{if◌then◌else◌}
use seda_framework.Base.Memory.{◌>>=◌}
use mathlib.Core.Path.{◌≡◌, refl}
use mathlib.Core.Bool.{Bool, true, false}
use mathlib.Core.Option.{Option, none, some}

-- A result that is there satisfies `P`.
abbrev pub Gives {ℓ κ} : {A : Type ℓ} → (A → Type κ) → Option A → Type κ
Gives P none = Unit
Gives P (some a) = P a

pub Gives-bind {ℓ κ μ ν} :
    {A : Type ℓ} {B : Type κ} (P : A → Type μ) (Q : B → Type ν) (o : Option A) (f : A → Option B)
    → Gives P o
    → ((a : A) → P a → Gives Q (f a))
    → Gives Q (o >>= f)
Gives-bind P Q none f h g = tt
Gives-bind P Q (some a) f h g = g a h

pub Gives-any {ℓ} : {A : Type ℓ} (o : Option A) → Gives (λ _. Unit {0}) o
Gives-any none = tt
Gives-any (some a) = tt

pub Gives-if {ℓ κ} :
    {A : Type ℓ} (P : A → Type κ) (b : Bool) (x y : Option A)
    → Gives P x
    → Gives P y
    → Gives P (if b then x else y)
Gives-if P true x y hx hy = hx
Gives-if P false x y hx hy = hy

pub Gives-each {ℓ κ} :
    {A : Type ℓ} (P : A → Type κ) (o : Option A) → ((a : A) → o ≡ some a → P a) → Gives P o
Gives-each P none h = tt
Gives-each P (some a) h = h a refl

-- A test whose outcome the branch relies on.
pub Gives-when {ℓ κ} :
    {A : Type ℓ} (P : A → Type κ) (b : Bool) (x y : Option A)
    → (b ≡ true → Gives P x)
    → Gives P y
    → Gives P (if b then x else y)
Gives-when P true x y hx hy = hx refl
Gives-when P false x y hx hy = hy
