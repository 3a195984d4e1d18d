-- ===== src/Base/Texts.antt =====
-- Texts compared and split at a byte, as memcmp, strchr, strstr, strsep and std::string::find are used.
use seda_framework.Base.Tests.{◌==◌, if◌then◌else◌}
use seda_framework.Base.Lists.{All}
use seda_framework.Base.Memory.{◌>>=◌}
use seda_framework.Base.Dictionary.{Text}
use Prim.Native.Nat.{ℕ}
use mathlib.Core.Path.{◌≡◌, refl}
use mathlib.Core.Logic.{◌≢◌}
use mathlib.Core.Bool.{Bool, true, false, ◌&&◌}
use mathlib.Core.List.{List, [], ◌∷◌, ◌++◌}
use mathlib.Core.Option.{Option, none, some}
use native.Mathlib.Omega.{arith}

-- memcmp(block, prefix, length of prefix) == 0
unfoldable pub starts_with : List ℕ → List ℕ → Bool
starts_with [] block = true
starts_with (p ∷ ps) [] = false
starts_with (p ∷ ps) (b ∷ bs) = p == b && starts_with ps bs

-- What stands before and after the first byte `c`, if there is one.
unfoldable pub split_once : ℕ → Text → Option (Text × Text)
split_once c [] = none
split_once c (b ∷ bs) =
    if b == c then some ([], bs) else split_once c bs >>= λ r. some (b ∷ r.0, r.1)

pub split_once_lem :
    (c : ℕ) (k v : Text) → All (λ b. b ≢ c) k → split_once c (k ++ c ∷ v) ≡ some (k, v)
unfolding split_once
split_once_lem c [] v h = ground arith
split_once_lem c (b ∷ k) v h = ground (arith, split_once_lem c k v h.1)

pub split_once-none : (c : ℕ) (k : Text) → All (λ b. b ≢ c) k → split_once c k ≡ none
unfolding split_once
split_once-none c [] h = refl
split_once-none c (b ∷ k) h = ground (arith, split_once-none c k h.1)

pub starts_with-append : (ps rest : List ℕ) → starts_with ps (ps ++ rest) ≡ true
unfolding starts_with
starts_with-append [] rest = refl
starts_with-append (p ∷ ps) rest = ground (arith, starts_with-append ps rest)
