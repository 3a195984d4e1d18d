-- ===== src/Buffer/Tests.antt =====
-- Runs of the buffer, and the theorems on them.
use seda_framework.Base.{◌≡◌, refl, some, [], ◌∷◌, arith, ℕ, List}
use seda_framework.Buffer.{Buffer, push_back}
use seda_framework.Buffer.Growth.{IsBuffer, push_back-fits}

-- A buffer of two bytes.
abbrev two_bytes : Buffer
two_bytes = record { block = 0 ∷ 0 ∷ []; size = 2; len = 0 }

two_bytes-IsBuffer : IsBuffer two_bytes
two_bytes-IsBuffer = record { sized = refl; within = omega arith }

-- The second push writes over the first, and the length stays 0.
pushed_twice :
    (push_back (1 ∷ 2 ∷ []) two_bytes
      ≡ some (record { block = 1 ∷ 2 ∷ 0 ∷ 0 ∷ []; size = 4; len = 0 }))
unfolding push_back
pushed_twice = refl

pushed_over :
    push_back (3 ∷ []) (record { block = 1 ∷ 2 ∷ 0 ∷ 0 ∷ []; size = 4; len = 0 })
    ≡ some (record { block = 3 ∷ 2 ∷ 0 ∷ 0 ∷ []; size = 4; len = 0 })
unfolding push_back
pushed_over = refl

push_back-fits_example :
    (b' : Buffer) × (push_back (1 ∷ 2 ∷ 3 ∷ []) two_bytes ≡ some b')
    × IsBuffer b'
    × (b'.len ≡ 0)
    × (b'.size ≡ 4)
    × (rest : List ℕ) × (b'.block ≡ 1 ∷ 2 ∷ 3 ∷ rest)
push_back-fits_example =
    push_back-fits (1 ∷ 2 ∷ 3 ∷ []) two_bytes two_bytes-IsBuffer (omega arith) (omega arith)
