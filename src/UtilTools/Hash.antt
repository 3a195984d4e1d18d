-- ===== src/UtilTools/Hash.antt =====
-- utiltools.cpp, utiltool::hash: what the shifts compute.
use seda_framework.Base.{
  ℕ, ◌+◌, ◌-◌, ◌*◌, ◌%◌, ◌^◌, ◌<◌, ◌≡◌, refl, ap, ◌∙◌, List, [], ◌∷◌, take, arith,
}
use seda_framework.UtilTools.{char32, hash_step, hash_loop, hash}
use seda_framework.SplayTree.Order.{IsKey}

-- The polynomial of the characters at 65599, first character first.
abbrev pub polynomial : List ℕ → ℕ → ℕ
polynomial [] h = h
polynomial (c ∷ str) h = polynomial str ((65599 * h + char32 c) % 2 ^ 32)

hash_step_lem : (h c : ℕ) → h < 2 ^ 32 → hash_step h c ≡ (65599 * h + char32 c) % 2 ^ 32
unfolding hash_step
hash_step_lem h c small =
    let step : (k : ℕ)
        → ((((k + h * 2 ^ 6 % 2 ^ 32) % 2 ^ 32 + h * 2 ^ 16 % 2 ^ 32) % 2 ^ 32 + 2 ^ 32 - h)
              % 2 ^ 32
            ≡ (65599 * h + k) % 2 ^ 32) =
      λ k. omega (arith, small) in
    step (char32 c)

hash_loop_lem : (str : List ℕ) (h : ℕ) → h < 2 ^ 32 → hash_loop str h ≡ polynomial str h
unfolding hash_loop
hash_loop_lem [] h small = refl
hash_loop_lem (c ∷ str) h small =
    let next = (65599 * h + char32 c) % 2 ^ 32 in
    ap (hash_loop str) (hash_step_lem h c small) ∙ hash_loop_lem str next (omega arith)

-- The hash of the first `len` characters is their polynomial at 65599 in 32-bit words, without the
-- top bit; so it is a non-negative `int`, for which the comparison of the splay tree does not overflow.
pub hash-polynomial :
    (str : List ℕ) (len : ℕ)
    → (hash str len ≡ polynomial (take len str) 0 % 2 ^ 31) × IsKey (hash str len)
unfolding hash
hash-polynomial str len =
    (ap (λ h. h % 2 ^ 31) (hash_loop_lem (take len str) 0 (omega arith)), omega arith)
