-- ===== src/Config/Lines.antt =====
-- config.cpp: lines as fgets gives them, and the bound on the rounds of the loop.
use seda_framework.Base.{
  ℕ, zero, suc, ◌≤◌, ◌<◌, ◌≡◌, ◌≢◌, refl, inl, inr, Option, some, List, [], ◌∷◌, ◌++◌, length, All,
  Bool-cases, ◌==◌, arith,
}
use seda_framework.Base.Memory.{shown, NoZero}
use seda_framework.Base.Dictionary.{Text}
use seda_framework.Config.{
  fgets, Parsing, Outcome, crashed, exited, goes_on, config_line, finish, then_read, config_loop,
  start, read_config,
}

-- A line that fits is read with its line feed.
pub fgets_line :
    (n : ℕ) (line rest : List ℕ)
    → All (λ c. c ≢ 10) line
    → length line < n
    → fgets n (line ++ 10 ∷ rest) ≡ (line ++ 10 ∷ [], rest)
unfolding fgets
fgets_line zero line rest h lt = absurd (omega arith)
fgets_line (suc n) [] rest h lt = refl
fgets_line (suc n) (c ∷ line) rest h lt = ground (arith, fgets_line n line rest h.1 (omega arith))

-- Something is read of a file that has not ended.
fgets-shorter : (n : ℕ) (file : List ℕ) → length (fgets n file).1 ≤ length file
unfolding fgets
fgets-shorter zero file = omega arith
fgets-shorter (suc n) [] = omega arith
fgets-shorter (suc n) (c ∷ file) = elim (Bool-cases (c == 10)) [
  | inl ends ↦ rw ends (omega arith)
  | inr goes ↦ rw goes (omega (arith, fgets-shorter n file))
]

fgets-reads : (n : ℕ) (c : ℕ) (file : List ℕ) → length (fgets (suc n) (c ∷ file)).1 ≤ length file
unfolding fgets
fgets-reads n c file = elim (Bool-cases (c == 10)) [
  | inl ends ↦ rw ends (omega arith)
  | inr goes ↦ rw goes (fgets-shorter n file)
]

below : (a b m : ℕ) → a ≤ b → suc b < suc m → a < m
below a b m le lt = omega arith

then_read-ext :
    (o : Outcome) (f g : Parsing → Option Outcome)
    → ((c : Parsing) → f c ≡ g c)
    → then_read o f ≡ then_read o g
then_read-ext crashed f g h = refl
then_read-ext exited f g h = refl
then_read-ext (goes_on c) f g h = h c

-- With more rounds than the file has bytes the loop ends, and further rounds change nothing.
pub config_loop_enough :
    (m n : ℕ) (file : List ℕ) (c : Parsing)
    → length file < m
    → length file < n
    → config_loop m file c ≡ config_loop n file c
unfolding config_loop
config_loop_enough zero n file c hm hn = absurd (omega arith)
config_loop_enough (suc m) zero file c hm hn = absurd (omega arith)
config_loop_enough (suc m) (suc n) [] c hm hn = refl
config_loop_enough (suc m) (suc n) (b ∷ file) c hm hn =
    let shorter = fgets-reads 254 b file in
    then_read-ext (config_line (shown (fgets 255 (b ∷ file)).0) c) _ _ (λ c'.
      config_loop_enough m n (fgets 255 (b ∷ file)).1 c' (below _ _ m shorter hm)
        (below _ _ n shorter hn))

then_read-some :
    (o : Outcome) (f : Parsing → Option Outcome)
    → ((c : Parsing) → (r : Outcome) × (f c ≡ some r))
    → (r : Outcome) × (then_read o f ≡ some r)
then_read-some crashed f h = (crashed, refl)
then_read-some exited f h = (exited, refl)
then_read-some (goes_on c) f h = h c

config_loop-some :
    (n : ℕ) (file : List ℕ) (c : Parsing)
    → length file < n
    → (r : Outcome) × (config_loop n file c ≡ some r)
unfolding config_loop
config_loop-some zero file c h = absurd (omega arith)
config_loop-some (suc n) [] c h = (finish c, refl)
config_loop-some (suc n) (b ∷ file) c h =
    let shorter = fgets-reads 254 b file in
    then_read-some (config_line (shown (fgets 255 (b ∷ file)).0) c) _
      (λ c'. config_loop-some n (fgets 255 (b ∷ file)).1 c' (below _ _ n shorter h))

-- The parser that stands behind the constructor's return ends on every file: in a crash, in exit(-1), or with the stages.
pub read_config-some : (file : List ℕ) → (r : Outcome) × (read_config file ≡ some r)
unfolding read_config
read_config-some file = config_loop-some (suc (length file)) file start (omega arith)

visible_line : (line : Text) → NoZero line → shown (line ++ 10 ∷ []) ≡ line ++ 10 ∷ []
visible_line [] h = refl
visible_line (c ∷ line) h = ground (arith, visible_line line h.1)

-- A round on a line that fits.
pub config_loop_line :
    (n : ℕ) (line rest : List ℕ) (c : Parsing)
    → All (λ b. b ≢ 10) line
    → NoZero line
    → length line < 255
    → config_loop (suc n) (line ++ 10 ∷ rest) c
      ≡ then_read (config_line (line ++ 10 ∷ []) c) (λ c'. config_loop n rest c')
unfolding config_loop
config_loop_line n [] rest c one_line zero_free fits = refl
config_loop_line n (b ∷ line) rest c one_line zero_free fits =
    rw (fgets_line 255 (b ∷ line) rest one_line fits, visible_line (b ∷ line) zero_free) refl
