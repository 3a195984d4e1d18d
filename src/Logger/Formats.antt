-- ===== src/Logger/Formats.antt =====
-- log.cpp, debug: how a line is formatted.
use seda_framework.Base.{
  ℕ, suc, ◌+◌, ◌-◌, ◌≤◌, ◌<◌, ◌≡◌, refl, ap, sym, ◌∙◌, ◌≢◌, Option, none, some, inl, inr, List, [],
  ◌∷◌, ◌++◌, length, take, drop, replicate, ltb, lt→ltb, Bool-cases, length-append, arith,
  All-append, append_assoc,
}
use seda_framework.Base.Segments.{take_all}
use seda_framework.Base.Memory.{
  ◌>>=◌, memcpy, memcpy_start, memcpy_beyond, c_string, c_string-append, NoZero,
}
use seda_framework.Base.Dictionary.{Text}
use seda_framework.Logger.{Logger, debug_head, write_log, debug_loop, debug_line, debug}

-- What the C library documents of vsnprintf when its format and arguments give `text`: as much as
-- fits in front of a zero byte, and the length of the whole.
abbrev pub Prints : (ℕ → Option (Text × ℕ)) → Text → Type 0
Prints vsnprintf text =
    (size : ℕ) → 0 < size → vsnprintf size ≡ some (take (size - 1) text, length text)

-- A round that has the space.
round_enough :
    (vsnprintf : ℕ → Option (Text × ℕ)) (text : Text) (rounds : ℕ) (size : ℕ)
    → Prints vsnprintf text
    → length text < size
    → debug_loop vsnprintf (suc rounds) size ≡ some (some text)
unfolding debug_loop
round_enough vsnprintf text rounds size p h =
    let all : take (size - 1) text ≡ text = take_all (size - 1) text (omega (arith, h)) in
    rw (p size (omega (arith, h)), lt→ltb (length text) size h, all) refl

-- The loop is left in its first or its second round, with the whole text, however long it is.
pub debug_loop_lem :
    (vsnprintf : ℕ → Option (Text × ℕ)) (text : Text) (rounds : ℕ)
    → Prints vsnprintf text
    → debug_loop vsnprintf (suc (suc rounds)) 100 ≡ some (some text)
unfolding debug_loop
debug_loop_lem vsnprintf text rounds p = elim (Bool-cases (ltb (length text) 100)) [
  | inl fits ↦ round_enough vsnprintf text (suc rounds) 100 p (ground arith)
  | inr long ↦
      rw (p 100 (omega arith), long)
        (round_enough vsnprintf text rounds (length text + 1) p (omega arith))
]

debug_head-NoZero : NoZero debug_head
debug_head-NoZero = (
  λ z. ground arith,
  (
    λ z. ground arith,
    (
      λ z. ground arith,
      (
        λ z. ground arith,
        (λ z. ground arith, (λ z. ground arith, (λ z. ground arith, (λ z. ground arith, tt)))),
      ),
    ),
  ),
)

debug_line_fits :
    (text : Text)
    → NoZero text
    → length text ≤ 118
    → debug_line text ≡ some (debug_head ++ text ++ 10 ∷ [])
unfolding debug_line
debug_line_fits text nz h =
    let line : Text = debug_head ++ text ++ 10 ∷ [] in
    let line_nz : NoZero line =
      All-append (λ c. c ≢ 0) debug_head (text ++ 10 ∷ []) debug_head-NoZero
        (All-append (λ c. c ≢ 0) text (10 ∷ []) nz (λ z. ground arith, tt)) in
    let bytes : List ℕ = debug_head ++ text ++ 10 ∷ 0 ∷ [] in
    let rest : List ℕ = drop (length bytes) (replicate 128 0) in
    let copied : memcpy (replicate 128 0) 0 bytes ≡ some (bytes ++ rest) =
      memcpy_start (replicate 128 0) bytes
        (omega (arith, h, length-append {A = ℕ} text (10 ∷ 0 ∷ []))) in
    let same : bytes ++ rest ≡ line ++ 0 ∷ rest =
      ap (◌++◌ debug_head)
        (append_assoc text (10 ∷ 0 ∷ []) rest ∙ sym (append_assoc text (10 ∷ []) (0 ∷ rest))) in
    ap (λ m. m >>= c_string) copied ∙ ap c_string same ∙ c_string-append line rest line_nz

debug_line_beyond : (text : Text) → 118 < length text → debug_line text ≡ none
unfolding debug_line
debug_line_beyond text h =
    ap (λ m. m >>= c_string)
      (memcpy_beyond (replicate 128 0) 0 (debug_head ++ text ++ 10 ∷ 0 ∷ [])
        (omega (arith, h, length-append {A = ℕ} text (10 ∷ 0 ∷ []))))

-- A line of at most 118 bytes, none of them zero, is handed to write_log whole, with the word DEBUG, a
-- colon and spaces in front and a line feed behind, after at most two rounds of the loop.
pub debug_lem :
    (vsnprintf : ℕ → Option (Text × ℕ)) (text : Text) (s : Logger)
    → Prints vsnprintf text
    → NoZero text
    → length text ≤ 118
    → debug vsnprintf 2 s ≡ write_log (debug_head ++ text ++ 10 ∷ []) s
unfolding debug
debug_lem vsnprintf text s p nz h =
    rw (debug_loop_lem vsnprintf text 0 p, debug_line_fits text nz h) refl

-- A longer line overflows `buf` in debug, however it was formatted.
pub debug-overflow :
    (vsnprintf : ℕ → Option (Text × ℕ)) (text : Text) (s : Logger)
    → Prints vsnprintf text
    → 118 < length text
    → debug vsnprintf 2 s ≡ none
unfolding debug
debug-overflow vsnprintf text s p h =
    rw (debug_loop_lem vsnprintf text 0 p, debug_line_beyond text h) refl
