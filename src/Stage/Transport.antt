-- ===== src/Stage/Transport.antt =====
-- receiver.cpp and stage_handler.cpp: what becomes of a message between two stages.
use Prim.Native.Nat.{min}
use seda_framework.Base.{
  ℕ, suc, ◌+◌, ◌-◌, ◌≤◌, ◌<◌, ◌≡◌, refl, ap, ◌∙◌, inl, inr, false, Option, some, none, List, [],
  ◌∷◌, ◌++◌, length, length-append, length-take, length-replicate, take, take-append, drop,
  replicate, leb, leb→le, if◌then◌else◌, arith, Bool-cases, append_assoc, append-nil,
}
use seda_framework.Base.Segments.{
  drop_all, drop-replicate, replicate-add, take-append_le, take-append_ge, take-take,
  take-replicate, take_all,
}
use seda_framework.Base.Memory.{
  memcpy, memcpy_start, memcpy_fits, memcpy_beyond, length-memcpy, c_string, c_string-replicate,
  NoZero, shown, shown-NoZero, length-shown, shown-text,
}
use seda_framework.Base.Dictionary.{Text}
use seda_framework.Stage.{Element, before_zero, strncpy, new_element, receive, handler_func}

-- `before_zero` over a text that a zero byte or the bound ends.
before_zero-shown :
    (cs rest : List ℕ) → before_zero (suc (length cs)) (cs ++ 0 ∷ rest) ≡ some (shown cs)
unfolding before_zero
before_zero-shown [] rest = refl
before_zero-shown (c ∷ cs) rest = ground (arith, before_zero-shown cs rest)

before_zero-text : (cs rest : List ℕ) → NoZero cs → before_zero (length cs) (cs ++ rest) ≡ some cs
unfolding before_zero
before_zero-text [] rest h = refl
before_zero-text (c ∷ cs) rest h = ground (arith, before_zero-text cs rest h.1)

-- An element holds its text and zero bytes to the end.
new_element_lem :
    (ele : List ℕ) (n : ℕ) (cs : List ℕ)
    → before_zero n ele ≡ some cs
    → length cs ≤ n
    → n ≤ 256
    → new_element ele n
      ≡ some (record { element = cs ++ replicate (256 - length cs) 0; len = some n })
unfolding new_element strncpy
new_element_lem ele n cs e le h =
    let pad : List ℕ = replicate (n - length cs) 0 in
    let pad_len = length-replicate {A = ℕ} (n - length cs) 0 in
    let written_len : length (cs ++ pad) ≡ n = omega (arith, length-append cs pad, pad_len, le) in
    let zeros_len = length-replicate {A = ℕ} 256 0 in
    let copied =
      memcpy_start (replicate 256 0) (cs ++ pad) (omega (arith, written_len, zeros_len, h)) in
    let rest : drop {A = ℕ} (length (cs ++ pad)) (replicate 256 0) ≡ replicate (256 - n) 0 =
      ap (λ k. drop {A = ℕ} k (replicate 256 0)) written_len ∙ drop-replicate n 256 0 in
    let whole : cs ++ pad ++ replicate (256 - n) 0 ≡ cs ++ replicate (256 - length cs) 0 =
      append_assoc cs pad (replicate (256 - n) 0)
      ∙ ap (◌++◌ cs)
          (replicate-add (n - length cs) (256 - n) (256 - length cs) 0 (omega (arith, le, h))) in
    rw (e, copied, rest, whole) refl

short_message : (n : ℕ) → leb 256 n ≡ false → n ≤ 255
short_message n h = ground arith

counted : (m n : ℕ) → n ≡ min 255 m → (if leb 256 m then 255 else m) + 1 ≡ suc n
counted m n h = ground arith

-- The buffer of receiver::run after a message: what fits of it in front of a zero byte.
buffer_lem :
    (msg : List ℕ)
    → (filled rest : List ℕ) × (memcpy (replicate 256 0) 0 (take 256 msg) ≡ some filled)
      × (memcpy filled 255 (0 ∷ []) ≡ some (take 255 msg ++ 0 ∷ rest))
buffer_lem msg =
    let head = take 256 msg in
    let n = length head in
    let head_len = length-take 256 msg in
    let copied =
      memcpy_start (replicate 256 0) head
        (omega (arith, head_len, length-replicate {A = ℕ} 256 0)) in
    let filled = head ++ drop n (replicate 256 0) in
    let filled_len =
      length-memcpy (replicate 256 0) 0 head filled copied ∙ length-replicate {A = ℕ} 256 0 in
    let ended = memcpy_fits filled 255 (0 ∷ []) (omega (arith, filled_len)) in
    let nothing = drop_all 256 filled (omega (arith, filled_len)) in
    elim (Bool-cases (leb 256 (length msg))) [
      | inl long ↦
          let n_is : 255 ≤ n = omega (arith, head_len, leb→le 256 (length msg) long) in
          let front : take 255 filled ≡ take 255 msg =
            take-append_le 255 head (drop n (replicate 256 0)) n_is
            ∙ take-take 255 256 msg (omega arith) in
          (
            filled,
            [],
            copied,
            ended ∙ rw (front, nothing) (ap some (append-nil (take 255 msg ++ 0 ∷ []))),
          )
      | inr short ↦
          let small = short_message (length msg) short in
          let zeros : List ℕ = replicate (255 - length msg) 0 in
          let head_is : head ≡ msg = take_all 256 msg (omega (arith, small)) in
          let msg_is : take 255 msg ≡ msg = take_all 255 msg small in
          let back : take (255 - length msg) (drop (length msg) (replicate 256 0)) ≡ zeros =
            ap (take (255 - length msg)) (drop-replicate (length msg) 256 0)
            ∙ take-replicate (255 - length msg) (256 - length msg) 0 (omega arith) in
          let front : take 255 filled ≡ msg ++ zeros =
            ap (λ (h : List ℕ). take 255 (h ++ drop (length h) (replicate 256 0))) head_is
            ∙ take-append_ge 255 msg (drop (length msg) (replicate 256 0)) small
            ∙ ap (◌++◌ msg) back in
          let shape : 256 - length msg ≡ suc (255 - length msg) = omega (arith, small) in
          let one_more : zeros ++ 0 ∷ [] ≡ 0 ∷ zeros =
            replicate-add (255 - length msg) 1 (256 - length msg) 0 (omega (arith, small))
            ∙ ap (λ k. replicate k 0) shape in
          (
            filled,
            zeros,
            copied,
            ended
                ∙ rw (front, nothing, msg_is)
                    (ap some (
                      append-nil (msg ++ zeros ++ 0 ∷ [])
                      ∙ append_assoc msg zeros (0 ∷ [])
                      ∙ ap (◌++◌ msg) one_more)),
          )
    ]

-- A message that arrives at a stage is queued as the C string in its first 255 bytes, whatever its
-- length, with the count of bytes that were taken and one more, and with zero bytes to the end.
pub receive_lem :
    (msg : List ℕ)
    → (e : Element) × (receive msg ≡ some e)
      × (c_string e.element ≡ some (shown (take 255 msg)))
      × (e.len ≡ some (length (take 255 msg) + 1))
      × (e.element ≡ shown (take 255 msg) ++ replicate (256 - length (shown (take 255 msg))) 0)
unfolding receive
receive_lem msg =
    let (filled, rest, copied, ended) = buffer_lem msg in
    let cs = shown (take 255 msg) in
    let n = length (take 255 msg) in
    let n_is = length-take 255 msg in
    let cs_len = length-shown (take 255 msg) in
    let count : (if leb 256 (length msg) then 255 else length msg) + 1 ≡ suc n =
      counted (length msg) n n_is in
    let made =
      new_element_lem (take 255 msg ++ 0 ∷ rest) (suc n) cs (before_zero-shown (take 255 msg) rest)
        (omega (arith, cs_len)) (omega (arith, n_is)) in
    let plus : suc n ≡ n + 1 = omega arith in
    (
      _,
      rw (copied, ended, count) made,
      c_string-replicate cs (256 - length cs) (shown-NoZero (take 255 msg))
          (omega (arith, cs_len, n_is)),
      ap some plus,
      refl,
    )

-- What a handler returns, a text of at most 255 bytes, is sent as one message, and the next stage
-- queues an element with just that text.
pub handler_func-receive :
    (f : Text → Option Text) (e : Element) (text res_msg : Text)
    → c_string e.element ≡ some text
    → f text ≡ some res_msg
    → NoZero res_msg
    → length res_msg ≤ 255
    → (handler_func f e ≡ some (res_msg ∷ []))
      × (e' : Element) × (receive res_msg ≡ some e')
      × (c_string e'.element ≡ some res_msg)
unfolding handler_func
handler_func-receive f e text res_msg at_e returned nz h =
    let made =
      new_element_lem (res_msg ++ 0 ∷ []) (length res_msg) res_msg
        (before_zero-text res_msg (0 ∷ []) nz) (omega arith) (omega (arith, h)) in
    let (e', received, shows, _, _) = receive_lem res_msg in
    let all = take_all 255 res_msg h in
    (
      rw (at_e, returned, made, take-append res_msg (replicate (256 - length res_msg) 0)) refl,
      e',
      received,
      shows ∙ ap some (ap shown all ∙ shown-text res_msg nz),
    )

-- A text of more than 256 bytes that a handler returns overflows the element.
pub handler_func-overflow :
    (f : Text → Option Text) (e : Element) (text res_msg : Text)
    → c_string e.element ≡ some text
    → f text ≡ some res_msg
    → NoZero res_msg
    → 256 < length res_msg
    → handler_func f e ≡ none
unfolding handler_func new_element strncpy
handler_func-overflow f e text res_msg at_e returned nz h =
    let none_left : length res_msg - length res_msg ≡ 0 = omega arith in
    let beyond =
      memcpy_beyond (replicate 256 0) 0 (res_msg ++ [])
        (omega (arith, length-append {A = ℕ} res_msg [], length-replicate {A = ℕ} 256 0, h)) in
    rw (at_e, returned, before_zero-text res_msg (0 ∷ []) nz, none_left, beyond) refl
