-- ===== src/Programs/Handlers.antt =====
-- main.cpp: the handlers of the two stages, on the block of the element that they are given. What the
-- calls of hiredis give is given. getPersistData and setPersistData have no body; what they return
-- changes nothing in the text that searchCache returns.
use seda_framework.Base.{
  ℕ, zero, suc, ◌-◌, ◌≤◌, ◌<◌, ◌≡◌, refl, sym, ap, ◌∙◌, Bool, true, false, Option, none, some, ◌==◌,
  List, [], ◌∷◌, ◌++◌, length, take, drop, replicate, ltb, leb, if◌then◌else◌, Bool-cases, inl, inr,
  length-append, length-replicate, append_assoc, arith, All-take, ◌≢◌, ltb→lt,
}
use seda_framework.Base.Segments.{take-append_le, take-append_ge, take-replicate, replicate-add}
use seda_framework.Base.Memory.{◌>>=◌, c_string, c_string-replicate, NoZero}
use seda_framework.Base.Dictionary.{Text}
use seda_framework.Redis.{
  Connected, no_memory, with_error, without_error, new_client, connect, command,
}

-- receiveAndResponse: a test_msg has 32 bytes, and its `passwd` begins at the eighth. `none` is a read
-- out of bounds.
unfoldable pub receive_and_response : List ℕ → Option (Option Text)
unfolding c_string
receive_and_response arg = do
  text ← c_string arg
  tm ← (if leb 32 (length arg) then some (take 32 arg) else none)
  name ← c_string tm
  passwd ← c_string (drop 8 tm)
  some (some text)

-- What the command to Redis gives: no reply, one whose `str` is NULL, as for a key that is not there, or
-- one with a text.
pub data Reply : Type 0 where
  no_reply : Reply
  without_text : Reply
  with_text : Text → Reply

abbrev pub is_reply : Reply → Bool
is_reply no_reply = false
is_reply without_text = true
is_reply (with_text str) = true

-- The log of `r->str`: `none` is a read through NULL.
abbrev pub logged_str : Reply → Option Text
logged_str no_reply = none
logged_str without_text = none
logged_str (with_text str) = some str

-- searchCache; the client is not deleted, and `r` and `r->str` are read without a test.
unfoldable pub search_cache : Connected → Reply → List ℕ → Option (Option Text)
unfolding c_string connect command
search_cache connected reply arg = do
  text ← c_string arg
  let rc = connect connected new_client
  elim rc.1 [
    | false ↦ some none
    | true ↦ command (is_reply reply) rc.0 >>= λ r.
        logged_str reply >>= λ str. c_string (drop 1 arg) >>= λ rest. some (some rest)
  ]

-- print and lookUpRedis, which no stage is given
unfoldable pub print : List ℕ → Option (Option Text)
unfolding c_string
print arg = c_string arg >>= λ text. some (some text)

unfoldable pub look_up_redis : List ℕ → Option (Option Text)
unfolding c_string
look_up_redis arg = c_string arg >>= λ text. some (some text)

-- An element's block that holds a text.
abbrev pub block_of : Text → List ℕ
block_of text = text ++ replicate (256 - length text) 0

block-text : (text : Text) → NoZero text → length text ≤ 255 → c_string (block_of text) ≡ some text
block-text text nz h = c_string-replicate text (256 - length text) nz (omega (arith, h))

length-block_of : (text : Text) → length text ≤ 255 → length (block_of text) ≡ 256
length-block_of text h = omega (
  arith,
  length-append text (replicate (256 - length text) 0),
  length-replicate {A = ℕ} (256 - length text) 0,
  h,
)

-- A zero byte at the end of a block ends a C string from any place in it; without one there is none.
c_string_ends : (xs : List ℕ) → (cs : Text) × (c_string (xs ++ 0 ∷ []) ≡ some cs)
unfolding c_string
c_string_ends [] = ([], refl)
c_string_ends (c ∷ xs) = elim (Bool-cases (c == 0)) [
  | inl ends ↦ ([], rw ends refl)
  | inr goes ↦ let (cs, e) = c_string_ends xs in (c ∷ cs, rw (goes, e) refl)
]

drop_ends :
    (n : ℕ) (xs : List ℕ)
    → n ≤ length xs
    → (cs : Text) × (c_string (drop n (xs ++ 0 ∷ [])) ≡ some cs)
drop_ends zero xs h = c_string_ends xs
drop_ends (suc n) [] h = absurd (omega arith)
drop_ends (suc n) (x ∷ xs) h = drop_ends n xs (omega arith)

c_string_open : (xs : List ℕ) → NoZero xs → c_string xs ≡ none
unfolding c_string
c_string_open [] h = refl
c_string_open (c ∷ xs) h = ground (arith, c_string_open xs h.1)

-- The first 32 bytes of an element's block.
short_head :
    (text : Text)
    → length text < 32
    → take 32 (block_of text) ≡ (text ++ replicate (31 - length text) 0) ++ 0 ∷ []
short_head text h =
    let k = 31 - length text in
    take-append_ge 32 text (replicate (256 - length text) 0) (omega (arith, h))
    ∙ ap (◌++◌ text) (
        take-replicate (32 - length text) (256 - length text) 0 (omega (arith, h))
        ∙ sym (replicate-add k 1 (32 - length text) 0 (omega (arith, h))))
    ∙ sym (append_assoc text (replicate k 0) (0 ∷ []))

NoZero-take : (n : ℕ) (xs : List ℕ) → NoZero xs → NoZero (take n xs)
NoZero-take n xs h = All-take (λ c. c ≢ 0) n xs h

enough : (text : Text) → length text ≤ 255 → leb 32 (length (block_of text)) ≡ true
enough text h = rw (length-block_of text h) refl

-- The first handler gives back the text of its element if this has fewer than 32 bytes; the log of a
-- longer one reads beyond the struct.
pub receive_and_response_lem :
    (text : Text)
    → NoZero text
    → length text ≤ 255
    → receive_and_response (block_of text)
      ≡ (if ltb (length text) 32 then some (some text) else none)
unfolding receive_and_response
receive_and_response_lem text nz h = elim (Bool-cases (ltb (length text) 32)) [
  | inl short ↦
      let head = short_head text (ltb→lt _ _ short) in
      let (name, at_name) = c_string_ends (text ++ replicate (31 - length text) 0) in
      let (passwd, at_passwd) = drop_ends 8 (text ++ replicate (31 - length text) 0) (
        omega (
          arith,
          ltb→lt _ _ short,
          length-append text (replicate (31 - length text) 0),
          length-replicate {A = ℕ} (31 - length text) 0,
        )) in
      rw (block-text text nz h, enough text h, head, at_name, at_passwd, short) refl
  | inr long ↦
      let head : take 32 (block_of text) ≡ take 32 text =
        take-append_le 32 text (replicate (256 - length text) 0) (ground (arith, long)) in
      rw
        (
          block-text text nz h,
          enough text h,
          head,
          c_string_open (take 32 text) (NoZero-take 32 text nz),
          long,
        )
        refl
]

behind_first :
    (text : Text)
    → NoZero text
    → length text ≤ 255
    → c_string (drop 1 (block_of text)) ≡ some (drop 1 text)
unfolding c_string
behind_first [] nz h = refl
behind_first (c ∷ text) nz h =
    c_string-replicate text (256 - suc (length text)) nz.1 (omega (arith, h))

-- The second handler gives back NULL if Redis cannot be connected to, and else the text of its element
-- without the first byte; where the command gets no reply or one without a text it reads through NULL.
pub search_cache_lem :
    (connected : Connected) (reply : Reply) (text : Text)
    → NoZero text
    → length text ≤ 255
    → search_cache connected reply (block_of text) ≡ elim connected [
      | no_memory ↦ some none
      | with_error ↦ some none
      | without_error ↦ logged_str reply >>= λ str. some (some (drop 1 text))
    ]
unfolding search_cache
search_cache_lem no_memory reply text nz h = rw (block-text text nz h) refl
search_cache_lem with_error reply text nz h = rw (block-text text nz h) refl
search_cache_lem without_error no_reply text nz h = rw (block-text text nz h) refl
search_cache_lem without_error without_text text nz h = rw (block-text text nz h) refl
search_cache_lem without_error (with_text str) text nz h =
    rw (block-text text nz h, behind_first text nz h) refl
