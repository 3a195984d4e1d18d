-- ===== src/MessageQueue/Codec.antt =====
-- mq_def.cpp: what decoding gives back of an encoded message.
use native.Mathlib.Nat.{sub-zero, zero-sub, suc-sub-suc}
use seda_framework.Base.{
  ℕ, zero, suc, ◌+◌, ◌-◌, ◌*◌, ◌/◌, ◌≤◌, ◌<◌, ◌≡◌, refl, ap, ◌∙◌, some, List, [], ◌∷◌, ◌++◌, length,
  take, drop, replicate, length-append, length-replicate, Bool-cases, ltb, true, false, inl, inr,
  arith, ◌^◌,
}
use seda_framework.Base.Memory.{memcpy_start, c_string, c_string-replicate, c_string-NoZero}
use seda_framework.Buffer.{Buffer, push_back, expand}
use seda_framework.Buffer.Growth.{doubled_lem}
use seda_framework.MessageQueue.{encode_mq_msg, decode_text, decode_mq_msg}

pub drop-replicate : (n m : ℕ) → drop n (replicate m 0) ≡ replicate {A = ℕ} (m - n) 0
drop-replicate zero m = rw sub-zero
drop-replicate (suc n) zero = rw zero-sub
drop-replicate (suc n) (suc m) = rw suc-sub-suc (drop-replicate n m)

-- A push into a buffer whose `_len` is 0 writes over the start of the block.
push_start-stays :
    (bytes block : List ℕ) (size : ℕ)
    → length block ≡ size
    → size < 2 ^ 30
    → length bytes ≤ 2 * size / 3
    → push_back bytes (record { block = block; size = size; len = 0 })
      ≡ some (record { block = bytes ++ drop (length bytes) block; size = size; len = 0 })
unfolding push_back
push_start-stays bytes block size e small h =
    let stays : ltb (2 * size / 3) (length bytes + 0) ≡ false = ground arith in
    rw (doubled_lem size small, stays) (rw (memcpy_start block bytes (omega arith)) refl)

push_start-grows :
    (bytes block : List ℕ) (size : ℕ)
    → size < 2 ^ 30
    → 2 * size / 3 < length bytes
    → length bytes ≤ 2 * size
    → push_back bytes (record { block = block; size = size; len = 0 })
      ≡ some (record {
        block = bytes ++ drop (length bytes) (replicate (2 * size) 0);
        size = 2 * size;
        len = 0;
      })
unfolding push_back expand
push_start-grows bytes block size small h le =
    let grows : ltb (2 * size / 3) (length bytes + 0) ≡ true = ground arith in
    let zeros : List ℕ = replicate (2 * size) 0 in
    rw (doubled_lem size small, grows)
      (rw (memcpy_start zeros [] (omega arith))
        (rw (memcpy_start zeros bytes (omega (arith, length-replicate {A = ℕ} (2 * size) 0))) refl))

-- After the text, and after either way of writing it, the block is the text and then zeros.
push_text :
    (c : ℕ) (cs : List ℕ) (size : ℕ)
    → length cs + 1 < 2 * size
    → 3 ≤ size
    → size < 2 ^ 29
    → (left : ℕ) × (size' : ℕ) × (push_back
          (c ∷ cs)
          (record { block = 0x1 ∷ replicate (size - 1) 0; size = size; len = 0 })
        ≡ some (record { block = c ∷ cs ++ replicate left 0; size = size'; len = 0 }))
      × (0 < left)
      × (length cs + 1 + left ≡ size')
      × (3 ≤ size')
      × (size' < 2 ^ 30)
push_text c cs size h three small = elim (Bool-cases (ltb (2 * size / 3) (length (c ∷ cs)))) [
  | inl grows ↦ (
    2 * size - length (c ∷ cs),
    2 * size,
    push_start-grows (c ∷ cs) _ size (omega (arith, small)) (ground arith) (omega arith)
        ∙ ap (λ rest. some (record { block = c ∷ cs ++ rest; size = 2 * size; len = 0 }))
            (drop-replicate (length (c ∷ cs)) (2 * size)),
    omega arith,
    omega arith,
    omega arith,
    omega (arith, small),
  )
  | inr stays ↦ (
    size - 1 - length cs,
    size,
    push_start-stays (c ∷ cs) _ size (omega (arith, length-replicate {A = ℕ} (size - 1) 0))
          (omega (arith, small)) (ground arith)
        ∙ ap (λ rest. some (record { block = c ∷ cs ++ rest; size = size; len = 0 }))
            (drop-replicate (length cs) (size - 1)),
    ground arith,
    ground arith,
    three,
    omega (arith, small),
  )
]

decode_text_lem : (c : ℕ) (cs : List ℕ) → decode_text (c ∷ cs) ≡ some (take (length cs - 1) cs)
unfolding decode_text
decode_text_lem c cs = refl

encode_block :
    (msg_content : List ℕ) (c : ℕ) (cs : List ℕ)
    → c_string msg_content ≡ some (c ∷ cs)
    → length cs + 1 < 2048
    → (left : ℕ) × (size' : ℕ) × (encode_mq_msg msg_content
        ≡ some (record { block = 0x1 ∷ cs ++ replicate left 0; size = size'; len = 0 }))
      × (0 < left)
unfolding encode_mq_msg
encode_block msg_content c cs e h =
    let opened =
      push_start-stays (0x1 ∷ []) (replicate 1024 0) 1024 (length-replicate {A = ℕ} 1024 0)
        (omega arith) (omega arith) in
    let (left, size', filled, pos, total, three, small) =
      push_text c cs 1024 h (omega arith) (omega arith) in
    let closed =
      push_start-stays (0x1 ∷ []) (c ∷ cs ++ replicate left 0) size'
        (omega (arith, length-append cs (replicate left 0), length-replicate {A = ℕ} left 0))
        (omega (arith, small)) (omega arith) in
    (left, size', rw opened (rw e (rw filled closed)), pos)

-- A message of fewer than 2048 bytes is encoded, and decoding the buffer gives back the C string
-- without its first and its last byte: the first is the one that names the kind of message, and the
-- last is its checksum. (The three pushes all write to the start of the buffer.)
pub decode-encode :
    (msg_content : List ℕ) (c : ℕ) (cs : List ℕ)
    → c_string msg_content ≡ some (c ∷ cs)
    → length cs + 1 < 2048
    → (msg : Buffer) × (encode_mq_msg msg_content ≡ some msg)
      × (decode_mq_msg msg ≡ some (take (length cs - 1) cs))
unfolding decode_mq_msg
decode-encode msg_content c cs e h =
    let (left, size', encoded, pos) = encode_block msg_content c cs e h in
    let zero_free = (c_string-NoZero msg_content (c ∷ cs) e).1 in
    (
      _,
      encoded,
      rw (c_string-replicate (0x1 ∷ cs) left (omega arith, zero_free) pos) (decode_text_lem 0x1 cs),
    )
