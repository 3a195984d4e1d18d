-- ===== src/MessageQueue/Checksum.antt =====
-- The checksum of a published message: what mq_client::send writes, and what check_msg_crc accepts.
use native.Mathlib.Nat.{add-sub_cancel}
use native.Mathlib.Numerals.{add-one}
use seda_framework.Base.{
  ℕ, ◌+◌, ◌-◌, ◌%◌, ◌≤◌, ◌<◌, ◌≡◌, ◌≢◌, ◌↔◌, refl, sym, ap, ap₂, ◌∙◌, true, some, List, [], ◌∷◌,
  ◌++◌, length, take, drop, replicate, length-append, length-replicate, get_elem?-append,
  take-append, append_assoc, All, All-append, ◌==◌, arith,
}
use seda_framework.Base.Memory.{
  memcpy, memcpy_start, memcpy_over, memcpy_after, NoZero, c_string, c_string-replicate,
}
use seda_framework.Buffer.{Buffer, buf_size}
use seda_framework.MessageQueue.{char_sum, check_msg_crc, encode_mq_msg, decode_mq_msg}
use seda_framework.MessageQueue.Codec.{decode-encode, drop-replicate}
use seda_framework.MessageQueue.Client.{add_sum, send}
use seda_framework.MessageQueue.Server.{read_into}

-- The sum of the bytes, without a bound.
abbrev pub total : List ℕ → ℕ
total [] = 0
total (c ∷ cs) = c + total cs

char_sum-total : (cs : List ℕ) (acc : ℕ) → acc < 256 → char_sum cs acc ≡ (acc + total cs) % 256
char_sum-total [] acc h = omega arith
char_sum-total (c ∷ cs) acc h = omega (arith, char_sum-total cs ((acc + c) % 256) (omega arith))

check_msg_crc_lem :
    (body : List ℕ) (crc : ℕ) (rest : List ℕ)
    → check_msg_crc (body ++ crc ∷ rest) (length body + 1) ≡ some (crc == char_sum body 0)
unfolding check_msg_crc
check_msg_crc_lem body crc rest =
    rw (add-sub_cancel (length body) 1)
      (rw (get_elem?-append body crc rest) (rw (take-append body (crc ∷ rest)) refl))

-- A message is accepted exactly when its last byte is the sum of the others modulo 256, whatever
-- stands behind it in the buffer.
pub check_msg_crc_iff :
    (body : List ℕ) (crc : ℕ) (rest : List ℕ)
    → (check_msg_crc (body ++ crc ∷ rest) (length body + 1) ≡ some true) ↔ (crc ≡ total body % 256)
check_msg_crc_iff body crc rest =
    ground (arith, check_msg_crc_lem body crc rest, char_sum-total body 0)

-- The sum of the first `n` bytes is added to the byte behind `before`.
pub add_sum_at :
    (n : ℕ) (before : List ℕ) (old : ℕ) (rest : List ℕ)
    → add_sum n (length before) (before ++ old ∷ rest)
      ≡ some (before ++ char_sum (take n (before ++ old ∷ rest)) old ∷ rest)
unfolding add_sum
add_sum_at n before old rest =
    rw (get_elem?-append before old rest)
      (memcpy_over before old (char_sum (take n (before ++ old ∷ rest)) old) rest)

add_sum_lem :
    (xs : List ℕ) (old : ℕ) (rest : List ℕ)
    → add_sum (length xs) (length xs) (xs ++ old ∷ rest) ≡ some (xs ++ char_sum xs old ∷ rest)
add_sum_lem xs old rest =
    add_sum_at (length xs) xs old rest
    ∙ ap (λ ys. some (xs ++ char_sum ys old ∷ rest)) (take-append xs (old ∷ rest))

-- What `sprintf` of the C library does with a format that has no `%`: it copies it.
abbrev pub NoPercent : List ℕ → Type 0
NoPercent = All (λ c. c ≢ b'%')

module _ (sprintf : List ℕ → ℕ → List ℕ)
    (plain : (f : List ℕ) (n : ℕ) → NoPercent f → sprintf f n ≡ f) (msg : List ℕ)
    (no_percent : NoPercent msg) (fits : length msg ≤ 126) where
  -- What `send` writes: the kind, the message, and the checksum of both.
  pub send_lem : send sprintf msg ≡ some (0x1 ∷ msg ++ char_sum (0x1 ∷ msg) 0 ∷ [])
  unfolding send
  send_lem =
      let zeros : List ℕ = replicate 126 0 in
      let first : memcpy (replicate 128 0) 0 (0x1 ∷ []) ≡ some (0x1 ∷ replicate 127 0) =
        memcpy_start (replicate 128 0) (0x1 ∷ []) (omega arith) in
      let text = msg ++ 0 ∷ [] in
      let text_len = length-append msg (0 ∷ []) in
      let copied =
        memcpy_after (0x1 ∷ []) (replicate 127 0) text
          (omega (arith, text_len, length-replicate {A = ℕ} 127 0)) in
      let behind : text ++ drop (length text) (replicate 127 0)
          ≡ msg ++ 0 ∷ drop (length msg) zeros =
        rw (text_len, add-one) (append_assoc msg (0 ∷ []) (drop (length msg) zeros)) in
      let sum_at : length msg + 1 ≡ length (0x1 ∷ msg) = omega arith in
      let crc = char_sum (0x1 ∷ msg) 0 in
      let sent = msg ++ crc ∷ [] in
      let all_sent : length msg + 2 ≡ length (0x1 ∷ sent) =
        omega (arith, length-append msg (crc ∷ [])) in
      rw first (
        rw (plain msg (length msg) no_percent) (
          rw copied (
            rw behind (
              rw sum_at (
                rw (add_sum_lem (0x1 ∷ msg) 0 (drop (length msg) zeros)) (
                  rw all_sent (
                    ap some (
                      ap (take (length (0x1 ∷ sent)))
                        (sym (append_assoc (0x1 ∷ msg) (crc ∷ []) (drop (length msg) zeros)))
                      ∙ take-append (0x1 ∷ sent) (drop (length msg) zeros)))))))))

  -- A message that a client sends, without zero bytes and percent signs, of at most 126 bytes and with
  -- a checksum other than zero: the server, reading it first into its cleared buffer, accepts the
  -- checksum, and what it encodes and decodes again is the message.
  pub publish_roundtrip :
      NoZero msg
      → char_sum (0x1 ∷ msg) 0 ≢ 0
      → (sent : List ℕ) × (send sprintf msg ≡ some sent)
        × (check_msg_crc (read_into sent (replicate buf_size 0)) (length sent) ≡ some true)
        × (b : Buffer) × (encode_mq_msg (read_into sent (replicate buf_size 0)) ≡ some b)
        × (decode_mq_msg b ≡ some msg)
  publish_roundtrip zero_free crc_set =
      let crc = char_sum (0x1 ∷ msg) 0 in
      let cs = msg ++ crc ∷ [] in
      let cs_len = length-append msg (crc ∷ []) in
      let sent = 0x1 ∷ cs in
      let rest : List ℕ = drop (length sent) (replicate buf_size 0) in
      let regroup : sent ++ rest ≡ (0x1 ∷ msg) ++ crc ∷ rest =
        append_assoc (0x1 ∷ msg) (crc ∷ []) rest in
      let sent_len : length sent ≡ length (0x1 ∷ msg) + 1 = omega (arith, cs_len) in
      let same : (crc == crc) ≡ true = ground arith in
      let text : c_string (sent ++ rest) ≡ some sent = rw (drop-replicate (length sent) buf_size) (
        c_string-replicate sent (buf_size - length sent)
          (omega arith, All-append (λ c. c ≢ 0) msg (crc ∷ []) zero_free (crc_set, tt))
          (omega (arith, cs_len))) in
      let (b, encoded, decoded) =
        decode-encode (sent ++ rest) 0x1 cs text (omega (arith, cs_len)) in
      let cut : length cs - 1 ≡ length msg = omega (arith, cs_len) in
      (
        sent,
        send_lem,
        ap₂ check_msg_crc regroup sent_len ∙ check_msg_crc_lem (0x1 ∷ msg) crc rest ∙ ap some same,
        b,
        encoded,
        decoded ∙ ap some (ap (λ n. take n cs) cut ∙ take-append msg (crc ∷ [])),
      )
