-- ===== src/MessageQueue.antt =====
-- The message queue: mq_def.cpp, message_queue/message_queue_server.cpp and
-- message_queue/message_queue_client.cpp. A `std::string` and the bytes of a message are lists of
-- bytes; a file descriptor is a number.
use seda_framework.Base.{
  ℕ, zero, suc, ◌+◌, ◌-◌, ◌%◌, ◌^◌, Bool, true, false, Option, some, none, List, [], ◌∷◌, ◌++◌,
  length, take, drop, ◌==◌, if◌then◌else◌, get_elem?,
}
use seda_framework.Base.Memory.{◌>>=◌, c_string}
use seda_framework.Buffer.{Buffer, new_buffer, push_back, ptr}
pub mod Server
pub mod Client
pub mod Codec
pub mod Checksum
pub mod Delivery
pub mod Registration
pub mod Addresses
pub mod Exchange
pub mod Rounds
pub mod Interleaving
pub mod Presence
pub mod Peers
pub mod Lifetime
pub mod Conns
pub mod Deletion
mod Tests

-- mq_def::encode_mq_msg of the C string at `msg_content`
unfoldable pub encode_mq_msg : List ℕ → Option Buffer
unfolding push_back c_string
encode_mq_msg msg_content = do
  opened ← push_back (0x1 ∷ []) new_buffer
  text ← c_string msg_content
  filled ← push_back text opened
  push_back (0x1 ∷ []) filled

-- mq_def::decode_mq_msg: `substr(1, length - 2)`. On the empty string `substr` throws; on a string of
-- one byte the length wraps and the result is empty, as it is here.
unfoldable pub decode_text : List ℕ → Option (List ℕ)
decode_text [] = none
decode_text (c ∷ cs) = some (take (length cs - 1) cs)

unfoldable pub decode_mq_msg : Buffer → Option (List ℕ)
unfolding c_string decode_text
decode_mq_msg msg = c_string (ptr msg) >>= decode_text

-- The sum of bytes in a `char`.
abbrev pub char_sum : List ℕ → ℕ → ℕ
char_sum [] acc = acc
char_sum (c ∷ cs) acc = char_sum cs ((acc + c) % 256)

-- message_queue_server::check_msg_crc of the first `n` bytes at `buf`; `n` is positive.
unfoldable pub check_msg_crc : List ℕ → ℕ → Option Bool
check_msg_crc buf n = do last ← get_elem? buf (n - 1); some (last == char_sum (take (n - 1) buf) 0)
