-- ===== src/MessageQueue/Client.antt =====
-- message_queue/message_queue_client.cpp: the messages that a client sends. Each function gives the
-- bytes that it hands to `write`; `none` is a write beyond `char[128]`.
use seda_framework.Base.{
  ℕ, ◌+◌, ◌-◌, ◌^◌, Bool, not, Option, none, some, List, [], ◌∷◌, ◌++◌, length, take, replicate,
  ◌==◌, if◌then◌else◌, get_elem?,
}
use seda_framework.Base.Memory.{◌>>=◌, memcpy, c_string}
use seda_framework.Base.Dictionary.{Text}
use seda_framework.Base.Texts.{split_once}
use seda_framework.MessageQueue.{char_sum}

-- `for (i = 0; i < n; ++i) block[at] += block[i];` where `at` is `n` or more.
unfoldable pub add_sum : ℕ → ℕ → List ℕ → Option (List ℕ)
add_sum n at block = do old ← get_elem? block at; memcpy block at (char_sum (take n block) old ∷ [])

-- The first byte, and after it the name for a subscriber; other roles leave the block as it is.
unfoldable pub role_block : ℕ → ℕ → ℕ → List ℕ → Option (List ℕ)
role_block publisher subscriber role name =
    if role == 0
    then memcpy (replicate 128 0) 0 (publisher ∷ [])
    else if role == 1
    then (memcpy (replicate 128 0) 0 (subscriber ∷ []) >>= λ block. memcpy block 1 (name ++ 0 ∷ []))
    else some (replicate 128 0)

-- What register_mq and unregister_mq do with the block: the sum goes behind the bytes that are sent.
unfoldable pub close_block : List ℕ → Option (List ℕ)
close_block block = do
  text ← c_string block
  let len = length text
  summed ← add_sum len (len + 1) block
  some (take (len + 1) summed)

-- mq_client::register_mq, for the C string `publisher_name`
unfoldable pub register_mq : ℕ → List ℕ → Option (List ℕ)
register_mq role publisher_name = role_block 0x2 0x4 role publisher_name >>= close_block

-- mq_client::unregister_mq
unfoldable pub unregister_mq : ℕ → List ℕ → Option (List ℕ)
unregister_mq role publisher_name = role_block 0x8 0x16 role publisher_name >>= close_block

-- mq_client::send. `sprintf` is the C library's: the text that it makes of a format, the message
-- itself here, and one argument.
unfoldable pub send : (List ℕ → ℕ → List ℕ) → List ℕ → Option (List ℕ)
send sprintf msg = do
  opened ← memcpy (replicate 128 0) 0 (0x1 ∷ [])
  filled ← memcpy opened 1 (sprintf msg (length msg) ++ 0 ∷ [])
  summed ← add_sum (length msg + 1) (length msg + 1) filled
  some (take (length msg + 2) summed)

-- mq_client::get_ip_port, by what `find` gives for the colon: `substr(0, index)`, and `atoi` from behind `index`. Where nothing
-- is found `index` is -1, so that both take the whole text. `atoi` is the C library's and gives an
-- int as a 32-bit pattern; the result is the name, the port and what is returned.
abbrev pub ip_port : (Text → ℕ) → Option (Text × Text) → Text → Text × ℕ
ip_port atoi none server_ip_port = (server_ip_port, atoi server_ip_port)
ip_port atoi (some (server_ip, behind)) server_ip_port = (server_ip, atoi behind)

unfoldable pub get_ip_port : (Text → ℕ) → Text → Text × ℕ × Bool
get_ip_port atoi server_ip_port =
    let (server_ip, port) = ip_port atoi (split_once 58 server_ip_port) server_ip_port in
    (server_ip, port, not (port == 2 ^ 32 - 1))

-- mq_client::run: the blocks that the callback is given, of what `read` returns, 1 to 1024 bytes at a
-- time, until it returns 0 or -1.
unfoldable pub run : List (List ℕ) → Option (List (List ℕ))
unfolding memcpy
run [] = some []
run (bytes ∷ more) = do buf ← memcpy (replicate 1024 0) 0 bytes; rest ← run more; some (buf ∷ rest)
