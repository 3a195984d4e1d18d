-- ===== src/MessageQueue/Addresses.antt =====
-- message_queue/message_queue_client.cpp, get_ip_port and run: what the client reads.
use seda_framework.Base.{
  ℕ, ◌-◌, ◌^◌, ◌<◌, ◌≡◌, ◌≢◌, refl, ap, ◌∙◌, not, Option, some, List, [], ◌∷◌, ◌++◌, length, drop,
  replicate, ◌==◌, arith, All,
}
use seda_framework.Base.Segments.{drop-replicate}
use seda_framework.Base.Memory.{◌>>=◌, memcpy_start, c_string, c_string-replicate, NoZero}
use seda_framework.Base.Dictionary.{Text}
use seda_framework.Base.Texts.{split_once_lem}
use seda_framework.MessageQueue.Client.{get_ip_port, run}

-- An address is split at its first colon: the name before it, the number behind it, for any `atoi`;
-- success is reported unless that number is -1.
pub get_ip_port_lem :
    (atoi : Text → ℕ) (server_ip port : Text)
    → All (λ c. c ≢ 58) server_ip
    → get_ip_port atoi (server_ip ++ 58 ∷ port)
      ≡ (server_ip, atoi port, not (atoi port == 2 ^ 32 - 1))
unfolding get_ip_port
get_ip_port_lem atoi server_ip port h = rw (split_once_lem 58 server_ip port h) refl

-- The C strings in the blocks.
abbrev pub c_strings : List (List ℕ) → Option (List Text)
c_strings [] = some []
c_strings (block ∷ blocks) =
    c_string block >>= λ text. c_strings blocks >>= λ texts. some (text ∷ texts)

-- The callback is given the texts that `read` returned, one by one and in order, if each is shorter
-- than the buffer and has no zero byte.
pub c_strings-run :
    (texts : List Text)
    → All (λ text. length text < 1024) texts
    → All NoZero texts
    → (blocks : List (List ℕ)) × (run texts ≡ some blocks) × (c_strings blocks ≡ some texts)
unfolding run
c_strings-run [] short zero_free = ([], refl, refl)
c_strings-run (text ∷ texts) short zero_free =
    let (blocks, ran, shown) = c_strings-run texts short.1 zero_free.1 in
    let copied = memcpy_start (replicate 1024 0) text (omega (arith, short.0)) in
    let zeros : drop {A = ℕ} (length text) (replicate 1024 0) ≡ replicate (1024 - length text) 0 =
      drop-replicate (length text) 1024 0 in
    let first = c_string-replicate text (1024 - length text) zero_free.0 (omega (arith, short.0)) in
    let block : List ℕ = text ++ drop (length text) (replicate 1024 0) in
    let shows : c_string block ≡ some text = ap (λ zs. c_string (text ++ zs)) zeros ∙ first in
    (block ∷ blocks, rw (copied, ran) refl, rw (shows, shown) refl)
