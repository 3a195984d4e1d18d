-- ===== src/MessageQueue/Registration.antt =====
-- Registrations: what mq_client::register_mq sends, and what the server makes of it.
use seda_framework.Base.{
  ℕ, suc, ◌+◌, ◌-◌, ◌≤◌, ◌<◌, ◌≡◌, ◌≢◌, refl, sym, ap, ap₂, ◌∙◌, Bool, true, false, Option, some,
  none, List, [], ◌∷◌, ◌++◌, length, take, drop, replicate, length-append, length-replicate,
  take-append, append_assoc, arith, if◌then◌else◌, ltb, ◌↔◌, ◌⊎◌, ◌&&◌, append-nil,
}
use seda_framework.Base.Memory.{
  ◌>>=◌, memcpy, memcpy_start, memcpy_after, NoZero, c_string, c_string-append, c_string-replicate,
}
use seda_framework.Base.Dictionary.{
  Text, text_eq, text_eq_iff, find, insert, get, get-assign, erase-eq-none,
}
use seda_framework.Buffer.{buf_size}
use seda_framework.MessageQueue.{char_sum}
use seda_framework.MessageQueue.Codec.{drop-replicate}
use seda_framework.MessageQueue.Checksum.{add_sum_at}
use seda_framework.MessageQueue.Client.{role_block, close_block, register_mq, unregister_mq}
use seda_framework.MessageQueue.Server.{
  Server, Conn, read_into, publisher_name, subscribe_by, subscribe, unregister,
}

-- The server reads from a registration the bytes between the first and the last.
pub publisher_name_lem :
    (kind : ℕ) (name : Text) (last : ℕ) (rest : List ℕ)
    → NoZero name
    → length name < 128
    → publisher_name (kind ∷ name ++ last ∷ rest) (length name + 2) ≡ some name
unfolding publisher_name
publisher_name_lem kind name last rest zero_free fits =
    let long : ltb (length name + 2) 2 ≡ false = ground arith in
    let cut : length name + 2 - 2 ≡ length name = omega arith in
    rw long (
      rw cut (
        rw (take-append name (last ∷ rest)) (
          rw (memcpy_start (replicate 128 0) name (omega arith)) (
            rw (drop-replicate (length name) 128)
              (c_string-replicate name (128 - length name) zero_free (omega arith))))))

-- What a subscriber sends: the kind, the name, and a zero byte. The checksum is written behind the
-- bytes that are sent.
subscriber_block :
    (publisher subscriber : ℕ) (name : Text)
    → subscriber ≢ 0
    → NoZero name
    → length name ≤ 125
    → (role_block publisher subscriber 1 name >>= close_block) ≡ some (subscriber ∷ name ++ 0 ∷ [])
unfolding role_block close_block
subscriber_block publisher subscriber name kind_set zero_free fits =
    let left : ℕ = 125 - length name in
    let tail : List ℕ = replicate left 0 in
    let text = name ++ 0 ∷ [] in
    let text_len = length-append name (0 ∷ []) in
    let first : memcpy (replicate 128 0) 0 (subscriber ∷ []) ≡ some (subscriber ∷ replicate 127 0) =
      memcpy_start (replicate 128 0) (subscriber ∷ []) (omega arith) in
    let copied =
      memcpy_after (subscriber ∷ []) (replicate 127 0) text
        (omega (arith, text_len, length-replicate {A = ℕ} 127 0)) in
    let zeros : drop (length text) (replicate 127 0) ≡ 0 ∷ tail =
      drop-replicate (length text) 127
      ∙ ap (λ n. replicate n 0)
          (let e : 127 - length text ≡ suc left = omega (arith, text_len) in e) in
    let block = subscriber ∷ text ++ 0 ∷ tail in
    let sent = subscriber ∷ text in
    let string : c_string block ≡ some (subscriber ∷ name) =
      ap c_string (append_assoc (subscriber ∷ name) (0 ∷ []) (0 ∷ tail))
      ∙ c_string-append (subscriber ∷ name) (0 ∷ tail) (kind_set, zero_free) in
    let sum_at : length (subscriber ∷ name) + 1 ≡ length sent = omega (arith, text_len) in
    rw first (
      rw copied (
        rw zeros (
          rw string (
            rw sum_at (
              rw (add_sum_at (length (subscriber ∷ name)) sent 0 tail) (
                ap some (
                  take-append sent
                    (char_sum (take (length (subscriber ∷ name)) block) 0 ∷ tail))))))))

pub register_mq_subscriber :
    (name : Text)
    → NoZero name
    → length name ≤ 125
    → register_mq 1 name ≡ some (0x4 ∷ name ++ 0 ∷ [])
unfolding register_mq
register_mq_subscriber name = subscriber_block 0x2 0x4 name (omega arith)

pub unregister_mq_subscriber :
    (name : Text)
    → NoZero name
    → length name ≤ 125
    → unregister_mq 1 name ≡ some (0x16 ∷ name ++ 0 ∷ [])
unfolding unregister_mq
unregister_mq_subscriber name = subscriber_block 0x8 0x16 name (omega arith)

-- The server reads back the publisher's name that a subscriber sends.
pub publisher_name_sent :
    (kind : ℕ) (name : Text)
    → NoZero name
    → length name ≤ 125
    → publisher_name
        (read_into (kind ∷ name ++ 0 ∷ []) (replicate buf_size 0))
        (length (kind ∷ name ++ 0 ∷ []))
      ≡ some name
publisher_name_sent kind name zero_free fits =
    let sent = kind ∷ name ++ 0 ∷ [] in
    let rest : List ℕ = drop (length sent) (replicate buf_size 0) in
    let sent_len : length sent ≡ length name + 2 = omega (arith, length-append name (0 ∷ [])) in
    ap₂ publisher_name (append_assoc (kind ∷ name) (0 ∷ []) rest) sent_len
    ∙ publisher_name_lem kind name 0 rest zero_free (omega arith)

-- The server reads back the publisher's name that a subscriber registered for, of at most 125 bytes.
pub subscription_roundtrip :
    (name : Text)
    → NoZero name
    → length name ≤ 125
    → (sent : List ℕ) × (register_mq 1 name ≡ some sent)
      × (publisher_name (read_into sent (replicate buf_size 0)) (length sent) ≡ some name)
subscription_roundtrip name zero_free fits = (
  0x4 ∷ name ++ 0 ∷ [],
  register_mq_subscriber name zero_free fits,
  publisher_name_sent 0x4 name zero_free fits,
)

-- Whether a map has a key.
abbrev pub has_key {ℓ} : {V : Type ℓ} → Option V → Bool
has_key none = false
has_key (some _) = true

subscribe_by-relations :
    (o : Option ℕ) (mc : Conn) (name a : Text) (s : Server)
    → get a [] (subscribe_by o mc name s).relations
      ≡ get a [] s.relations ++ (if has_key o && text_eq name a then mc.addr ∷ [] else [])
unfolding subscribe_by
subscribe_by-relations none mc name a s = sym (append-nil _)
subscribe_by-relations (some fd) mc name a s =
    let added = get name [] s.relations ++ mc.addr ∷ [] in
    ground (
      arith,
      text_eq_iff name a,
      get-assign name a [] added s.relations,
      append-nil (get a [] s.relations),
    )

subscribe_by-fd_addrs :
    (o : Option ℕ) (mc : Conn) (name : Text) (s : Server)
    → (subscribe_by o mc name s).fd_addrs ≡ s.fd_addrs
unfolding subscribe_by
subscribe_by-fd_addrs none mc name s = refl
subscribe_by-fd_addrs (some fd) mc name s = refl

-- A subscription adds the connection's address to the list of the publisher that it names, if that
-- publisher's address is known, and changes no other list; the address of the connection becomes
-- known, unless it was.
pub subscribe-relations :
    (mc : Conn) (buf : List ℕ) (nread : ℕ) (s : Server) (name : Text)
    → publisher_name buf nread ≡ some name
    → (s' : Server) × (subscribe mc buf nread s ≡ some s')
      × (s'.fd_addrs ≡ insert mc.addr mc.fd s.fd_addrs)
      × ((a : Text)
          → get a [] s'.relations
            ≡ get a [] s.relations
              ++ (if has_key (find name (insert mc.addr mc.fd s.fd_addrs)) && text_eq name a
                  then mc.addr ∷ []
                  else []))
unfolding subscribe
subscribe-relations mc buf nread s name e =
    let known = record s { fd_addrs = insert mc.addr mc.fd s.fd_addrs } in
    let o = find name known.fd_addrs in
    (
      subscribe_by o mc name known,
      rw e refl,
      subscribe_by-fd_addrs o mc name known,
      λ a. subscribe_by-relations o mc name a known,
    )

-- Unregistering is undefined, an `erase` of `end()`, exactly when the connection's address has no
-- descriptor or no list of subscribers.
pub unregister-eq-none :
    (mc : Conn) (s : Server)
    → (unregister mc s ≡ none)
      ↔ ((find mc.addr s.fd_addrs ≡ none) ⊎ (find mc.addr s.relations ≡ none))
unfolding unregister
unregister-eq-none mc s =
    ground (arith, erase-eq-none mc.addr s.fd_addrs, erase-eq-none mc.addr s.relations)
