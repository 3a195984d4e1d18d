-- ===== src/MessageQueue/Exchange.antt =====
-- What a client sends, read by recv_msg of message_queue/message_queue_server.cpp in one piece.
use seda_framework.Base.{
  ℕ, ◌≤◌, ◌≡◌, ◌≢◌, refl, sym, ap, ◌∙◌, Bool, true, some, some-injective, List, [], ◌∷◌, ◌++◌,
  length, replicate, append-nil, get_elem?, if◌then◌else◌, ◌+◌, length-append, arith, none,
}
use seda_framework.Base.Memory.{NoZero}
use seda_framework.Base.Dictionary.{Text, find, insert, get}
use seda_framework.Buffer.{Buffer, buf_size}
use seda_framework.MessageQueue.{char_sum, check_msg_crc, encode_mq_msg, decode_mq_msg}
use seda_framework.MessageQueue.Client.{send, register_mq, unregister_mq}
use seda_framework.MessageQueue.Checksum.{NoPercent, send_lem, publish_roundtrip}
use seda_framework.MessageQueue.Registration.{
  register_mq_subscriber, unregister_mq_subscriber, publisher_name_sent,
}
use seda_framework.MessageQueue.Delivery.{
  copies, writes_for, deliver_all-writes_for, deliver_all-cached_msg,
}
use seda_framework.MessageQueue.Server.{
  Server, Conn, Write, read_into, deliver_all, publish, publisher_name, subscribe_by, subscribe,
  dispatch, handle_msg, recv_loop, recv_msg, Ending, kept_open, closed,
}

-- How recv_msg ends.
abbrev pub ending : Conn → Bool → Ending
ending mc last_zero = if last_zero then closed mc.fd mc.fd else kept_open

-- One read, by what the handler makes of it.
recv_msg_one :
    (mc : Conn) (bytes : List ℕ) (last_zero : Bool) (s : Server) (r : Server × List Write)
    → handle_msg mc (read_into bytes (replicate buf_size 0)) (length bytes) s ≡ some r
    → recv_msg mc (bytes ∷ []) last_zero s ≡ some (r.0, r.1, ending mc last_zero)
unfolding recv_msg recv_loop
recv_msg_one mc bytes last_zero s r e =
    rw e (ap (λ ws. some (r.0, ws, ending mc last_zero)) (append-nil r.1))

handle_msg_publish :
    (mc : Conn) (buf : List ℕ) (nread : ℕ) (s : Server) (msg : List ℕ) (b : Buffer)
    → get_elem? buf 0 ≡ some 0x1
    → check_msg_crc buf nread ≡ some true
    → encode_mq_msg buf ≡ some b
    → decode_mq_msg b ≡ some msg
    → handle_msg mc buf nread s
      ≡ some (
          deliver_all mc msg nread
            (get mc.addr [] s.relations)
            (record s { relations = insert mc.addr [] s.relations }))
unfolding handle_msg dispatch publish
handle_msg_publish mc buf nread s msg b kind right encoded decoded =
    rw (kind, right, encoded, decoded) refl

handle_msg_subscribe :
    (mc : Conn) (buf : List ℕ) (nread : ℕ) (s : Server) (name : Text)
    → get_elem? buf 0 ≡ some 0x4
    → publisher_name buf nread ≡ some name
    → handle_msg mc buf nread s
      ≡ some (
        subscribe_by
            (find name (insert mc.addr mc.fd s.fd_addrs))
            mc
            name
            (record s { fd_addrs = insert mc.addr mc.fd s.fd_addrs }),
        [],
      )
unfolding handle_msg dispatch subscribe
handle_msg_subscribe mc buf nread s name kind named = rw (kind, named) refl

handle_msg_leave :
    (mc : Conn) (buf : List ℕ) (nread : ℕ) (s : Server) (name : Text)
    → get_elem? buf 0 ≡ some 0x16
    → publisher_name buf nread ≡ some name
    → handle_msg mc buf nread s ≡ some (s, [])
unfolding handle_msg dispatch
handle_msg_leave mc buf nread s name kind named = rw (kind, named) refl

-- The writes do not depend on `relations`.
writes_for-listed :
    (mc : Conn) (msg : List ℕ) (nread : ℕ) (subs : List Text) (s : Server)
    → writes_for mc msg nread (record s { relations = insert mc.addr [] s.relations }) subs
      ≡ writes_for mc msg nread s subs
writes_for-listed mc msg nread [] s = refl
writes_for-listed mc msg nread (sub ∷ subs) s = rw (writes_for-listed mc msg nread subs s) refl

-- A client sends a message without zero bytes and percent signs, of at most 126 bytes and with a checksum
-- other than zero; the server, in any state, reads it in one piece on some connection. For each
-- subscriber of the connection's address in turn that it knows, it writes what was cached for that
-- subscriber, and then the message byte for byte, all of it to the connection itself, which is the
-- publisher's; the count of that last write is two more than the message has bytes, one beyond its
-- terminated string. For the others it caches the message behind what is cached for them, and nothing
-- else in the cache changes. The connection is closed or kept open by what the last `read` returned.
pub recv_msg-send :
    (sprintf : List ℕ → ℕ → List ℕ) (plain : (f : List ℕ) (n : ℕ) → NoPercent f → sprintf f n ≡ f)
    (msg : List ℕ) (mc : Conn) (last_zero : Bool) (s : Server)
    → NoPercent msg
    → length msg ≤ 126
    → NoZero msg
    → char_sum (0x1 ∷ msg) 0 ≢ 0
    → let subs = get mc.addr [] s.relations in
      (sent : List ℕ) × (t : Server) × (send sprintf msg ≡ some sent)
      × (recv_msg mc (sent ∷ []) last_zero s
          ≡ some (t, writes_for mc msg (length msg + 2) s subs, ending mc last_zero))
      × ((a : Text)
          → get a [] t.cached_msg
            ≡ get a [] s.cached_msg
              ++ elim (find a s.fd_addrs) [ none ↦ copies msg a subs | some fd ↦ [] ])
recv_msg-send sprintf plain msg mc last_zero s no_percent fits zero_free crc_set =
    let (sent, e, right, b, encoded, decoded) =
      publish_roundtrip sprintf plain msg no_percent fits zero_free crc_set in
    let bytes : 0x1 ∷ msg ++ char_sum (0x1 ∷ msg) 0 ∷ [] ≡ sent =
      some-injective _ _ (sym (send_lem sprintf plain msg no_percent fits) ∙ e) in
    let kind : get_elem? (read_into sent (replicate buf_size 0)) 0 ≡ some 0x1 =
      ap (λ xs. get_elem? (read_into xs (replicate buf_size 0)) 0) (sym bytes) in
    let count : length sent ≡ length msg + 2 =
      omega (arith, ap length bytes, length-append msg (char_sum (0x1 ∷ msg) 0 ∷ [])) in
    let listed : Server = record s { relations = insert mc.addr [] s.relations } in
    let subs = get mc.addr [] s.relations in
    let handled =
      handle_msg_publish mc (read_into sent (replicate buf_size 0)) (length sent) s msg b kind right
        encoded decoded in
    let one = recv_msg_one mc sent last_zero s _ handled in
    let written : (deliver_all mc msg (length sent) subs listed).1
        ≡ writes_for mc msg (length msg + 2) s subs =
      deliver_all-writes_for mc msg (length sent) subs listed
      ∙ ap (λ n. writes_for mc msg n listed subs) count
      ∙ writes_for-listed mc msg (length msg + 2) subs s in
    (
      sent,
      (deliver_all mc msg (length sent) subs listed).0,
      e,
      one
          ∙ ap
              (λ ws.
                some ((deliver_all mc msg (length sent) subs listed).0, ws, ending mc last_zero))
              written,
      λ a. deliver_all-cached_msg mc msg (length sent) subs a listed,
    )

-- A subscriber's registration for a name of at most 125 bytes, none of them zero: the server learns the
-- address of the connection, unless it knew it, adds it to the list of that name if the name is an
-- address that it knows, and writes nothing. When the subscriber unregisters, the server, in any
-- state, leaves everything as it is: the subscription stays.
pub recv_msg-subscriber :
    (name : Text) (mc : Conn) (last_zero : Bool)
    → NoZero name
    → length name ≤ 125
    → (sent sent' : List ℕ) × (register_mq 1 name ≡ some sent)
      × (unregister_mq 1 name ≡ some sent')
      × ((s : Server)
          → recv_msg mc (sent ∷ []) last_zero s
            ≡ some (
              subscribe_by
                  (find name (insert mc.addr mc.fd s.fd_addrs))
                  mc
                  name
                  (record s { fd_addrs = insert mc.addr mc.fd s.fd_addrs }),
              [],
              ending mc last_zero,
            ))
      × ((s : Server) → recv_msg mc (sent' ∷ []) last_zero s ≡ some (s, [], ending mc last_zero))
recv_msg-subscriber name mc last_zero zero_free fits = (
  0x4 ∷ name ++ 0 ∷ [],
  0x16 ∷ name ++ 0 ∷ [],
  register_mq_subscriber name zero_free fits,
  unregister_mq_subscriber name zero_free fits,
  λ s.
      recv_msg_one mc (0x4 ∷ name ++ 0 ∷ []) last_zero s _
        (handle_msg_subscribe mc _ _ s name refl (publisher_name_sent 0x4 name zero_free fits)),
  λ s.
      recv_msg_one mc (0x16 ∷ name ++ 0 ∷ []) last_zero s _
        (handle_msg_leave mc _ _ s name refl (publisher_name_sent 0x16 name zero_free fits)),
)
